-- ===== src/Relay/Expiry.antt =====
-- `PurgeExpired`.
use mathlib.Core.Option.{none-ne-some}
use pqc_chat.Common.{
  ℕ, ◌+◌, ◌≡◌, ◌≢◌, refl, sym, ap, ◌∙◌, subst, inl, inr, List, [], ◌∷◌, none, Bytes, Bytes_discrete,
  length, arith, leb, suc, not, Bool, if◌then◌else◌, Bool-cases, if_pos, if_neg,
}
use pqc_chat.Common.Int.{ℤ, pos, negsuc}
use pqc_chat.Common.Map.{Map, lookup, insert, erase, lookup-insert_ne, lookup-erase_ne}
use pqc_chat.Crypto.{Crypto}
use pqc_chat.Relay.{
  Server, QueuedMessage, or_empty, is_expired, keep_fresh, put_kept, purge_queues, queue_of,
  purge_expired,
}

-- A message is not older than the given age: the time is at most `t` after it was queued; for a
-- negative age it is at least that much before.
abbrev pub is_fresh : ℕ → ℤ → QueuedMessage → Bool
is_fresh now (pos t) m = leb now (m.queued_at + t)
is_fresh now (negsuc t) m = leb (now + suc t) m.queued_at

-- The messages that are not older than the given age, in order.
abbrev pub fresh : ℕ → ℤ → List QueuedMessage → List QueuedMessage
fresh now ttl [] = []
fresh now ttl (m ∷ ms) = if is_fresh now ttl m then m ∷ fresh now ttl ms else fresh now ttl ms

-- All queued messages of a map.
abbrev pub total : Map Bytes (List QueuedMessage) → ℕ
total [] = 0
total ((user, ms) ∷ m) = length ms + total m

-- Each key stands once, as in a Go map.
abbrev pub IsMap : Map Bytes (List QueuedMessage) → Type 0
IsMap [] = Unit {0}
IsMap ((user, ms) ∷ m) = (lookup Bytes_discrete user m ≡ none) × IsMap m

-- The code's test on the difference of two times.
expired-eq :
    (now : ℕ) (ttl : ℤ) (m : QueuedMessage) → is_expired now ttl m ≡ not (is_fresh now ttl m)
expired-eq now (pos t) m = ground arith
expired-eq now (negsuc t) m = ground arith

keep_fresh_lem :
    (now : ℕ) (ttl : ℤ) (ms : List QueuedMessage)
    → ((keep_fresh now ttl ms).0 ≡ fresh now ttl ms)
      × (length (keep_fresh now ttl ms).0 + (keep_fresh now ttl ms).1 ≡ length ms)
unfolding keep_fresh
keep_fresh_lem now ttl [] = (refl, omega arith)
keep_fresh_lem now ttl (m ∷ ms) =
    let (same, count) = keep_fresh_lem now ttl ms in
    elim (Bool-cases (is_fresh now ttl m)) [
      | inl new ↦ rw (expired-eq now ttl m) (rw new (ap (λ q. m ∷ q) same, omega (arith, count)))
      | inr old ↦ rw (expired-eq now ttl m) (rw old (same, omega (arith, count)))
    ]

-- The queue that a map holds for a user.
abbrev held : Bytes → Map Bytes (List QueuedMessage) → List QueuedMessage
held user m = or_empty (lookup Bytes_discrete user m)

held-none :
    (user : Bytes) (m : Map Bytes (List QueuedMessage))
    → lookup Bytes_discrete user m ≡ none
    → held user m ≡ []
held-none user m e = ap or_empty e

held-put_self :
    (user : Bytes) (kept : List QueuedMessage) (m : Map Bytes (List QueuedMessage))
    → held user m ≡ []
    → held user (put_kept user kept m) ≡ kept
held-put_self user [] m e = e
held-put_self user (x ∷ xs) m e =
    unfold lookup in ap or_empty (if_pos (Bytes_discrete user user) refl _ _)

held-put_ne :
    (u user : Bytes) (kept : List QueuedMessage) (m : Map Bytes (List QueuedMessage))
    → u ≢ user
    → held user (put_kept u kept m) ≡ held user m
held-put_ne u user [] m h = refl
held-put_ne u user (x ∷ xs) m h =
    unfold lookup in ap or_empty (if_neg (Bytes_discrete u user) h _ _)

held-cons_self :
    (user : Bytes) (ms : List QueuedMessage) (m : Map Bytes (List QueuedMessage))
    → held user ((user, ms) ∷ m) ≡ ms
unfolding lookup
held-cons_self user ms m = ap or_empty (if_pos (Bytes_discrete user user) refl _ _)

held-cons_ne :
    (u user : Bytes) (ms : List QueuedMessage) (m : Map Bytes (List QueuedMessage))
    → u ≢ user
    → held user ((u, ms) ∷ m) ≡ held user m
unfolding lookup
held-cons_ne u user ms m h = ap or_empty (if_neg (Bytes_discrete u user) h _ _)

purge_queues-held :
    (now : ℕ) (ttl : ℤ) (m : Map Bytes (List QueuedMessage)) (user : Bytes)
    → IsMap m
    → held user (purge_queues now ttl m).0 ≡ fresh now ttl (held user m)
unfolding purge_queues
purge_queues-held now ttl [] user u = unfold lookup in refl
purge_queues-held now ttl ((j, ms) ∷ m) user (absent, u) =
    let ih = purge_queues-held now ttl m user u in
    let kept = (keep_fresh_lem now ttl ms).0 in
    elim (Bytes_discrete j user) [
      | no other ↦
          held-put_ne j user (keep_fresh now ttl ms).0 (purge_queues now ttl m).0 other
          ∙ ih
          ∙ ap (fresh now ttl) (sym (held-cons_ne j user ms m other))
      | yes same ↦
          subst
            (λ k.
              held k (put_kept j (keep_fresh now ttl ms).0 (purge_queues now ttl m).0)
              ≡ fresh now ttl (held k ((j, ms) ∷ m)))
            same
            (held-put_self j (keep_fresh now ttl ms).0 (purge_queues now ttl m).0
                (purge_queues-held now ttl m j u ∙ ap (fresh now ttl) (held-none j m absent))
              ∙ kept
              ∙ ap (fresh now ttl) (sym (held-cons_self j ms m)))
    ]

total-put :
    (user : Bytes) (kept : List QueuedMessage) (m : Map Bytes (List QueuedMessage))
    → total (put_kept user kept m) ≡ length kept + total m
total-put user [] m = omega arith
total-put user (x ∷ xs) m = refl

purge_queues-total :
    (now : ℕ) (ttl : ℤ) (m : Map Bytes (List QueuedMessage))
    → total (purge_queues now ttl m).0 + (purge_queues now ttl m).1 ≡ total m
unfolding purge_queues
purge_queues-total now ttl [] = omega arith
purge_queues-total now ttl ((j, ms) ∷ m) = omega (
  arith,
  purge_queues-total now ttl m,
  (keep_fresh_lem now ttl ms).1,
  total-put j (keep_fresh now ttl ms).0 (purge_queues now ttl m).0,
)

-- After a purge every user's queue holds, in order, exactly the messages that were not older than the
-- given age, which is at most that much time after they were queued, and the number that it reports is the number of messages that are gone; for a map that
-- holds each key once.
pub purge_expired_lem :
    (c : Crypto) (s : Server c) (now : ℕ) (ttl : ℤ)
    → IsMap s.queues
    → ((user : Bytes)
        → queue_of c (purge_expired c s now ttl).0 user ≡ fresh now ttl (queue_of c s user))
      × (total (purge_expired c s now ttl).0.queues + (purge_expired c s now ttl).1
          ≡ total s.queues)
unfolding purge_expired queue_of
purge_expired_lem c s now ttl u =
    (λ user. purge_queues-held now ttl s.queues user u, purge_queues-total now ttl s.queues)

-- The calls keep each key once.
pub insert-IsMap :
    (user : Bytes) (ms : List QueuedMessage) (m : Map Bytes (List QueuedMessage))
    → IsMap m
    → IsMap (insert Bytes_discrete user ms m)
unfolding insert
insert-IsMap user ms [] u = (unfold lookup in refl, tt)
insert-IsMap user ms ((j, old) ∷ m) (absent, u) = elim (Bytes_discrete j user) [
  | yes same ↦ rw (if_pos _ same) (subst (λ k. lookup Bytes_discrete k m ≡ none) same absent, u)
  | no other ↦ rw (if_neg _ other) (
    lookup-insert_ne Bytes_discrete user j ms m (λ e. other (sym e)) ∙ absent,
    insert-IsMap user ms m u,
  )
]

pub erase-IsMap :
    (user : Bytes) (m : Map Bytes (List QueuedMessage))
    → IsMap m
    → IsMap (erase Bytes_discrete user m)
unfolding erase
erase-IsMap user [] u = tt
erase-IsMap user ((j, old) ∷ m) (absent, u) = elim (Bytes_discrete j user) [
  | yes same ↦ rw (if_pos _ same) (erase-IsMap user m u)
  | no other ↦
      rw (if_neg _ other) (
        lookup-erase_ne Bytes_discrete user j m (λ e. other (sym e)) ∙ absent,
        erase-IsMap user m u,
      )
]

put-absent :
    (j user : Bytes) (kept : List QueuedMessage) (m : Map Bytes (List QueuedMessage))
    → j ≢ user
    → lookup Bytes_discrete user m ≡ none
    → lookup Bytes_discrete user (put_kept j kept m) ≡ none
unfolding lookup
put-absent j user [] m other absent = absent
put-absent j user (x ∷ xs) m other absent = rw (if_neg _ other) absent

purge-absent :
    (now : ℕ) (ttl : ℤ) (user : Bytes) (m : Map Bytes (List QueuedMessage))
    → lookup Bytes_discrete user m ≡ none
    → lookup Bytes_discrete user (purge_queues now ttl m).0 ≡ none
unfolding purge_queues lookup
purge-absent now ttl user [] absent = refl
purge-absent now ttl user ((j, ms) ∷ m) absent = elim (Bytes_discrete j user) [
  | yes same ↦ absurd (none-ne-some ms (sym absent ∙ if_pos (Bytes_discrete j user) same _ _))
  | no other ↦
      put-absent j user (keep_fresh now ttl ms).0 (purge_queues now ttl m).0 other
        (purge-absent now ttl user m (sym (if_neg (Bytes_discrete j user) other _ _) ∙ absent))
]

put-IsMap :
    (j : Bytes) (kept : List QueuedMessage) (m : Map Bytes (List QueuedMessage))
    → lookup Bytes_discrete j m ≡ none
    → IsMap m
    → IsMap (put_kept j kept m)
put-IsMap j [] m absent u = u
put-IsMap j (x ∷ xs) m absent u = (absent, u)

pub purge-IsMap :
    (now : ℕ) (ttl : ℤ) (m : Map Bytes (List QueuedMessage))
    → IsMap m
    → IsMap (purge_queues now ttl m).0
unfolding purge_queues
purge-IsMap now ttl [] u = tt
purge-IsMap now ttl ((j, ms) ∷ m) (absent, u) =
    put-IsMap j (keep_fresh now ttl ms).0 (purge_queues now ttl m).0
      (purge-absent now ttl j m absent) (purge-IsMap now ttl m u)
