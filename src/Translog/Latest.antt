-- ===== src/Translog/Latest.antt =====
-- `LatestEntryForUser`: the index that the log keeps for a user, and the last entry of the user.
use pqc_chat.Common.{
  ℕ, ◌≡◌, ◌≢◌, refl, sym, ap, ◌∙◌, subst, ite, if_pos, if_neg, List, [], ◌∷◌, ◌++◌, Option, none,
  some, Bytes, Bytes_discrete, length, get_elem?, get_elem?-append_left, get_elem?-append_last,
  get_elem?-lt,
}
use pqc_chat.Common.Map.{lookup, insert, lookup-insert_self, lookup-insert_ne}
use pqc_chat.Result.{ok}
use pqc_chat.Crypto.{Crypto}
use pqc_chat.Identity.{KeyPair, PublicKey}
use pqc_chat.Translog.{Entry, Server, new_server, append, publish_sth, latest_entry_for_user}
use pqc_chat.Translog.Log.{Op, appends, publishes, step, run, next_entry, publish-entries}

module _ (c : Crypto) where
  abbrev or_else : Option (Entry c) → Option (Entry c) → Option (Entry c)
  or_else none other = other
  or_else (some e) other = some e

  -- The last entry of a user, by a look at all of them.
  abbrev pub last_of : Bytes → List (Entry c) → Option (Entry c)
  last_of user [] = none
  last_of user (e ∷ es) =
      or_else (last_of user es) (ite (Bytes_discrete e.user_id user) (some e) none)

  last_of-same :
      (user : Bytes) (es : List (Entry c)) (x : Entry c)
      → x.user_id ≡ user
      → last_of user (es ++ x ∷ []) ≡ some x
  last_of-same user [] x e = if_pos (Bytes_discrete x.user_id user) e _ _
  last_of-same user (y ∷ es) x e =
      ap (λ o. or_else o (ite (Bytes_discrete y.user_id user) (some y) none))
        (last_of-same user es x e)

  last_of-other :
      (user : Bytes) (es : List (Entry c)) (x : Entry c)
      → x.user_id ≢ user
      → last_of user (es ++ x ∷ []) ≡ last_of user es
  last_of-other user [] x e = if_neg (Bytes_discrete x.user_id user) e _ _
  last_of-other user (y ∷ es) x e =
      ap (λ o. or_else o (ite (Bytes_discrete y.user_id user) (some y) none))
        (last_of-other user es x e)

  -- The index that is kept for a user.
  abbrev Points : List (Entry c) → Bytes → Option ℕ → Type 0
  Points es user none = last_of user es ≡ none
  Points es user (some i) = (e : Entry c) × (get_elem? es i ≡ some e) × (last_of user es ≡ some e)

  abbrev IsIndexed : Server c → Type 0
  IsIndexed s = (user : Bytes) → Points s.entries user (lookup Bytes_discrete user s.latest_by_user)

  Points-other :
      (user : Bytes) (es : List (Entry c)) (x : Entry c) (o : Option ℕ)
      → x.user_id ≢ user
      → Points es user o
      → Points (es ++ x ∷ []) user o
  Points-other user es x none other p = last_of-other user es x other ∙ p
  Points-other user es x (some i) other (e, at, last) = (
    e,
    get_elem?-append_left es (x ∷ []) i (get_elem?-lt es i at) ∙ at,
    last_of-other user es x other ∙ last,
  )

  append-IsIndexed :
      (s : Server c) (user : Bytes) (p : PublicKey c) (now : ℕ)
      → IsIndexed s
      → IsIndexed (append c s user p now).0
  unfolding append
  append-IsIndexed s user p now h = λ j.
      let x = next_entry c s user p now in
      let es = s.entries ++ x ∷ [] in
      elim (Bytes_discrete user j) [
        | yes same ↦
            subst
              (λ k. Points es k (
                lookup Bytes_discrete k
                  (insert Bytes_discrete user (length s.entries) s.latest_by_user)))
              same
              (subst (Points es user)
                (sym (lookup-insert_self Bytes_discrete user (length s.entries) s.latest_by_user))
                (x, get_elem?-append_last s.entries x, last_of-same user s.entries x refl))
        | no other ↦
            subst (Points es j)
              (sym
                (lookup-insert_ne Bytes_discrete user j (length s.entries) s.latest_by_user other))
              (Points-other j s.entries x (lookup Bytes_discrete j s.latest_by_user) other (h j))
      ]

  publish-IsIndexed :
      (s : Server c) (now : ℕ) (e : c.Entropy) → IsIndexed s → IsIndexed (publish_sth c s now e).0
  publish-IsIndexed s now e h user =
      let (entries, latest, _) = publish-entries c s now e in
      subst
        (λ es. Points es user (lookup Bytes_discrete user (publish_sth c s now e).0.latest_by_user))
        (sym entries)
        (subst (λ m. Points s.entries user (lookup Bytes_discrete user m)) (sym latest) (h user))

  run-IsIndexed : (s : Server c) (ops : List (Op c)) → IsIndexed s → IsIndexed (run c s ops)
  unfolding run step
  run-IsIndexed s [] h = h
  run-IsIndexed s (appends user p now ∷ ops) h =
      run-IsIndexed (append c s user p now).0 ops (append-IsIndexed s user p now h)
  run-IsIndexed s (publishes now e ∷ ops) h =
      run-IsIndexed (publish_sth c s now e).0 ops (publish-IsIndexed s now e h)

  Points-latest :
      (s : Server c) (user : Bytes) (o : Option ℕ)
      → lookup Bytes_discrete user s.latest_by_user ≡ o
      → Points s.entries user o
      → latest_entry_for_user c s user ≡ ok (last_of user s.entries)
  unfolding latest_entry_for_user
  Points-latest s user none e p = rw (e, latest_entry_for_user) (ap ok (sym p))
  Points-latest s user (some i) e (x, at, last) =
      rw (e, latest_entry_for_user) (rw at (ap ok (sym last)))

  -- In every state that is reached from the empty log, `LatestEntryForUser` never fails: it returns the
  -- last entry of the log that has the user's id, and nothing exactly if no entry has it.
  pub latest_entry_for_user-last_of :
      (operator : KeyPair c) (ops : List (Op c)) (user : Bytes)
      → latest_entry_for_user c (run c (new_server c operator) ops) user
        ≡ ok (last_of user (run c (new_server c operator) ops).entries)
  latest_entry_for_user-last_of operator ops user =
      let s = run c (new_server c operator) ops in
      Points-latest s user (lookup Bytes_discrete user s.latest_by_user) refl
        (run-IsIndexed (new_server c operator) ops empty user)
    where
      empty : IsIndexed (new_server c operator)
      empty = unfold new_server lookup in λ user. refl
