-- ===== src/Ratchet/Post.antt =====
-- Lists of messages that are on the way, and the one that arrives.
use pqc_chat.Common.{
  ℕ, ◌+◌, ◌≤◌, ◌≡◌, ◌≢◌, refl, sym, ap, ◌∙◌, inl, inr, List, [], ◌∷◌, none, some, Bytes, arith, All,
  if_pos, if_neg,
}
use pqc_chat.Common.Map.{lookup, lookup-erase, lookup-erase_ne}
use pqc_chat.Result.{ok}
use pqc_chat.Crypto.{Crypto, AeadLaws}
use pqc_chat.Ratchet.State.{State, SkippedKey, SkippedKey_discrete}
use pqc_chat.Ratchet.Receiving.{decrypt_message, advance_receiving}
use pqc_chat.Ratchet.Reordered.{stored_decrypts, without}
use pqc_chat.Ratchet.Linked.{carry}
use pqc_chat.Ratchet.Skipping.{chain_after, moved}
use pqc_chat.Ratchet.Entering.{Behind}
use pqc_chat.Ratchet.Arrival.{
  bounded, opens_late, arrived-Clean, arrived-Behind, arrived-Waits, arrived_lead,
}
use pqc_chat.Ratchet.Late.{Parcel, place, Stored, Waits, Clean}

module _ (c : Crypto) where
  -- No two parcels have one place.
  abbrev pub Distinct : List (Parcel c) → Type 0
  Distinct [] = Unit {0}
  Distinct (p ∷ ps) = All (λ q. place c p ≢ place c q) ps × Distinct ps

  All-both :
      (P Q R : Parcel c → Type 0)
      → ((p : Parcel c) → P p → Q p → R p)
      → (ps : List (Parcel c)) → All P ps
      → All Q ps
      → All R ps
  All-both P Q R f [] hp hq = tt
  All-both P Q R f (p ∷ ps) hp hq = (f p hp.0 hq.0, All-both P Q R f ps hp.1 hq.1)

  -- One parcel of a list, and the others.
  pub data Pick (p : Parcel c) : List (Parcel c) → List (Parcel c) → Type 0 where
    here : (ps : List (Parcel c)) → Pick p (p ∷ ps) ps
    there : (q : Parcel c) (ps rest : List (Parcel c)) → Pick p ps rest → Pick p (q ∷ ps) (q ∷ rest)

  -- What holds of whichever parcel is picked holds of all.
  pub each :
      (P : Parcel c → Type 0) (ps : List (Parcel c))
      → ((p : Parcel c) (rest : List (Parcel c)) → Pick p ps rest → P p)
      → All P ps
  each P [] f = tt
  each P (p ∷ ps) f =
      (f p ps (here ps), each P ps λ q rest pick. f q (p ∷ rest) (there p ps rest pick))

  pub Pick-All :
      (P : Parcel c → Type 0) {p : Parcel c} {ps rest : List (Parcel c)}
      → Pick p ps rest
      → All P ps
      → P p × All P rest
  Pick-All P (here ps) all = (all.0, all.1)
  Pick-All P (there q ps rest pick) all =
      let (one, others) = Pick-All P pick all.1 in (one, (all.0, others))

  pub Pick-Distinct :
      {p : Parcel c} {ps rest : List (Parcel c)}
      → Pick p ps rest
      → Distinct ps
      → All (λ q. place c p ≢ place c q) rest × Distinct rest
  Pick-Distinct (here ps) d = d
  Pick-Distinct (there q ps rest pick) (apart, d) =
      let (one, others) = Pick-All (λ r. place c q ≢ place c r) pick apart in
      let (far, e) = Pick-Distinct pick d in ((λ same. one (sym same), far), (others, e))

  -- A state without a stored key has no more keys than before.
  without-none :
      (q k : SkippedKey) (s : State c)
      → lookup SkippedKey_discrete k s.skipped ≡ none
      → lookup SkippedKey_discrete k (without c q s).skipped ≡ none
  without-none q k s absent =
      lookup-erase SkippedKey_discrete q k s.skipped ∙ elim (SkippedKey_discrete q k) [
        | yes same ↦ if_pos (SkippedKey_discrete q k) same _ _
        | no other ↦ if_neg (SkippedKey_discrete q k) other _ _ ∙ absent
      ]

  pub without-Waits :
      (s : State c) (q : SkippedKey) (n : ℕ) (p : Parcel c)
      → q ≢ place c p
      → Waits c s n p
      → Waits c (without c q s) n p
  without-Waits s q n p other (inl (key, found, sealed)) =
      inl (key, lookup-erase_ne SkippedKey_discrete q (place c p) s.skipped other ∙ found, sealed)
  without-Waits s q n p other (inr w) = inr (record {
    remote = w.remote;
    chain = w.chain;
    ahead = w.ahead;
    known = w.known;
    at = w.at;
    key = w.key;
    number = w.number;
    before = w.before;
    sealed = w.sealed;
  })

  pub without-Clean : (s : State c) (q : SkippedKey) → Clean c s → Clean c (without c q s)
  without-Clean s q clean r known n far = without-none q (c.dh_bytes r, n) s (clean r known n far)

  -- A stored parcel is opened, and its key is the one that is stored.
  pub Stored-opens :
      AeadLaws c
      → (s : State c) (p : Parcel c) → Stored c s p
      → decrypt_message c p.header p.ciphertext p.ad s ≡ (without c (place c p) s, ok p.plaintext)
  Stored-opens laws s p (key, found, sealed) =
      stored_decrypts c laws s p.header p.ciphertext p.ad key p.plaintext found sealed

  -- The rest of the receiving chain, up to the number `next`.
  abbrev pub Lead : State c → ℕ → Bytes → ℕ → Type 0
  Lead s next ck gap =
      (ck' : Bytes) × (gap' : ℕ) × (s.chain_recv ≡ some ck')
      × (next ≡ s.n_recv + gap')
      × (gap' ≤ gap)
      × (chain_after c ck gap ≡ chain_after c ck' gap')

  -- What the arrival of `p` leaves of its receiver, where `rest` is still on the way.
  pub record Caught (s : State c) (next : ℕ) (p : Parcel c) (rest : List (Parcel c)) : Type 0 where
    pub left : State c
    pub opened : decrypt_message c p.header p.ciphertext p.ad s ≡ (left, ok p.plaintext)
    pub clean : Clean c left
    pub behind : Behind c left next
    pub waits : All (Waits c left next) rest
    pub same : left ≡ moved c s left.chain_recv left.n_recv left.skipped
    pub lead :
        (ck : Bytes) (gap : ℕ)
        → s.chain_recv ≡ some ck
        → next ≡ s.n_recv + gap
        → Lead left next ck gap

  caught :
      AeadLaws c
      → (s : State c) (next : ℕ) (p : Parcel c) (rest : List (Parcel c)) → Clean c s
      → Behind c s next
      → All (λ q. place c p ≢ place c q) rest
      → Waits c s next p
      → All (Waits c s next) rest
      → Caught s next p rest
  caught laws s next p rest clean behind apart (inl stored) waits = record {
    left = without c (place c p) s;
    opened = Stored-opens laws s p stored;
    clean = without-Clean s (place c p) clean;
    behind = carry c s (without c (place c p) s) next next refl refl refl behind;
    waits =
        All-both (λ q. place c p ≢ place c q) (Waits c s next)
          (Waits c (without c (place c p) s) next)
          (λ q other. without-Waits s (place c p) next q other) rest apart waits;
    same = refl;
    lead = λ ck gap at number. (ck, gap, at, number, omega arith, refl);
  }
  caught laws s next p rest clean behind apart (inr w) waits =
      let small = bounded c s next p w behind in
      let (t, opened, kept) = opens_late c laws s next p w clean behind in
      record {
        left = advance_receiving c t;
        opened = opened;
        clean = arrived-Clean c s t next p w small kept clean;
        behind = arrived-Behind c s t next p w kept behind;
        waits =
            All-both (λ q. place c p ≢ place c q) (Waits c s next)
              (Waits c (advance_receiving c t) next)
              (λ q other. arrived-Waits c s t next p q w small clean kept other) rest apart waits;
        same = ap (advance_receiving c) kept.rest;
        lead = λ ck gap at number. arrived_lead c s t next p w ck gap small kept at number;
      }

  -- Whichever parcel of a list arrives.
  pub catches :
      AeadLaws c
      → (s : State c) (next : ℕ) {p : Parcel c} {ps rest : List (Parcel c)} → Clean c s
      → Behind c s next
      → Distinct ps
      → All (Waits c s next) ps
      → Pick p ps rest
      → Caught s next p rest
  catches laws s next {p} {ps} {rest} clean behind distinct waits pick =
      let (one, others) = Pick-All (Waits c s next) pick waits in
      caught laws s next p rest clean behind (Pick-Distinct pick distinct).0 one others
