-- ===== src/Translog/Inclusion.antt =====
-- `InclusionProof` of the log server against `VerifyInclusion` and `VerifySTH` of its clients.
use mathlib.Core.Path.{subst₃}
use mathlib.Core.Option.{some-injective}
use pqc_chat.Common.{
  ℕ, zero, suc, ◌^◌, ◌≤◌, ◌<◌, ◌≡◌, refl, sym, ap, ◌∙◌, subst, true, false, List, [], ◌∷◌, some,
  Bytes, length, get_elem?, get_elem?-some, take, arith, lt→ltb, ltb→lt, not_above, length-take,
}
use pqc_chat.Common.Int.{pos, ltℤ}
use pqc_chat.Result.{ok, ◌>>=◌, bind_cases, ok-injective}
use pqc_chat.Crypto.{Crypto}
use pqc_chat.Merkle.{inclusion_proof, verify_inclusion_proof}
use pqc_chat.Merkle.Completeness.{verify-inclusion_proof}
use pqc_chat.Translog.{
  Entry, Server, SignedTreeHead, leaf_data, leaves_of, first_leaves, prove_under, prove_at,
  prove_inclusion, verify_inclusion, merkle_domain,
}
use pqc_chat.Translog.Sound.{IsSound, Covers}

module _ (c : Crypto) where
  first_leaves-take :
      (n : ℕ) (es : List (Entry c)) → n ≤ length es → first_leaves c n es ≡ leaves_of c (take n es)
  unfolding first_leaves leaves_of
  first_leaves-take zero es h = refl
  first_leaves-take (suc n) [] h = absurd (omega arith)
  first_leaves-take (suc n) (e ∷ es) h =
      ap (λ r. leaf_data c e >>= λ l. r >>= λ ls. ok (l ∷ ls))
        (first_leaves-take n es (omega arith))

  abbrev Placed : Entry c → List Bytes → ℕ → Type 0
  Placed e ls i = (l : Bytes) × (leaf_data c e ≡ ok l) × (get_elem? ls i ≡ some l)

  place :
      (x : Entry c) (es : List (Entry c)) (l : Bytes) (rest : List Bytes) (e : Entry c) (i : ℕ)
      → leaf_data c x ≡ ok l
      → ((j : ℕ) → get_elem? es j ≡ some e → Placed e rest j)
      → get_elem? (x ∷ es) i ≡ some e
      → Placed e (l ∷ rest) i
  place x es l rest e zero packed later here =
      (l, subst (λ q. leaf_data c q ≡ ok l) (some-injective _ _ here) packed, refl)
  place x es l rest e (suc i) packed later here = later i here

  -- The leaf of an entry stands at the entry's place.
  leaf_at :
      (es : List (Entry c)) (ls : List Bytes) (i : ℕ) (e : Entry c)
      → leaves_of c es ≡ ok ls
      → get_elem? es i ≡ some e
      → (l : Bytes) × (leaf_data c e ≡ ok l) × (get_elem? ls i ≡ some l)
  unfolding leaves_of
  leaf_at [] ls i e packed at = absurd (ground arith)
  leaf_at (x ∷ es) ls i e packed at = bind_cases (leaf_data c x) _ packed λ l e1 r1.
      bind_cases (leaves_of c es) _ r1 λ rest e2 r2.
        subst (λ q. Placed e q i) (ok-injective _ _ r2)
          (place x es l rest e i e1 (λ j there. leaf_at es rest j e e2 there) at)

  length-leaves_of :
      (es : List (Entry c)) (ls : List Bytes) → leaves_of c es ≡ ok ls → length ls ≡ length es
  unfolding leaves_of
  length-leaves_of [] ls e = ap length (sym (ok-injective _ _ e))
  length-leaves_of (x ∷ es) ls e = bind_cases (leaf_data c x) _ e λ l e1 r1.
      bind_cases (leaves_of c es) _ r1
        λ rest e2 r2. ap length (sym (ok-injective _ _ r2)) ∙ ap suc (length-leaves_of es rest e2)

  get_elem?-take :
      (n : ℕ) (es : List (Entry c)) (i : ℕ) → i < n → get_elem? (take n es) i ≡ get_elem? es i
  get_elem?-take zero es i h = absurd (omega arith)
  get_elem?-take (suc n) [] i h = refl
  get_elem?-take (suc n) (e ∷ es) zero h = refl
  get_elem?-take (suc n) (e ∷ es) (suc i) h = get_elem?-take n es i (omega arith)

  prove-eq :
      (s : Server c) (sth : SignedTreeHead c) (i : ℕ) (v : Covers c s sth) (e : Entry c)
      (path : List Bytes)
      → s.current_sth ≡ some sth
      → i < v.n
      → get_elem? s.entries i ≡ some e
      → inclusion_proof v.tree (pos i) ≡ ok path
      → prove_inclusion c s (pos i) ≡ ok (e, path, sth)
  unfolding prove_inclusion prove_at prove_under
  prove-eq s sth i v e path current below at proved =
      let loop : first_leaves c v.n s.entries ≡ ok v.leaves =
        first_leaves-take v.n s.entries v.within ∙ v.packed in
      let under : prove_inclusion c s (pos i) ≡ prove_at c s sth (pos i) sth.tree_size =
        rw (current, prove_inclusion) in
      under
      ∙ ap (prove_at c s sth (pos i)) v.size
      ∙ rw (lt→ltb i v.n below, loop) (rw (v.built) (rw (proved, at)))

  accepted :
      (sth : SignedTreeHead c) (e : Entry c) (path : List Bytes) (leaf : Bytes)
      → leaf_data c e ≡ ok leaf
      → verify_inclusion_proof c.sha256 leaf e.index sth.tree_size path sth.root_hash ≡ ok true
      → verify_inclusion c sth e path ≡ ok tt
  unfolding verify_inclusion
  accepted sth e path leaf packed ok_path = rw (packed, ok_path)

  covered_case :
      (s : Server c) (sth : SignedTreeHead c) (i : ℕ) (v : Covers c s sth) (e : Entry c)
      → IsSound c s
      → s.current_sth ≡ some sth
      → i < v.n
      → v.n ≤ 2 ^ 62
      → get_elem? s.entries i ≡ some e
      → (e : Entry c) × (path : List Bytes) × (get_elem? s.entries i ≡ some e)
        × (prove_inclusion c s (pos i) ≡ ok (e, path, sth))
        × (verify_inclusion c sth e path ≡ ok tt)
  covered_case s sth i v e w current below small at =
      let (leaf, packed, there) =
        leaf_at (take v.n s.entries) v.leaves i e v.packed
          (get_elem?-take v.n s.entries i below ∙ at) in
      let count : length v.leaves ≡ v.n = omega (
        arith,
        length-leaves_of (take v.n s.entries) v.leaves v.packed,
        length-take v.n s.entries,
        v.within,
      ) in
      let (path, r, proved, rooted, good) =
        verify-inclusion_proof c.sha256 merkle_domain v.leaves v.tree i leaf v.built (omega arith)
          there in
      let same : r ≡ sth.root_hash = ok-injective _ _ (sym rooted ∙ v.rooted) in
      (
        e,
        path,
        at,
        prove-eq s sth i v e path current below at proved,
        accepted sth e path leaf packed (
            subst₃ (λ j m q. verify_inclusion_proof c.sha256 leaf j m path q ≡ ok true)
              (sym (w.indexed i e at)) (ap pos count ∙ sym v.size) same good),
      )

  -- For a sound log state with a published head and an index below the head's size (at most 2 ^ 62):
  -- `InclusionProof` returns the entry at that index, a proof and that head, and `VerifyInclusion`
  -- accepts them.
  pub verify_inclusion-prove :
      (s : Server c) (sth : SignedTreeHead c) (i : ℕ)
      → IsSound c s
      → s.current_sth ≡ some sth
      → ltℤ (pos i) sth.tree_size ≡ true
      → ltℤ (pos (2 ^ 62)) sth.tree_size ≡ false
      → (e : Entry c) × (path : List Bytes) × (get_elem? s.entries i ≡ some e)
        × (prove_inclusion c s (pos i) ≡ ok (e, path, sth))
        × (verify_inclusion c sth e path ≡ ok tt)
  verify_inclusion-prove s sth i w current below small =
      let v = w.covered sth current in
      let below' : i < v.n = ltb→lt i v.n (ap (ltℤ (pos i)) (sym v.size) ∙ below) in
      let small' : v.n ≤ 2 ^ 62 =
        not_above (2 ^ 62) v.n (ap (ltℤ (pos (2 ^ 62))) (sym v.size) ∙ small) in
      let (e, at) = get_elem?-some s.entries i (omega (arith, v.within)) in
      covered_case s sth i v e w current below' small' at
