-- ===== src/Translog/Sound.antt =====
-- The published tree head covers a prefix of the log.
use mathlib.Core.Path.{subst₂}
use mathlib.Core.Option.{some-injective, none-ne-some}
use pqc_chat.Common.{
  dec_lt, ℕ, zero, suc, ◌≤◌, ◌≡◌, refl, sym, ap, ◌∙◌, subst, ◌⊎◌, inl, inr, List, [], ◌∷◌, ◌++◌,
  append-nil, some, Bytes, length, length-append, get_elem?, get_elem?-append_left,
  get_elem?-append_last, get_elem?-lt, take, arith,
}
use pqc_chat.Common.Int.{ℤ, pos}
use pqc_chat.Result.{Result, ok, err, panic, diverges, bind_cases, ok-injective}
use pqc_chat.Crypto.{Crypto}
use pqc_chat.Identity.{KeyPair, PublicKey, public, sign}
use pqc_chat.Merkle.{Tree, build_tree, root}
use pqc_chat.Translog.{
  Entry, Server, SignedTreeHead, new_server, append, publish_sth, make_sth, leaves_of,
  sign_tree_head, sth_signing_bytes, merkle_domain,
}
use pqc_chat.Translog.Log.{Op, appends, publishes, step, run, next_entry}

module _ (c : Crypto) where
  -- What a tree head says of a log: it is the signed root over the leaves of the first entries.
  pub record Covers (s : Server c) (sth : SignedTreeHead c) : Type 0 where
    pub n : ℕ
    pub size : sth.tree_size ≡ pos n
    pub within : n ≤ length s.entries
    pub leaves : List Bytes
    pub packed : leaves_of c (take n s.entries) ≡ ok leaves
    pub tree : Tree
    pub built : build_tree c.sha256 merkle_domain leaves ≡ ok tree
    pub rooted : root tree ≡ ok sth.root_hash
    pub draw : c.Entropy
    pub signed : sign_tree_head c s.operator_id (pos n) sth.root_hash sth.timestamp draw ≡ ok sth

  -- An entry's index is its place, and the published head covers the log.
  pub record IsSound (s : Server c) : Type 0 where
    pub indexed : (i : ℕ) (e : Entry c) → get_elem? s.entries i ≡ some e → e.index ≡ pos i
    pub covered : (sth : SignedTreeHead c) → s.current_sth ≡ some sth → Covers s sth

  take_all : (es : List (Entry c)) → take (length es) es ≡ es
  take_all [] = refl
  take_all (e ∷ es) = ap (λ r. e ∷ r) (take_all es)

  take_prefix : (n : ℕ) (es more : List (Entry c)) → n ≤ length es → take n (es ++ more) ≡ take n es
  take_prefix zero es more h = refl
  take_prefix (suc n) [] more h = absurd (omega arith)
  take_prefix (suc n) (e ∷ es) more h = ap (λ r. e ∷ r) (take_prefix n es more (omega arith))

  -- The entry at an index of a longer log.
  indexed_append :
      (es : List (Entry c)) (x : Entry c) (i : ℕ) (e : Entry c)
      → ((j : ℕ) (y : Entry c) → get_elem? es j ≡ some y → y.index ≡ pos j)
      → x.index ≡ pos (length es)
      → get_elem? (es ++ x ∷ []) i ≡ some e
      → e.index ≡ pos i
  indexed_append es x i e old last at = elim (dec_lt i (length es)) [
    | yes inside ↦ old i e (sym (get_elem?-append_left es (x ∷ []) i inside) ∙ at)
    | no outside ↦
        let here : length es ≡ i =
          omega (arith, get_elem?-lt (es ++ x ∷ []) i at, length-append es (x ∷ [])) in
        let same : x ≡ e = some-injective _ _ (
          sym (get_elem?-append_last es x)
          ∙ subst (λ k. get_elem? (es ++ x ∷ []) k ≡ some e) (sym here) at) in
        ap (λ y. y.index) (sym same) ∙ last ∙ ap pos here
  ]

  -- What a head says of a log, it says of every later state of it.
  pub Covers-later :
      (s s' : Server c) (more : List (Entry c)) (sth : SignedTreeHead c)
      → s'.entries ≡ s.entries ++ more
      → s'.operator_id ≡ s.operator_id
      → Covers s sth
      → Covers s' sth
  Covers-later s s' more sth grown same v = record {
    n = v.n;
    size = v.size;
    within = omega (arith, v.within, length-append s.entries more, ap length grown);
    leaves = v.leaves;
    packed =
        ap (λ es. leaves_of c (take v.n es)) grown
        ∙ ap (leaves_of c) (take_prefix v.n s.entries more v.within)
        ∙ v.packed;
    tree = v.tree;
    built = v.built;
    rooted = v.rooted;
    draw = v.draw;
    signed =
        ap (λ k. sign_tree_head c k (pos v.n) sth.root_hash sth.timestamp v.draw) same ∙ v.signed;
  }

  append-IsSound :
      (s : Server c) (user : Bytes) (p : PublicKey c) (now : ℕ)
      → IsSound s
      → IsSound (append c s user p now).0
  unfolding append
  append-IsSound s user p now w = record {
    indexed = λ i e at. indexed_append s.entries (next_entry c s user p now) i e w.indexed refl at;
    covered = λ sth e.
        Covers-later s (append c s user p now).0 (next_entry c s user p now ∷ []) sth refl refl
          (w.covered sth e);
  }

  pub sign_tree_head_parts :
      (operator : KeyPair c) (size : ℤ) (r : Bytes) (now : ℕ) (e : c.Entropy)
      (sth : SignedTreeHead c)
      → sign_tree_head c operator size r now e ≡ ok sth
      → (sth.tree_size ≡ size)
        × (sth.root_hash ≡ r)
        × (sth.timestamp ≡ now)
        × (sth.operator_identity ≡ public c operator)
        × (sign c operator (sth_signing_bytes c size r now) e ≡ ok sth.signature)
  unfolding sign_tree_head
  sign_tree_head_parts operator size r now e sth h =
      bind_cases (sign c operator (sth_signing_bytes c size r now) e) _ h λ sig e1 r1.
        let whole = ok-injective _ _ r1 in
        (
          ap (λ t. t.tree_size) (sym whole),
          ap (λ t. t.root_hash) (sym whole),
          ap (λ t. t.timestamp) (sym whole),
          ap (λ t. t.operator_identity) (sym whole),
          e1 ∙ ap (λ t. ok t.signature) whole,
        )

  pub make_sth-Covers :
      (s : Server c) (now : ℕ) (x : c.Entropy) (sth : SignedTreeHead c)
      → make_sth c s now x ≡ ok sth
      → Covers s sth
  unfolding make_sth
  make_sth-Covers s now x sth h = bind_cases (leaves_of c s.entries) _ h λ leaves e1 r1.
      bind_cases (build_tree c.sha256 merkle_domain leaves) _ r1 λ tree e2 r2.
        bind_cases (root tree) _ r2 λ r e3 r3.
          let (size, hash, time, _, _) =
            sign_tree_head_parts s.operator_id (pos (length s.entries)) r now x sth r3 in
          record {
            n = length s.entries;
            size = size;
            within = omega arith;
            leaves = leaves;
            packed = ap (leaves_of c) (take_all s.entries) ∙ e1;
            tree = tree;
            built = e2;
            rooted = e3 ∙ ap ok (sym hash);
            draw = x;
            signed =
                subst₂
                  (λ q t. sign_tree_head c s.operator_id (pos (length s.entries)) q t x ≡ ok sth)
                  (sym hash) (sym time) r3;
          }

  pub publish-cases :
      (s : Server c) (now : ℕ) (x : c.Entropy)
      → ((publish_sth c s now x).0 ≡ s)
        ⊎ ((sth : SignedTreeHead c) × (make_sth c s now x ≡ ok sth)
            × ((publish_sth c s now x).0 ≡ record s { current_sth = some sth }))
  unfolding publish_sth
  publish-cases s now x = go (make_sth c s now x) refl
    where
      Cases : Type 0
      Cases =
          ((publish_sth c s now x).0 ≡ s)
          ⊎ ((sth : SignedTreeHead c) × (make_sth c s now x ≡ ok sth)
              × ((publish_sth c s now x).0 ≡ record s { current_sth = some sth }))

      go : (r : Result (SignedTreeHead c)) → make_sth c s now x ≡ r → Cases
      go (ok sth) e = inr (sth, e, rw (e, publish_sth))
      go (err _) e = inl (rw (e, publish_sth))
      go panic e = inl (rw (e, publish_sth))
      go diverges e = inl (rw (e, publish_sth))

  publish-IsSound :
      (s : Server c) (now : ℕ) (x : c.Entropy) → IsSound s → IsSound (publish_sth c s now x).0
  publish-IsSound s now x w = elim (publish-cases s now x) [
    | inl same ↦ subst IsSound (sym same) w
    | inr (sth, made, after) ↦ subst IsSound (sym after) (record {
      indexed = w.indexed;
      covered = λ t e.
          Covers-later s (record s { current_sth = some sth }) [] t (sym (append-nil s.entries))
            refl (make_sth-Covers s now x t (made ∙ ap ok (some-injective _ _ e)));
    })
  ]

  step-IsSound : (s : Server c) (op : Op c) → IsSound s → IsSound (step c s op)
  unfolding step
  step-IsSound s (appends user p now) w = append-IsSound s user p now w
  step-IsSound s (publishes now x) w = publish-IsSound s now x w

  run-IsSound : (s : Server c) (ops : List (Op c)) → IsSound s → IsSound (run c s ops)
  unfolding run
  run-IsSound s [] w = w
  run-IsSound s (op ∷ ops) w = run-IsSound (step c s op) ops (step-IsSound s op w)

  -- In every state that is reached from the empty log: each entry's index is its place, and the
  -- published tree head, if there is one, is the operator's signature over the size of a prefix of the
  -- entries and the Merkle root of that prefix.
  pub run-new_server-IsSound :
      (operator : KeyPair c) (ops : List (Op c)) → IsSound (run c (new_server c operator) ops)
  run-new_server-IsSound operator ops = run-IsSound (new_server c operator) ops empty
    where
      empty : IsSound (new_server c operator)
      empty =
          unfold new_server in
          record {
            indexed = λ i e at. absurd (none-ne-some e at);
            covered = λ sth e. absurd (none-ne-some sth e);
          }
