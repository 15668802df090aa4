-- ===== src/Translog/Heads.antt =====
-- All tree heads that a log publishes in its history.
use pqc_chat.Common.{
  ℕ, ◌≡◌, refl, sym, ap, ◌∙◌, subst, List, [], ◌∷◌, append-nil, All, Any, inl, inr, take,
}
use pqc_chat.Common.Int.{pos}
use pqc_chat.Result.{Result, ok, err, panic, diverges, ok-injective}
use pqc_chat.Crypto.{Crypto}
use pqc_chat.Identity.{KeyPair}
use pqc_chat.Merkle.{build_tree, root}
use pqc_chat.Translog.{
  Server, SignedTreeHead, new_server, append, publish_sth, make_sth, leaves_of, merkle_domain,
}
use pqc_chat.Translog.Log.{Op, appends, publishes, step, run, append_only, publish-entries}
use pqc_chat.Translog.Sound.{Covers, Covers-later, make_sth-Covers}

module _ (c : Crypto) where
  -- A head that a call returned, before the later ones.
  abbrev returned : Result (SignedTreeHead c) → List (SignedTreeHead c) → List (SignedTreeHead c)
  returned (ok sth) later = sth ∷ later
  returned (err _) later = later
  returned panic later = later
  returned diverges later = later

  abbrev pub published : Server c → List (Op c) → List (SignedTreeHead c)
  published s [] = []
  published s (appends user p now ∷ ops) = published (step c s (appends user p now)) ops
  published s (publishes now e ∷ ops) =
      returned (publish_sth c s now e).1 (published (step c s (publishes now e)) ops)

  pub run_operator : (s : Server c) (ops : List (Op c)) → (run c s ops).operator_id ≡ s.operator_id
  unfolding run append
  run_operator s [] = refl
  run_operator s (appends user p now ∷ ops) = run_operator (append c s user p now).0 ops
  run_operator s (publishes now e ∷ ops) =
      run_operator (publish_sth c s now e).0 ops ∙ (publish-entries c s now e).2

  run-Covers :
      (s : Server c) (ops : List (Op c)) (sth : SignedTreeHead c)
      → Covers c s sth
      → Covers c (run c s ops) sth
  run-Covers s ops sth v =
      let (more, grown) = append_only c s ops in
      Covers-later c s (run c s ops) more sth grown (run_operator s ops) v

  returned-All :
      (s t : Server c) (now : ℕ) (e : c.Entropy) (later : List (SignedTreeHead c))
      → ((sth : SignedTreeHead c) → make_sth c s now e ≡ ok sth → Covers c t sth)
      → All (Covers c t) later
      → All (Covers c t) (returned (publish_sth c s now e).1 later)
  unfolding publish_sth
  returned-All s t now e later one all = go (make_sth c s now e) refl
    where
      go :
          (r : Result (SignedTreeHead c))
          → make_sth c s now e ≡ r
          → All (Covers c t) (returned (publish_sth c s now e).1 later)
      go (ok sth) made = rw (made, publish_sth) (one sth made, all)
      go (err _) made = rw (made, publish_sth) all
      go panic made = rw (made, publish_sth) all
      go diverges made = rw (made, publish_sth) all

  published-Covers :
      (s : Server c) (ops : List (Op c)) → All (Covers c (run c s ops)) (published s ops)
  unfolding run step
  published-Covers s [] = tt
  published-Covers s (appends user p now ∷ ops) = published-Covers (append c s user p now).0 ops
  published-Covers s (publishes now e ∷ ops) =
      let s' = (publish_sth c s now e).0 in
      returned-All s (run c s' ops) now e (published s' ops)
        (λ sth made.
          let (same, _, operator) = publish-entries c s now e in
          run-Covers s' ops sth (
            Covers-later c s s' [] sth (same ∙ sym (append-nil s.entries)) operator
              (make_sth-Covers c s now e sth made)))
        (published-Covers s' ops)

  pos-injective : (n m : ℕ) → pos n ≡ pos m → n ≡ m
  pos-injective n m e = cc

  -- Two heads of one log, of one size, have one root.
  pub heads_agree :
      (s : Server c) (a b : SignedTreeHead c)
      → Covers c s a
      → Covers c s b
      → a.tree_size ≡ b.tree_size
      → a.root_hash ≡ b.root_hash
  heads_agree s a b u v same =
      let n : u.n ≡ v.n = pos-injective u.n v.n (sym u.size ∙ same ∙ v.size) in
      let leaves : u.leaves ≡ v.leaves =
        ok-injective u.leaves v.leaves
          (sym u.packed ∙ ap (λ i. leaves_of c (take i s.entries)) n ∙ v.packed) in
      let tree : u.tree ≡ v.tree =
        ok-injective u.tree v.tree
          (sym u.built ∙ ap (build_tree c.sha256 merkle_domain) leaves ∙ v.built) in
      ok-injective a.root_hash b.root_hash (sym u.rooted ∙ ap root tree ∙ v.rooted)

  -- A head of a list of heads.
  abbrev pub IsAmong : SignedTreeHead c → List (SignedTreeHead c) → Type 0
  IsAmong sth sths = Any (λ x. x ≡ sth) sths

  among-All :
      (s : Server c) (sth : SignedTreeHead c) (sths : List (SignedTreeHead c))
      → All (Covers c s) sths
      → IsAmong sth sths
      → Covers c s sth
  among-All s sth [] all m = elim m [ ]
  among-All s sth (x ∷ xs) all (inl e) = subst (Covers c s) e all.0
  among-All s sth (x ∷ xs) all (inr m) = among-All s sth xs all.1 m

  -- Every head that a log has published is the signed root of a prefix of the entries that the log has
  -- in the end.
  pub among-Covers :
      (operator : KeyPair c) (ops : List (Op c)) (sth : SignedTreeHead c)
      → IsAmong sth (published (new_server c operator) ops)
      → Covers c (run c (new_server c operator) ops) sth
  among-Covers operator ops sth m =
      among-All (run c (new_server c operator) ops) sth (published (new_server c operator) ops)
        (published-Covers (new_server c operator) ops) m

  -- Two tree heads that one log published, at any two points of its history, have one root if they
  -- have one size.
  pub published_agree :
      (operator : KeyPair c) (ops : List (Op c)) (a b : SignedTreeHead c)
      → IsAmong a (published (new_server c operator) ops)
      → IsAmong b (published (new_server c operator) ops)
      → a.tree_size ≡ b.tree_size
      → a.root_hash ≡ b.root_hash
  published_agree operator ops a b m n same =
      heads_agree (run c (new_server c operator) ops) a b (among-Covers operator ops a m)
        (among-Covers operator ops b n) same
