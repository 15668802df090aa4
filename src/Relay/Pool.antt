-- ===== src/Relay/Pool.antt =====
-- One call of `FetchPrekeyBundle` on a user's entry: every outcome, and the count that is left.
use pqc_chat.Common.{
  ℕ, zero, suc, ◌+◌, ◌<◌, ◌≡◌, refl, ap, ◌∙◌, ◌⊎◌, inl, inr, Bool, true, false, List, [], ◌∷◌,
  Option, none, some, length, length-set, get_elem?, get_elem?-some, get_elem?-lt, set, replicate,
  arith,
}
use pqc_chat.Result.{Result, ok, err, no_prekeys_available}
use pqc_chat.Prekey.{Bundle, LastResort}
use pqc_chat.Relay.{UserPrekeys, remaining, find_free, take_bundle, fall_back, issue, fetch_entry}
use pqc_chat.Relay.Prekeys.{IsWell, find_free-Found}

-- Taking a free bundle lowers the number that is left by one.
pub remaining-set :
    (cs : List Bool) (i : ℕ)
    → get_elem? cs i ≡ some false
    → remaining (set cs i true) + 1 ≡ remaining cs
unfolding remaining
remaining-set [] i e = ground arith
remaining-set (c ∷ cs) zero e = ground arith
remaining-set (true ∷ cs) (suc i) e = remaining-set cs i e
remaining-set (false ∷ cs) (suc i) e = omega (arith, remaining-set cs i e)

remaining-used :
    (cs : List Bool) → ((j : ℕ) → j < length cs → get_elem? cs j ≡ some true) → remaining cs ≡ 0
unfolding remaining
remaining-used [] all = refl
remaining-used (false ∷ cs) all =
    let first : some false ≡ some true = all 0 (omega arith) in absurd (ground arith)
remaining-used (true ∷ cs) all = remaining-used cs (λ j h. all (suc j) (omega arith))

pub remaining-fresh : (n : ℕ) → remaining (replicate n false) ≡ n
unfolding remaining
remaining-fresh zero = refl
remaining-fresh (suc n) = omega (arith, remaining-fresh n)

pub take_bundle-IsWell : (up : UserPrekeys) (idx : ℕ) → IsWell up → IsWell (take_bundle up idx)
unfolding take_bundle
take_bundle-IsWell up idx w = record { marked = length-set up.consumed idx true ∙ w.marked }

-- A bundle was taken: one that was free, and it is marked in the new entry.
pub record Takes (up up' : UserPrekeys) (b : Bundle) : Type 0 where
  pub idx : ℕ
  pub free : get_elem? up.consumed idx ≡ some false
  pub there : get_elem? up.bundles idx ≡ some b
  pub entry : up' ≡ take_bundle up idx
  pub fewer : remaining up'.consumed + 1 ≡ remaining up.consumed

-- The outcomes of a call: a bundle is taken; or none is free and the last-resort key is signalled, its
-- use counted and all else kept; or none is free and there is no such key.
abbrev pub Outcome : UserPrekeys → Result (UserPrekeys × Option Bundle × Bool) → Type 0
Outcome up r =
    ((up' : UserPrekeys) × (b : Bundle) × (r ≡ ok (up', some b, false)) × Takes up up' b)
    ⊎ ((remaining up.consumed ≡ 0)
        × (((lr : LastResort) × (up.last_resort ≡ some lr)
              × (r ≡ ok (record up { last_resort_use = up.last_resort_use + 1 }, none, true)))
            ⊎ ((up.last_resort ≡ none) × (r ≡ err no_prekeys_available))))

issue-none :
    (up : UserPrekeys) (lr : Option LastResort)
    → up.last_resort ≡ lr
    → ((lr' : LastResort) × (up.last_resort ≡ some lr')
        × (issue up none ≡ ok (record up { last_resort_use = up.last_resort_use + 1 }, none, true)))
      ⊎ ((up.last_resort ≡ none) × (issue up none ≡ err no_prekeys_available))
unfolding issue
issue-none up (some lr) e = inl (lr, e, ap (fall_back up) e)
issue-none up none e = inr (e, ap (fall_back up) e)

-- For an entry with one mark for each bundle, `FetchPrekeyBundle` takes a bundle that was not consumed
-- and lowers the count by one as long as one is left, and answers by the last-resort key or by its
-- error exactly when none is.
pub fetch_entry-Outcome : (up : UserPrekeys) → IsWell up → Outcome up (fetch_entry (some up))
unfolding fetch_entry
fetch_entry-Outcome up w = elim (find_free-Found up w) [
  | inl (idx, e, free) ↦
      let (b, there) =
        get_elem?-some up.bundles idx
          (omega (arith, get_elem?-lt up.consumed idx free, w.marked)) in
      inl (taken idx b e free there)
  | inr (e, all) ↦ inr (
    remaining-used up.consumed (λ j h. all j (omega (arith, w.marked))),
    rw e (issue-none up up.last_resort refl),
  )
]
  where
    taken :
        (idx : ℕ) (b : Bundle)
        → find_free up (length up.bundles) 0 ≡ ok (some idx)
        → get_elem? up.consumed idx ≡ some false
        → get_elem? up.bundles idx ≡ some b
        → (up' : UserPrekeys) × (b : Bundle) × (fetch_entry (some up) ≡ ok (up', some b, false))
          × Takes up up' b
    taken idx b e free there = (
      take_bundle up idx,
      b,
      rw e (unfold issue in rw there),
      record {
        idx = idx;
        free = free;
        there = there;
        entry = refl;
        fewer = unfold take_bundle in remaining-set up.consumed idx free;
      },
    )
