-- ===== src/Relay/Prekeys.antt =====
-- `FetchPrekeyBundle` on the entry of one user: which bundle it takes, and when there is none.
use mathlib.Core.Path.{subst₂}
use native.Mathlib.Nat.{mod-lt, mod-eq_of_lt, mul-add-mod_self_left, div-add-mod}
use pqc_chat.Common.{
  ℕ, zero, suc, ◌+◌, ◌-◌, ◌*◌, ◌/◌, ◌%◌, ◌<◌, ◌≡◌, refl, ap, ◌∙◌, subst, ◌⊎◌, inl, inr, Bool, true,
  false, Option, none, some, length, get_elem?, get_elem?-some, arith, dec_le, dec_lt,
}
use pqc_chat.Result.{Result, ok}
use pqc_chat.Relay.{UserPrekeys, find_free}

-- One mark for each bundle.
pub record IsWell (up : UserPrekeys) : Type 0 where
  pub marked : length up.consumed ≡ length up.bundles

-- What a search for a free bundle may answer.
abbrev pub Search : UserPrekeys → ℕ → ℕ → Result (Option ℕ) → Type 0
Search up rounds i r =
    ((idx : ℕ) × (r ≡ ok (some idx)) × (get_elem? up.consumed idx ≡ some false))
    ⊎ ((r ≡ ok none)
        × ((k : ℕ)
            → k < rounds
            → get_elem? up.consumed ((up.next_cursor + (i + k)) % length up.bundles) ≡ some true))

-- One round of the search.
Search-round :
    (up : UserPrekeys) (rounds i : ℕ) (used : Bool)
    → get_elem? up.consumed ((up.next_cursor + i) % length up.bundles) ≡ some used
    → Search up rounds (i + 1) (find_free up rounds (i + 1))
    → Search up (suc rounds) i (find_free up (suc rounds) i)
unfolding find_free
Search-round up rounds i false at later = inl (_, rw at, at)
Search-round up rounds i true at (inl (j, e, free)) = inl (j, rw at e, free)
Search-round up rounds i true at (inr (e, all)) = inr (rw at e, every)
  where
    every :
        (k : ℕ)
        → k < suc rounds
        → get_elem? up.consumed ((up.next_cursor + (i + k)) % length up.bundles) ≡ some true
    every zero h =
        let here : i ≡ i + 0 = omega arith in
        subst (λ j. get_elem? up.consumed ((up.next_cursor + j) % length up.bundles) ≡ some true)
          here at
    every (suc k) h =
        let next : i + 1 + k ≡ i + suc k = omega arith in
        subst (λ j. get_elem? up.consumed ((up.next_cursor + j) % length up.bundles) ≡ some true)
          next (all k (omega arith))

find_free-Search :
    (up : UserPrekeys) (rounds i : ℕ)
    → IsWell up
    → 0 < length up.bundles
    → Search up rounds i (find_free up rounds i)
unfolding find_free
find_free-Search up zero i w filled = inr (refl, λ k h. absurd (omega arith))
find_free-Search up (suc rounds) i w filled =
    let below : (up.next_cursor + i) % length up.bundles < length up.bundles = mod-lt _ filled in
    let (used, at) = get_elem?-some up.consumed _ (omega (arith, w.marked)) in
    Search-round up rounds i used at (find_free-Search up rounds (i + 1) w filled)

-- A round of the loop for each index.
reaches : (cursor len j : ℕ) → j < len → (k : ℕ) × (k < len) × ((cursor + k) % len ≡ j)
reaches cursor len j h = elim (dec_le (cursor % len) j) [
  | yes p ↦ (
    j - cursor % len,
    omega arith,
    by_rest (cursor / len) (j - cursor % len) (omega (arith, div-add-mod cursor len)),
  )
  | no p ↦ (
    j + len - cursor % len,
    omega (arith, mod-lt cursor {m = len} (omega arith)),
    by_rest (cursor / len + 1) (j + len - cursor % len)
        (grind (arith, div-add-mod cursor len, mod-lt cursor {m = len} (omega arith))),
  )
]
  where
    by_rest : (q k : ℕ) → cursor + k ≡ len * q + j → (cursor + k) % len ≡ j
    by_rest q k e = rw e (mul-add-mod_self_left len q j ∙ mod-eq_of_lt h)

abbrev pub AllUsed : UserPrekeys → Type 0
AllUsed up = (j : ℕ) → j < length up.bundles → get_elem? up.consumed j ≡ some true

abbrev pub Found : UserPrekeys → Result (Option ℕ) → Type 0
Found up r =
    ((idx : ℕ) × (r ≡ ok (some idx)) × (get_elem? up.consumed idx ≡ some false))
    ⊎ ((r ≡ ok none) × AllUsed up)

-- The whole search: it returns an index that is not consumed, or every one is.
pub find_free-Found : (up : UserPrekeys) → IsWell up → Found up (find_free up (length up.bundles) 0)
find_free-Found up w = elim (dec_lt 0 (length up.bundles)) [
  | no empty ↦ inr (nothing (omega arith), λ j h. absurd (omega arith))
  | yes filled ↦ elim (find_free-Search up (length up.bundles) 0 w filled) [
    | inl found ↦ inl found
    | inr (e, all) ↦ inr (e, λ j h. cover all j (reaches up.next_cursor (length up.bundles) j h))
  ]
]
  where
    nothing : length up.bundles ≡ 0 → find_free up (length up.bundles) 0 ≡ ok none
    nothing e = rw e (unfold find_free in refl)

    cover :
        ((k : ℕ)
          → k < length up.bundles
          → get_elem? up.consumed ((up.next_cursor + (0 + k)) % length up.bundles) ≡ some true)
        → (j : ℕ)
        → ((k : ℕ) × (k < length up.bundles) × ((up.next_cursor + k) % length up.bundles ≡ j))
        → get_elem? up.consumed j ≡ some true
    cover all j (k, h, e) =
        let shift : 0 + k ≡ k = omega arith in
        subst₂ (λ m n. get_elem? up.consumed n ≡ some true) shift
          (ap (λ m. (up.next_cursor + m) % length up.bundles) shift ∙ e) (all k h)
