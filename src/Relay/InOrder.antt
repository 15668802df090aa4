-- ===== src/Relay/InOrder.antt =====
-- The bundles of one user are issued in the order in which they were published.
use native.Mathlib.Nat.{mod-eq_of_lt}
use pqc_chat.Common.{
  ℕ, zero, suc, ◌+◌, ◌%◌, ◌≤◌, ◌<◌, ◌≡◌, refl, sym, ap, ◌∙◌, subst, ◌⊎◌, inl, inr, Bool, true,
  false, List, [], ◌∷◌, Option, none, some, length, get_elem?, get_elem?-lt, get_elem?-set_self,
  get_elem?-set_ne, replicate, length-replicate, set, drop, drop-cons, drop-nil, arith, ℕ_discrete,
}
use pqc_chat.Result.{Result, ok, err, no_prekeys_available}
use pqc_chat.Prekey.{Bundle, LastResort}
use pqc_chat.Relay.{UserPrekeys, remaining, find_free, take_bundle, fall_back, issue, fetch_entry}
use pqc_chat.Relay.Prekeys.{IsWell, find_free-Found}
use pqc_chat.Relay.Pool.{remaining-set, remaining-fresh, take_bundle-IsWell}

-- What a user of the relay may rely on: the bundles that are left, in order, the size of the batch,
-- the last-resort prekey, and how often it was used.
pub record Pool : Type 0 where
  pub left : List Bundle
  pub size : ℕ
  pub last_resort : Option LastResort
  pub uses : ℕ

abbrev pub published : List Bundle → Option LastResort → Pool
published bundles lr = record { left = bundles; size = length bundles; last_resort = lr; uses = 0 }

abbrev pub draw_last : Pool → Option LastResort → Pool × Result (Option Bundle × Bool)
draw_last p none = (p, err no_prekeys_available)
draw_last p (some _) = (record p { uses = p.uses + 1 }, ok (none, true))

abbrev pub draw_from : Pool → List Bundle → Pool × Result (Option Bundle × Bool)
draw_from p [] = draw_last p p.last_resort
draw_from p (b ∷ bs) = (record p { left = bs }, ok (some b, false))

-- A fetch takes the first bundle that is left, and where none is, the last-resort prekey.
abbrev pub draw : Pool → Pool × Result (Option Bundle × Bool)
draw p = draw_from p p.left

-- The entry of the code for such a pool: `issued` bundles are gone, from the front.
pub record InOrder (up : UserPrekeys) (p : Pool) : Type 0 where
  pub issued : ℕ
  pub well : IsWell up
  pub within : issued ≤ length up.bundles
  pub cursor : issued < length up.bundles → up.next_cursor ≡ issued
  pub gone : (j : ℕ) → j < issued → get_elem? up.consumed j ≡ some true
  pub free : (j : ℕ) → issued ≤ j → j < length up.bundles → get_elem? up.consumed j ≡ some false
  pub left : p.left ≡ drop issued up.bundles
  pub count : remaining up.consumed ≡ length p.left
  pub size : p.size ≡ length up.bundles
  pub last_resort : up.last_resort ≡ p.last_resort
  pub uses : up.last_resort_use ≡ p.uses

-- The search looks first where the cursor is.
find_free-first :
    (up : UserPrekeys) (rounds i : ℕ)
    → 0 < rounds
    → (up.next_cursor + 0) % length up.bundles ≡ i
    → get_elem? up.consumed i ≡ some false
    → find_free up rounds 0 ≡ ok (some i)
unfolding find_free
find_free-first up zero i h at free = absurd (omega arith)
find_free-first up (suc rounds) i h at free = rw at (rw free refl)

replicate-at : {A : Type 0} (n j : ℕ) (a : A) → j < n → get_elem? (replicate n a) j ≡ some a
replicate-at zero j a h = absurd (omega arith)
replicate-at (suc n) zero a h = refl
replicate-at (suc n) (suc j) a h = replicate-at n j a (omega arith)

-- The entry that `PublishPrekeys` writes.
pub published-InOrder :
    (bundles : List Bundle) (lr : Option LastResort)
    → InOrder
        (record {
          bundles = bundles;
          consumed = replicate (length bundles) false;
          next_cursor = 0;
          last_resort = lr;
          last_resort_use = 0;
        })
        (published bundles lr)
published-InOrder bundles lr = record {
  issued = 0;
  well = record { marked = length-replicate (length bundles) false };
  within = omega arith;
  cursor = λ h. refl;
  gone = λ j h. absurd (omega arith);
  free = λ j _ h. replicate-at (length bundles) j false h;
  left = refl;
  count = remaining-fresh (length bundles);
  size = refl;
  last_resort = refl;
  uses = refl;
}

-- What a fetch makes of an entry that stands for a pool.
abbrev pub Drawn :
    Pool
    → Result (UserPrekeys × Option Bundle × Bool)
    → Pool × Result (Option Bundle × Bool)
    → Type 0
Drawn p r (p', answer) =
    ((up' : UserPrekeys) × (b : Option Bundle) × (last : Bool) × (r ≡ ok (up', b, last))
      × (answer ≡ ok (b, last))
      × InOrder up' p')
    ⊎ ((r ≡ err no_prekeys_available) × (answer ≡ err no_prekeys_available) × (p' ≡ p))

take-InOrder :
    (up : UserPrekeys) (p : Pool) (b : Bundle) (bs : List Bundle)
    → (o : InOrder up p) → p.left ≡ b ∷ bs
    → o.issued < length up.bundles
    → bs ≡ drop (suc o.issued) up.bundles
    → InOrder (take_bundle up o.issued) (record p { left = bs })
unfolding take_bundle
take-InOrder up p b bs o first small rest =
    let here = o.free o.issued (omega arith) small in
    record {
      issued = suc o.issued;
      well = unfold take_bundle in take_bundle-IsWell up o.issued o.well;
      within = omega (arith, small);
      cursor = λ h. mod-eq_of_lt (omega (arith, h)) ∙ omega arith;
      gone = λ j h. elim (ℕ_discrete o.issued j) [
        | yes same ↦
            subst (λ k. get_elem? (set up.consumed o.issued true) k ≡ some true) same
              (get_elem?-set_self up.consumed o.issued true
                (get_elem?-lt up.consumed o.issued here))
        | no other ↦
            get_elem?-set_ne up.consumed o.issued j true other ∙ o.gone j (omega (arith, h, other))
      ];
      free = λ j far h.
          get_elem?-set_ne up.consumed o.issued j true (λ e. absurd (omega (arith, e, far)))
          ∙ o.free j (omega (arith, far)) h;
      left = rest;
      count = omega (arith, remaining-set up.consumed o.issued here, o.count, ap length first);
      size = o.size;
      last_resort = o.last_resort;
      uses = o.uses;
    }

-- A free bundle is left.
draws_bundle :
    (up : UserPrekeys) (p : Pool) (b : Bundle) (bs : List Bundle)
    → InOrder up p
    → p.left ≡ b ∷ bs
    → Drawn p (fetch_entry (some up)) (draw_from p (b ∷ bs))
unfolding fetch_entry issue
draws_bundle up p b bs o first =
    let (there, rest, small) = drop-cons o.issued up.bundles b bs (sym first ∙ o.left) in
    let at : (up.next_cursor + 0) % length up.bundles ≡ o.issued =
      ap (λ k. (k + 0) % length up.bundles) (o.cursor small)
      ∙ mod-eq_of_lt (omega (arith, small))
      ∙ omega arith in
    let found =
      find_free-first up (length up.bundles) o.issued (omega (arith, small)) at
        (o.free o.issued (omega arith) small) in
    inl (
      take_bundle up o.issued,
      some b,
      false,
      rw found (rw there refl),
      refl,
      take-InOrder up p b bs o first small rest,
    )

-- None is left.
nothing_free :
    (up : UserPrekeys) (p : Pool)
    → InOrder up p
    → p.left ≡ []
    → find_free up (length up.bundles) 0 ≡ ok none
nothing_free up p o empty = elim (find_free-Found up o.well) [
  | inr (e, _) ↦ e
  | inl (i, _, free) ↦
      let all = drop-nil o.issued up.bundles (sym empty ∙ o.left) in
      let range = get_elem?-lt up.consumed i free in
      let used = o.gone i (omega (arith, all, range, o.well.marked)) in
      let clash : some false ≡ some true = sym free ∙ used in absurd (ground arith)
]

use_last :
    (up : UserPrekeys) (p : Pool)
    → InOrder up p
    → InOrder
        (record up { last_resort_use = up.last_resort_use + 1 })
        (record p { uses = p.uses + 1 })
use_last up p o = record {
  issued = o.issued;
  well = record { marked = o.well.marked };
  within = o.within;
  cursor = o.cursor;
  gone = o.gone;
  free = o.free;
  left = o.left;
  count = o.count;
  size = o.size;
  last_resort = o.last_resort;
  uses = ap (λ n. n + 1) o.uses;
}

draws_last :
    (up : UserPrekeys) (p : Pool) (lr : Option LastResort)
    → InOrder up p
    → up.last_resort ≡ lr
    → find_free up (length up.bundles) 0 ≡ ok none
    → Drawn p (fetch_entry (some up)) (draw_last p lr)
unfolding fetch_entry issue
draws_last up p (some lr) o known none_free = inl (
  record up { last_resort_use = up.last_resort_use + 1 },
  none,
  true,
  rw none_free (ap (fall_back up) known),
  refl,
  use_last up p o,
)
draws_last up p none o known none_free = inr (rw none_free (ap (fall_back up) known), refl, refl)

-- Every fetch from an entry in order does what the pool promises, and leaves an entry in order.
pub fetch_entry-Drawn :
    (up : UserPrekeys) (p : Pool) → InOrder up p → Drawn p (fetch_entry (some up)) (draw p)
fetch_entry-Drawn up p o = by_left p.left refl
  where
    by_left : (l : List Bundle) → p.left ≡ l → Drawn p (fetch_entry (some up)) (draw_from p l)
    by_left (b ∷ bs) e = draws_bundle up p b bs o e
    by_left [] e = draws_last up p p.last_resort o o.last_resort (nothing_free up p o e)
