-- ===== src/Ratchet/Action.antt =====
-- The form of the methods of crypto/ratchet's `State`. A method is an `Action`: it may change the state
-- before it returns an error, and the change stays.
use pqc_chat.Common.{◌≡◌, refl}
use pqc_chat.Result.{Result, ok, err, panic, diverges}
use pqc_chat.Crypto.{Crypto}
use pqc_chat.Ratchet.State.{State}

module _ (c : Crypto) where
  abbrev pub Action : Type 0 → Type 0
  Action A = State c → State c × Result A

  -- What follows a call, on the state that the call left.
  abbrev pub continue : {A B : Type 0} → State c × Result A → (A → Action B) → State c × Result B
  continue (s, ok a) f = f a s
  continue (s, err e) f = (s, err e)
  continue (s, panic) f = (s, panic)
  continue (s, diverges) f = (s, diverges)

  abbrev pub current : Action (State c)
  current s = (s, ok s)

  abbrev pub update : (State c → State c) → Action (Unit {0})
  update f s = (f s, ok tt)

  abbrev pub lift : {A : Type 0} → Result A → Action A
  lift r s = (s, r)

  -- A step that succeeded is followed by one that did.
  pub continue_cases :
      {A B P : Type 0} (m : State c × Result A) (f : A → Action B) {s' : State c} {b : B}
      → continue m f ≡ (s', ok b)
      → ((s : State c) (a : A) → m ≡ (s, ok a) → f a s ≡ (s', ok b) → P)
      → P
  continue_cases (s, ok a) f e go = go s a refl e
  continue_cases (s, err x) f e go = absurd (cc)
  continue_cases (s, panic) f e go = absurd (cc)
  continue_cases (s, diverges) f e go = absurd (cc)

  pub lift_cases :
      {A B P : Type 0} (s : State c) (r : Result A) (f : A → Action B) {s' : State c} {b : B}
      → continue (s, r) f ≡ (s', ok b)
      → ((a : A) → r ≡ ok a → f a s ≡ (s', ok b) → P)
      → P
  lift_cases s (ok a) f e go = go a refl e
  lift_cases s (err x) f e go = absurd (cc)
  lift_cases s panic f e go = absurd (cc)
  lift_cases s diverges f e go = absurd (cc)

infixl 5 ◌>>=◌ ◌>>◌
abbrev pub ◌>>=◌ : {c : Crypto} {A B : Type 0} → Action c A → (A → Action c B) → Action c B
◌>>=◌ {c = c} m f s = continue c (m s) f

abbrev pub ◌>>◌ : {c : Crypto} {B : Type 0} → Action c (Unit {0}) → Action c B → Action c B
◌>>◌ {c = c} m k s = continue c (m s) (λ _. k)
