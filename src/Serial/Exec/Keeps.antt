-- ===== src/Serial/Exec/Keeps.antt =====
-- Invariants of actions: one rule for each way to build an action.
use mpmt_test_stand.Prelude.{◌≡◌, Bool, true, false, Option, none, some, if◌then◌else◌}
use mpmt_test_stand.Serial.Exec.{Exec, out_of_fuel, pure, gets, ◌>>=◌, modify}

-- What holds of the state that an action leaves, if it leaves one.
abbrev pub After : {S A : Type 0} → (S → Type 0) → Option (A × S) → Type 0
After P none = Unit {0}
After P (some (a, s)) = P s

pub record Keeps {S A : Type 0} (P : S → Type 0) (m : Exec S A) : Type 0 where
  pub at : (s : S) → P s → After P (m s)

module _ {S A : Type 0} {P : S → Type 0} where
  pub Keeps-out_of_fuel : Keeps P (out_of_fuel {S = S} {A = A})
  Keeps-out_of_fuel = record { at = λ s h. tt }

  pub Keeps-pure : (a : A) → Keeps P (pure a)
  Keeps-pure a = record { at = λ s h. h }

  pub Keeps-gets : (f : S → A) → Keeps P (gets f)
  Keeps-gets f = record { at = λ s h. h }

  pub Keeps-if : (t : Bool) (m n : Exec S A) → Keeps P m → Keeps P n → Keeps P (if t then m else n)
  Keeps-if true m n km kn = km
  Keeps-if false m n km kn = kn

pub Keeps-modify :
    {S : Type 0} {P : S → Type 0} (f : S → S) → ((s : S) → P s → P (f s)) → Keeps P (modify f)
Keeps-modify f h = record { at = h }

module _ {S A B : Type 0} {P : S → Type 0} (f : A → Exec S B) (kf : (a : A) → Keeps P (f a)) where
  After-bind :
      (r : Option (A × S)) → After P r → After P (elim r [ none ↦ none | some (a, s') ↦ f a s' ])
  After-bind none h = tt
  After-bind (some (a, s)) h = (kf a).at s h

  pub Keeps-bind : (m : Exec S A) → Keeps P m → Keeps P (m >>= f)
  Keeps-bind m km = record { at = λ s h. After-bind (m s) (km.at s h) }

-- The conclusion for a run that returns.
pub Keeps-run :
    {S A : Type 0} {P : S → Type 0} (m : Exec S A) (s s' : S) (a : A)
    → Keeps P m
    → P s
    → m s ≡ some (a, s')
    → P s'
Keeps-run {P = P} m s s' a k h e = rw e at (k.at s h)
