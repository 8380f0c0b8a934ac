-- ===== src/Serial/Exec.antt =====
-- The object that the layers work on, and actions on it. A TestStandComm holds the device, the
-- transport's receiver, the message being received (with its 255-byte array) and the send buffer;
-- session and transport only refer to these. An action is `none` where the fuel of a loop ran out.
pub mod Keeps
use mpmt_test_stand.Prelude.{ℕ, ◌≡◌, refl, ap, Bool, Option, none, some, List}
use mpmt_test_stand.Serial.{Message, SerialTransport}

pub record TestStandComm (D : Type 0) : Type 0 where
  pub device : D
  pub transport : SerialTransport
  pub received_msg : Message
  pub send_buf : List ℕ

abbrev pub Exec : Type 0 → Type 0 → Type 0
Exec S A = S → Option (A × S)

module _ {S A : Type 0} where
  abbrev pub out_of_fuel : Exec S A
  out_of_fuel s = none

  abbrev pub pure : A → Exec S A
  pure a s = some (a, s)

  abbrev pub gets : (S → A) → Exec S A
  gets f s = some (f s, s)

module _ {S A B : Type 0} where
  infixl 5 ◌>>=◌
  abbrev pub ◌>>=◌ : Exec S A → (A → Exec S B) → Exec S B
  ◌>>=◌ m f s = elim (m s) [ none ↦ none | some (a, s') ↦ f a s' ]

module _ {S A B : Type 0} where
  pub bind-some :
      (m : Exec S A) (f : A → Exec S B) {s s' : S} {a : A}
      → m s ≡ some (a, s')
      → (m >>= f) s ≡ f a s'
  bind-some m f e =
      ap (λ o. elim o as (λ _. Option (B × S)) [ none ↦ none | some (a, s') ↦ f a s' ]) e

  bind_cases :
      (r : Option (A × S)) (f : A → Exec S B) (out : B × S)
      → elim r as (λ _. Option (B × S)) [ none ↦ none | some (a, s') ↦ f a s' ] ≡ some out
      → (a : A) × (s' : S) × (r ≡ some (a, s')) × (f a s' ≡ some out)
  bind_cases none f out e = cc
  bind_cases (some (a, s')) f out e = (a, s', refl, e)

  -- What a run of a sequence consists of.
  pub bind-inv :
      (m : Exec S A) (f : A → Exec S B) (s : S) (out : B × S)
      → (m >>= f) s ≡ some out
      → (a : A) × (s' : S) × (m s ≡ some (a, s')) × (f a s' ≡ some out)
  bind-inv m f s out e = bind_cases (m s) f out e

module _ {S B : Type 0} where
  infixl 5 ◌>>◌
  abbrev pub ◌>>◌ : Exec S (Unit {0}) → Exec S B → Exec S B
  m >> k = m >>= λ _. k

abbrev pub modify : {S : Type 0} → (S → S) → Exec S (Unit {0})
modify f s = some (tt, f s)

-- A call on the device.
abbrev pub on_device : {D A : Type 0} → (D → A × D) → Exec (TestStandComm D) A
on_device f c = let (a, d) = f c.device in some (a, record c { device = d })
