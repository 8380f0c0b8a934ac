-- ===== src/Pseudo/Switches.antt =====
-- The position and the limit switches of the simulated axis, and the pins that show them.
use mpmt_test_stand.Prelude.{
  ℕ, ◌<◌, ◌≤◌, ◌≡◌, Bool, true, false, List, [], ◌∷◌, arith, ◌==◌, ltb, if◌then◌else◌, ==_refl,
  Bool-cases, inl, inr, sub32,
}
use mpmt_test_stand.Gantry.Hardware.{HwCall, digital_write}
use mpmt_test_stand.Pseudo.{
  is_pressed, PseudoAxis, PulseInput, setup_pseudo_axis, toggle_encoder_output, count_up,
  count_down, after_toggle, motor_pulse, isr_motor_pulse_at,
}

-- The level last written to a pin is LOW.
unfoldable pub is_low : ℕ → List HwCall → Bool
is_low pin [] = false
is_low pin (digital_write p level ∷ calls) = if pin == p then level == 0 else is_low pin calls
is_low pin (_ ∷ calls) = is_low pin calls

-- Three outputs of an axis on three pins.
abbrev pub PinsApart : PseudoAxis → Type 0
PinsApart a =
    (a.ls_home.output_pin == a.ls_far.output_pin ≡ false)
    × (a.ls_home.output_pin == a.encoder.channel_a_pin ≡ false)
    × (a.ls_far.output_pin == a.encoder.channel_a_pin ≡ false)
    × (a.ls_far.output_pin == a.ls_home.output_pin ≡ false)

-- The axis behaves as one of a gantry.
pub record IsGantry (a : PseudoAxis) : Type 0 where
  pub apart : PinsApart a
  pub long : 0 < a.axis_length_counts
  pub fits : a.axis_length_counts < 4294967296
  pub on_axis : a.motor_position_current ≤ a.axis_length_counts
  pub at_home : is_pressed a.ls_home.status ≡ true → a.motor_position_current ≡ 0
  pub at_far : is_pressed a.ls_far.status ≡ true → a.motor_position_current ≡ a.axis_length_counts
  pub home_shown : is_low a.ls_home.output_pin a.calls ≡ is_pressed a.ls_home.status
  pub far_shown : is_low a.ls_far.output_pin a.calls ≡ is_pressed a.ls_far.status

toggle_encoder_output-IsGantry :
    (level : ℕ) (a : PseudoAxis) → IsGantry a → IsGantry (toggle_encoder_output level a).1
unfolding toggle_encoder_output is_low
toggle_encoder_output-IsGantry level a h = ground arith

count_up-IsGantry : (a : PseudoAxis) → IsGantry a → IsGantry (count_up a)
unfolding count_up is_low
count_up-IsGantry a h = ground (arith, ==_refl a.ls_home.output_pin, ==_refl a.ls_far.output_pin)

count_down-IsGantry : (a : PseudoAxis) → IsGantry a → IsGantry (count_down a)
unfolding count_down is_low
count_down-IsGantry a h = ground (arith, ==_refl a.ls_home.output_pin, ==_refl a.ls_far.output_pin)

after_toggle-IsGantry :
    (counted direction : Bool) (a : PseudoAxis)
    → IsGantry a
    → IsGantry (after_toggle counted direction a)
unfolding after_toggle
after_toggle-IsGantry false direction a h = h
after_toggle-IsGantry true true a h = count_up-IsGantry a h
after_toggle-IsGantry true false a h = count_down-IsGantry a h

motor_pulse-IsGantry :
    (level : ℕ) (direction : Bool) (a : PseudoAxis)
    → IsGantry a
    → IsGantry (motor_pulse level direction a)
unfolding motor_pulse
motor_pulse-IsGantry level direction a h =
    after_toggle-IsGantry (toggle_encoder_output level a).0 direction
      (toggle_encoder_output level a).1 (toggle_encoder_output-IsGantry level a h)

-- A change of the pulse pin: when it comes, and the levels that the handler reads.
pub record Change : Type 0 where
  pub time : ℕ
  pub level : ℕ
  pub direction : Bool

unfoldable pub changes : List Change → PulseInput → PulseInput
unfolding isr_motor_pulse_at
changes [] p = p
changes (c ∷ cs) p = changes cs (isr_motor_pulse_at c.time c.level c.direction p)

isr_motor_pulse_at-IsGantry :
    (time level : ℕ) (direction : Bool) (p : PulseInput)
    → IsGantry p.axis
    → IsGantry (isr_motor_pulse_at time level direction p).axis
unfolding isr_motor_pulse_at
isr_motor_pulse_at-IsGantry time level direction p h =
    elim (Bool-cases (ltb 100 (sub32 time p.last_interrupt_time))) [
      | inl apart ↦ rw apart (motor_pulse-IsGantry level direction p.axis h)
      | inr bounce ↦ rw bounce h
    ]

changes-IsGantry :
    (cs : List Change) (p : PulseInput) → IsGantry p.axis → IsGantry (changes cs p).axis
unfolding changes
changes-IsGantry [] p h = h
changes-IsGantry (c ∷ cs) p h =
    changes-IsGantry cs (isr_motor_pulse_at c.time c.level c.direction p)
      (isr_motor_pulse_at-IsGantry c.time c.level c.direction p h)

setup_pseudo_axis-IsGantry :
    (pulse_pin encoder_pin dir_pin home_pin far_pin : ℕ)
    → PinsApart (setup_pseudo_axis pulse_pin encoder_pin dir_pin home_pin far_pin)
    → IsGantry (setup_pseudo_axis pulse_pin encoder_pin dir_pin home_pin far_pin)
unfolding setup_pseudo_axis is_low
setup_pseudo_axis-IsGantry pulse_pin encoder_pin dir_pin home_pin far_pin h = ground arith

-- Let the outputs of a simulated axis be on different pins. After `setup`, and after any changes
-- of its pulse pin at any times and with any levels: the position is on the axis, at 0 while the
-- home switch is pressed and at the length of the axis while the far switch is, and each switch is
-- pressed exactly if its pin was last written LOW.
pub changes_after_setup :
    (pulse_pin encoder_pin dir_pin home_pin far_pin last : ℕ) (cs : List Change)
    → let a = setup_pseudo_axis pulse_pin encoder_pin dir_pin home_pin far_pin in
      PinsApart a → IsGantry (changes cs (record { axis = a; last_interrupt_time = last })).axis
changes_after_setup pulse_pin encoder_pin dir_pin home_pin far_pin last cs h =
    changes-IsGantry cs
      (record {
        axis = setup_pseudo_axis pulse_pin encoder_pin dir_pin home_pin far_pin;
        last_interrupt_time = last;
      })
      (setup_pseudo_axis-IsGantry pulse_pin encoder_pin dir_pin home_pin far_pin h)
