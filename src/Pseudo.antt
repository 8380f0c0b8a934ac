-- ===== src/Pseudo.antt =====
-- PseudoGantry: a board that stands in for the gantry. It takes the step pulses of the firmware and
-- answers as the encoder and the limit switches of an axis would. What a handler reads from its pins
-- and from the clock is an argument; `calls` is the log of the calls made, newest first.
pub mod Switches
pub mod Ratio
use mpmt_test_stand.Prelude.{
  ℕ, ◌+◌, ◌*◌, ◌-◌, Bool, true, false, List, [], ◌∷◌, ◌==◌, ltb, leb, not, ◌&&◌, ◌||◌,
  if◌then◌else◌, add32, sub32,
}
use mpmt_test_stand.Gantry.Hardware.{
  HwCall, pin_mode, digital_write, attach_interrupt, input_pullup, output, change, isr_motor_pulse,
}

pub record PseudoEncoder : Type 0 where
  pub motor_pulse_pin : ℕ
  pub channel_a_pin : ℕ

pub data LimitSwitchStatus : Type 0 where
  pressed unpressed : LimitSwitchStatus

-- LOW and HIGH
abbrev pub status_level : LimitSwitchStatus → ℕ
status_level pressed = 0
status_level unpressed = 1

abbrev pub is_pressed : LimitSwitchStatus → Bool
is_pressed pressed = true
is_pressed unpressed = false

pub record PseudoLimitSwitch : Type 0 where
  pub output_pin : ℕ
  pub status : LimitSwitchStatus

pub record PseudoAxis : Type 0 where
  pub encoder : PseudoEncoder
  pub axis_length_counts : ℕ
  pub motor_position_current : ℕ
  pub motor_position_default : ℕ
  pub motor_dir_pin : ℕ
  pub change_counter : ℕ
  pub steps_for_ratio : ℕ
  pub counts_for_ratio : ℕ
  pub changes_to_skip : ℕ
  pub ls_home : PseudoLimitSwitch
  pub ls_far : PseudoLimitSwitch
  pub calls : List HwCall

-- set_up_encoder, on the log
unfoldable pub set_up_encoder : PseudoEncoder → List HwCall → List HwCall
set_up_encoder encoder calls =
    attach_interrupt encoder.motor_pulse_pin isr_motor_pulse change
    ∷ digital_write encoder.channel_a_pin 0
    ∷ pin_mode encoder.channel_a_pin output
    ∷ pin_mode encoder.motor_pulse_pin input_pullup
    ∷ calls

-- change_counter after its increment
abbrev pub next_change : PseudoAxis → ℕ
next_change axis =
    if axis.changes_to_skip == 0 then axis.change_counter else axis.change_counter + 1

-- toggle_encoder_output, on the level of the pulse pin
unfoldable pub toggle_encoder_output : ℕ → PseudoAxis → Bool × PseudoAxis
toggle_encoder_output level axis =
    let counter = next_change axis in
    let counted = record axis { change_counter = counter } in
    if leb counter axis.changes_to_skip && not (axis.changes_to_skip == 0)
    then (false, counted)
    else if leb counter (2 * axis.steps_for_ratio) || axis.changes_to_skip == 0
    then (
      level == 1,
      record counted { calls = digital_write axis.encoder.channel_a_pin level ∷ axis.calls },
    )
    else (false, record axis { change_counter = 1 })

-- A switch that changes, with its output; `position` is the position that this sets.
abbrev press_far : PseudoAxis → PseudoAxis
press_far axis = record axis {
  ls_far = record axis.ls_far { status = pressed };
  calls = digital_write axis.ls_far.output_pin 0 ∷ axis.calls;
}

abbrev press_home : PseudoAxis → PseudoAxis
press_home axis = record axis {
  ls_home = record axis.ls_home { status = pressed };
  calls = digital_write axis.ls_home.output_pin 0 ∷ axis.calls;
}

-- The two directions of isr_motor_pulse.
unfoldable pub count_up : PseudoAxis → PseudoAxis
count_up axis =
    if ltb axis.motor_position_current axis.axis_length_counts
    then (if is_pressed axis.ls_home.status
        then record axis {
          ls_home = record axis.ls_home { status = unpressed };
          motor_position_current = 0;
          calls = digital_write axis.ls_home.output_pin 1 ∷ axis.calls;
        }
        else record axis { motor_position_current = add32 axis.motor_position_current 1 })
    else press_far axis

unfoldable pub count_down : PseudoAxis → PseudoAxis
count_down axis =
    if ltb 0 axis.motor_position_current
    then (if is_pressed axis.ls_far.status
        then record axis {
          ls_far = record axis.ls_far { status = unpressed };
          motor_position_current = axis.axis_length_counts;
          calls = digital_write axis.ls_far.output_pin 1 ∷ axis.calls;
        }
        else record axis { motor_position_current = sub32 axis.motor_position_current 1 })
    else press_home axis

after_toggle : Bool → Bool → PseudoAxis → PseudoAxis
unfolding count_up count_down
after_toggle false direction axis = axis
after_toggle true direction axis = if direction then count_up axis else count_down axis

-- isr_motor_pulse, on the levels of the pulse pin and of the direction pin
unfoldable pub motor_pulse : ℕ → Bool → PseudoAxis → PseudoAxis
unfolding toggle_encoder_output after_toggle
motor_pulse level direction axis =
    let (counted, after) = toggle_encoder_output level axis in after_toggle counted direction after

unfoldable pub reset_pseudo_axis : PseudoAxis → PseudoAxis
reset_pseudo_axis axis = record axis {
  change_counter = 0;
  motor_position_current = axis.motor_position_default;
  ls_far = record axis.ls_far { status = unpressed };
  ls_home = record axis.ls_home { status = unpressed };
}

-- main.cpp. The axis with the time of its last interrupt, which is static in the handler.
pub record PulseInput : Type 0 where
  pub axis : PseudoAxis
  pub last_interrupt_time : ℕ

-- isr_motor_pulse_x and isr_motor_pulse_y: a change within 100 microseconds of the last is dropped.
unfoldable pub isr_motor_pulse_at : ℕ → ℕ → Bool → PulseInput → PulseInput
unfolding motor_pulse
isr_motor_pulse_at interrupt_time level direction p = record {
  axis =
      if ltb 100 (sub32 interrupt_time p.last_interrupt_time)
      then motor_pulse level direction p.axis
      else p.axis;
  last_interrupt_time = interrupt_time;
}

abbrev pub steps : ℕ
steps = 8

abbrev pub counts : ℕ
counts = 5

abbrev pub axis_length : ℕ
axis_length = 2000

-- An axis of `setup`: its encoder, and then the pins of its direction and its switches.
unfoldable pub setup_pseudo_axis : ℕ → ℕ → ℕ → ℕ → ℕ → PseudoAxis
unfolding set_up_encoder reset_pseudo_axis
setup_pseudo_axis pulse_pin encoder_pin dir_pin home_pin far_pin =
    let encoder : PseudoEncoder = record {
      motor_pulse_pin = pulse_pin;
      channel_a_pin = encoder_pin;
    } in
    reset_pseudo_axis (record {
      encoder = encoder;
      axis_length_counts = axis_length;
      motor_position_current = 0;
      motor_position_default = 0;
      motor_dir_pin = dir_pin;
      change_counter = 0;
      steps_for_ratio = steps;
      counts_for_ratio = counts;
      changes_to_skip = 2 * (steps - counts);
      ls_home = record { output_pin = home_pin; status = unpressed };
      ls_far = record { output_pin = far_pin; status = unpressed };
      calls = set_up_encoder encoder [];
    })

abbrev pub pseudo_axis_x : PseudoAxis
unfolding setup_pseudo_axis
pseudo_axis_x = setup_pseudo_axis 2 6 4 8 9

abbrev pub pseudo_axis_y : PseudoAxis
unfolding setup_pseudo_axis
pseudo_axis_y = setup_pseudo_axis 3 7 5 10 11
