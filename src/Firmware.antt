-- ===== src/Firmware.antt =====
-- firmware/src/main.cpp with the configuration of firmware/src/conf.h, and the objects as they are
-- before `setup`: the two axes of Axis.cpp and the main object.
pub mod Status
use mpmt_test_stand.Prelude.{ℕ, Bool, true, false, none, some, [], not, leb, if◌then◌else◌, sub32}
use mpmt_test_stand.Shared.{
  serial_baud_rate, encoder_counts_per_rev, motor_steps_per_rev, status_idle, axis_dir_positive,
  Calibration,
}
use mpmt_test_stand.Thermistor.{Doubles, Board}
use mpmt_test_stand.Serial.Device.{SerialDevice}
use mpmt_test_stand.Serial.Exec.{TestStandComm, Exec, pure, gets, modify, ◌>>=◌, ◌>>◌}
use mpmt_test_stand.Gantry.State.{AxisIo, AxisMech, AxisMotion, AxisState, Axis, vel_seg_accelerate}
use mpmt_test_stand.Gantry.Hardware.{TimerChannel}
use mpmt_test_stand.Stand.{Config, Stand, Fate, carries_on, null_axis}
use mpmt_test_stand.Stand.Handlers

-- The names of the board's headers that conf.h and Axis.cpp use. TC_IRQN puts the number of a timer
-- interrupt into such a name; the build defines the numbers of the step timers as 6 and 7.
pub record Due : Type 0 where
  pub tc0 : ℕ
  pub tc1 : ℕ
  pub tc2 : ℕ
  pub tc_irqn : ℕ → ℕ
  pub pioc : ℕ
  pub pio_periph_b : ℕ
  pub pio_pc25b_tioa6 : ℕ
  pub pio_pc28b_tioa7 : ℕ
  pub a0 : ℕ
  pub a1 : ℕ
  pub a2 : ℕ
  pub a3 : ℕ
  pub a4 : ℕ
  pub led_builtin : ℕ

-- `pinMode` to OUTPUT, `digitalWrite` and `millis` of the Arduino core, on the state of the hardware.
pub record Core (D : Type 0) : Type 0 where
  pub pin_mode_output : ℕ → D → D
  pub digital_write : ℕ → Bool → D → D
  pub millis : D → ℕ × D

abbrev low : ℕ
low = 0

unfoldable pub conf : Due → Config
conf due = record {
  serial_comm_baud_rate = serial_baud_rate;
  io_axis_x = record {
    step = record { tc = due.tc2; channel = 0; irq = due.tc_irqn 6 };
    pio_step = due.pioc;
    pio_step_periph = due.pio_periph_b;
    pio_step_pin_mask = due.pio_pc25b_tioa6;
    pin_dir = 6;
    pin_enc_a = 7;
    pin_enc_b = 8;
    pin_ls_home = 9;
    pin_ls_far = 10;
    dir_pos_level = low;
    ls_pressed_level = low;
  };
  io_axis_y = record {
    step = record { tc = due.tc2; channel = 1; irq = due.tc_irqn 7 };
    pio_step = due.pioc;
    pio_step_periph = due.pio_periph_b;
    pio_step_pin_mask = due.pio_pc28b_tioa7;
    pin_dir = 23;
    pin_enc_a = 24;
    pin_enc_b = 25;
    pin_ls_home = 26;
    pin_ls_far = 27;
    dir_pos_level = low;
    ls_pressed_level = low;
  };
  axis_mech = record {
    counts_per_rev = encoder_counts_per_rev;
    steps_per_rev = motor_steps_per_rev;
  };
  io_temp = record {
    pin_therm_amb = due.a0;
    pin_therm_motor_x = due.a1;
    pin_therm_motor_y = due.a3;
    pin_therm_mpmt = due.a2;
    pin_therm_optical = due.a4;
  };
}

-- The fields that `{}` initialises: all are 0.
abbrev zero_axis : TimerChannel → Axis
zero_axis accel = record {
  io = record {
    step = record { tc = 0; channel = 0; irq = 0 };
    pio_step = 0;
    pio_step_periph = 0;
    pio_step_pin_mask = 0;
    pin_dir = 0;
    pin_enc_a = 0;
    pin_enc_b = 0;
    pin_ls_home = 0;
    pin_ls_far = 0;
    dir_pos_level = 0;
    ls_pressed_level = 0;
  };
  mech = record { counts_per_rev = 0; steps_per_rev = 0 };
  accel = accel;
  motion = record {
    spec = record {
      dir = axis_dir_positive;
      total_counts = 0;
      accel = 0;
      vel_start = 0;
      vel_hold = 0;
    };
    profile = record { dist_accel = 0; dist_hold = 0; dist_decel = 0 };
  };
  state = record {
    moving = false;
    ls_home_pressed = false;
    ls_far_pressed = false;
    velocity = 0;
    next_velocity = 0;
    velocity_segment = vel_seg_accelerate;
    encoder_current = 0;
    encoder_target = 0;
    dir = axis_dir_positive;
  };
  calls = [];
}

unfoldable pub static_axis_x : Due → Axis
static_axis_x due = zero_axis (record { tc = due.tc1; channel = 1; irq = due.tc_irqn 4 })

unfoldable pub static_axis_y : Due → Axis
static_axis_y due = zero_axis (record { tc = due.tc0; channel = 1; irq = due.tc_irqn 1 })

-- The constructor, on an object of static storage.
unfoldable pub test_stand : {D : Type 0} → Due → Calibration → TestStandComm D → Stand D
unfolding conf static_axis_x static_axis_y
test_stand due cal comm = record {
  conf = conf due;
  cal = cal;
  status = status_idle;
  home_a_done = false;
  x = static_axis_x due;
  y = static_axis_y due;
  comm = comm;
}

-- The globals of main.cpp.
pub record Firmware (D : Type 0) : Type 0 where
  pub stand : Stand D
  pub blink_start : ℕ
  pub blink_state : Bool

abbrev pub move_pin : ℕ
move_pin = 12

abbrev pub home_pin : ℕ
home_pin = 11

module _ {D : Type 0} where
  -- A call on the object `test_stand`.
  abbrev pub on_stand : {A : Type 0} → Exec (Stand D) A → Exec (Firmware D) A
  on_stand m f = elim (m f.stand) [ none ↦ none | some (a, s) ↦ some (a, record f { stand = s }) ]

  abbrev pub with_device : D → Stand D → Stand D
  with_device d s = record s { comm = record s.comm { device = d } }

  -- A call of the core.
  abbrev pub on_core : {A : Type 0} → (D → A × D) → Exec (Firmware D) A
  on_core call f =
      let (a, d) = call f.stand.comm.device in some (a, record f { stand = with_device d f.stand })

module _ {D F : Type 0} (dev : SerialDevice D) (board : Board D) (core : Core D) (fl : Doubles F)
    (due : Due) (big_endian : Bool) (mck rounds bytes : ℕ) where
  -- `setup` behind test_stand.setup()
  unfoldable pub after_setup : Exec (Firmware D) (Unit {0})
  after_setup =
      on_core (λ d. (tt, core.pin_mode_output move_pin d))
      >> on_core (λ d. (tt, core.pin_mode_output home_pin d))
      >> (on_core core.millis >>= λ now.
          modify (λ f. record f { blink_start = now; blink_state = false }))

  unfoldable pub main_setup : ℕ → Exec (Firmware D) (Unit {0})
  unfolding after_setup
  main_setup pings =
      on_core (λ d. (tt, core.pin_mode_output due.led_builtin d))
      >> (on_stand (Handlers.setup dev board fl big_endian mck rounds bytes pings) >> after_setup)

  -- The second half of `loop`.
  unfoldable pub blink : Exec (Firmware D) (Unit {0})
  blink = on_core core.millis >>= λ now. gets (λ f. f.blink_start) >>= λ blink_start.
      if leb 500 (sub32 now blink_start)
      then (modify (λ f. record f { blink_state = not f.blink_state })
          >> (gets (λ f. f.blink_state) >>= λ level.
              on_core (λ d. (tt, core.digital_write due.led_builtin level d)))
          >> (on_core core.millis >>= λ start. modify (λ f. record f { blink_start = start })))
      else pure tt

  abbrev pub and_blink : Fate → Exec (Firmware D) Fate
  and_blink carries_on = blink >> pure carries_on
  and_blink null_axis = pure null_axis

  unfoldable pub main_loop : Exec (Firmware D) Fate
  unfolding blink
  main_loop = on_stand (Handlers.execute dev board fl big_endian mck rounds bytes) >>= and_blink
