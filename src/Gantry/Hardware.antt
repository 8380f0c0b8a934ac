-- ===== src/Gantry/Hardware.antt =====
-- The calls of the Arduino core and of the SAM3X library that the gantry makes. They are not part of
-- the repository, so a call is recorded with its arguments and nothing more. A log has the newest call
-- first. The reader below says when a timer runs: TC_Start starts its counter and TC_Stop stops it.
use mpmt_test_stand.Prelude.{ℕ, Bool, true, false, List, [], ◌∷◌, ◌==◌, ◌&&◌, if◌then◌else◌}

-- A channel of a timer counter, with the interrupt that belongs to it.
pub record TimerChannel : Type 0 where
  pub tc : ℕ
  pub channel : ℕ
  pub irq : ℕ

pub data TcFlag : Type 0 where
  wave wavsel_up_rc timer_clock4 acpa_set acpc_clear : TcFlag

pub data PinMode : Type 0 where
  output input input_pullup : PinMode

pub data Trigger : Type 0 where
  rising falling change : Trigger

pub data Handler : Type 0 where
  isr_encoder isr_ls_home isr_ls_far isr_motor_pulse : Handler

pub data HwCall : Type 0 where
  pmc_set_writeprotect : Bool → HwCall
  pmc_enable_periph_clk : ℕ → HwCall
  tc_configure : TimerChannel → List TcFlag → HwCall
  pio_configure : ℕ → ℕ → ℕ → HwCall
  tc_ier_cpcs tc_idr_not_cpcs : TimerChannel → HwCall
  tc_set_ra tc_set_rc : TimerChannel → ℕ → HwCall
  nvic_enable_irq nvic_disable_irq : ℕ → HwCall
  tc_start tc_stop tc_get_status : TimerChannel → HwCall
  pin_mode : ℕ → PinMode → HwCall
  digital_write : ℕ → ℕ → HwCall
  attach_interrupt : ℕ → Handler → Trigger → HwCall
  pio_ifer pio_difsr : ℕ → HwCall
  pio_scdr : ℕ → ℕ → HwCall

abbrev pub same_timer : TimerChannel → TimerChannel → Bool
same_timer t u = t.tc == u.tc && t.channel == u.channel

-- The counter of `t` after the calls of a log: running or not.
unfoldable pub is_running : TimerChannel → List HwCall → Bool
is_running t [] = false
is_running t (tc_start u ∷ calls) = if same_timer t u then true else is_running t calls
is_running t (tc_stop u ∷ calls) = if same_timer t u then false else is_running t calls
is_running t (_ ∷ calls) = is_running t calls
