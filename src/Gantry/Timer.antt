-- ===== src/Gantry/Timer.antt =====
-- Timer.cpp: the calls that each function makes, put on a log. `mck` is VARIANT_MCK, the frequency of
-- the master clock, which the Arduino core defines.
use mpmt_test_stand.Prelude.{ℕ, ◌-◌, ◌/◌, false, List, [], ◌∷◌, mul32}
use mpmt_test_stand.Gantry.Hardware.{
  TimerChannel, HwCall, wave, wavsel_up_rc, timer_clock4, acpa_set, acpc_clear,
  pmc_set_writeprotect, pmc_enable_periph_clk, tc_configure, pio_configure, tc_ier_cpcs,
  tc_idr_not_cpcs, tc_set_ra, tc_set_rc, nvic_enable_irq, nvic_disable_irq, tc_start, tc_stop,
}

abbrev pub timer_clock_divisor : ℕ
timer_clock_divisor = 128

unfoldable pub configure_pwm_timer : TimerChannel → ℕ → ℕ → ℕ → List HwCall → List HwCall
configure_pwm_timer t pio periph pin_mask calls =
    tc_idr_not_cpcs t
    ∷ tc_ier_cpcs t
    ∷ pio_configure pio periph pin_mask
    ∷ tc_configure t (wave ∷ wavsel_up_rc ∷ timer_clock4 ∷ acpa_set ∷ acpc_clear ∷ [])
    ∷ pmc_enable_periph_clk t.irq
    ∷ pmc_set_writeprotect false
    ∷ calls

unfoldable pub configure_timer_interrupt : TimerChannel → List HwCall → List HwCall
configure_timer_interrupt t calls =
    tc_idr_not_cpcs t
    ∷ tc_ier_cpcs t
    ∷ tc_configure t (wave ∷ wavsel_up_rc ∷ timer_clock4 ∷ [])
    ∷ pmc_enable_periph_clk t.irq
    ∷ pmc_set_writeprotect false
    ∷ calls

unfoldable pub stop_timer : TimerChannel → List HwCall → List HwCall
stop_timer t calls = tc_stop t ∷ nvic_disable_irq t.irq ∷ calls

-- Counts in a period. A frequency of 0 divides by zero; here, as on the Cortex-M3, that gives 0.
abbrev pub period : ℕ → ℕ → ℕ
period mck frequency = mck / timer_clock_divisor / frequency

-- The count at which the output of the period goes on.
abbrev pub on_at : ℕ → ℕ → ℕ
on_at rc duty_cycle_on_percent = mul32 rc (100 - duty_cycle_on_percent) / 100

unfoldable pub reset_pwm_timer : ℕ → TimerChannel → ℕ → ℕ → List HwCall → List HwCall
unfolding stop_timer
reset_pwm_timer mck t frequency duty_cycle_on_percent calls =
    let rc = period mck frequency in
    let ra = on_at rc duty_cycle_on_percent in
    tc_start t ∷ nvic_enable_irq t.irq ∷ tc_set_rc t rc ∷ tc_set_ra t ra ∷ stop_timer t calls

unfoldable pub reset_timer_interrupt : ℕ → TimerChannel → ℕ → List HwCall → List HwCall
unfolding stop_timer
reset_timer_interrupt mck t frequency calls =
    tc_start t ∷ nvic_enable_irq t.irq ∷ tc_set_rc t (period mck frequency) ∷ stop_timer t calls
