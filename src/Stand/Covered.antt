-- ===== src/Stand/Covered.antt =====
-- An axis under a status of the main object: it moves only under a status that says so.
use mpmt_test_stand.Prelude.{ℕ, ◌≡◌, refl, Bool, true, false, arith}
use mpmt_test_stand.Shared.{Status, status_idle, status_homing, status_moving}
use mpmt_test_stand.Gantry.State.{Axis}
use mpmt_test_stand.Gantry.Axis.{reset_axis}
use mpmt_test_stand.Gantry.Isr.{Interrupt, encoder, step, accel, ls_home, ls_far, interrupt}
use mpmt_test_stand.Gantry.Isr.Timers.{IsSynced, reset_axis-IsSynced, interrupt-IsSynced}

-- The status says that something may be moving.
abbrev pub is_busy : Status → Bool
is_busy status_moving = true
is_busy status_homing = true
is_busy _ = false

-- An axis under a status: its timers run exactly while it moves, and it moves only under a status that
-- says so.
pub record IsCovered (status : Status) (a : Axis) : Type 0 where
  pub synced : IsSynced a
  pub covered : a.state.moving ≡ true → is_busy status ≡ true

pub busy-IsCovered :
    (status : Status) (a : Axis) → is_busy status ≡ true → IsSynced a → IsCovered status a
busy-IsCovered status a b s = record { synced = s; covered = λ m. b }

pub still-IsCovered :
    (status : Status) (a : Axis) → a.state.moving ≡ false → IsSynced a → IsCovered status a
still-IsCovered status a f s = record { synced = s; covered = λ m. cc }

pub interrupt_still :
    (mck : ℕ) (i : Interrupt) (a : Axis)
    → (interrupt mck i a).state.moving ≡ true
    → a.state.moving ≡ true
unfolding interrupt
interrupt_still mck encoder a m = m
interrupt_still mck step a m = ground arith
interrupt_still mck accel a m = ground arith
interrupt_still mck (ls_home level) a m = cc
interrupt_still mck (ls_far level) a m = cc

pub interrupt-IsCovered :
    (mck : ℕ) (i : Interrupt) (status : Status) (a : Axis)
    → IsCovered status a
    → IsCovered status (interrupt mck i a)
interrupt-IsCovered mck i status a h = record {
  synced = interrupt-IsSynced mck i a h.synced;
  covered = λ m. h.covered (interrupt_still mck i a m);
}

pub covered_lem :
    (a : Axis) (status : Status) (t : Bool)
    → (a.state.moving ≡ true → t ≡ true)
    → (t ≡ true → is_busy status ≡ true)
    → IsSynced a
    → IsCovered status a
covered_lem a status t into h s = record { synced = s; covered = λ m. h (into m) }

pub rest_axis : (a : Axis) → IsSynced a → IsCovered status_idle (reset_axis a)
unfolding reset_axis
rest_axis a s = still-IsCovered status_idle (reset_axis a) refl (reset_axis-IsSynced a s.apart)

pub unchanged-IsCovered :
    (status : Status) (a b : Axis) → a ≡ b → IsCovered status b → IsCovered status a
unchanged-IsCovered status a b e h = rw e h
