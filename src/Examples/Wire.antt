-- ===== src/Examples/Wire.antt =====
-- Two serial devices. A wire has bytes waiting and remembers what was written; a silent line has only
-- a clock.
use mpmt_test_stand.Prelude.{
  ℕ, suc, ◌/◌, ◌≡◌, refl, sym, true, Option, none, some, List, [], ◌∷◌, ◌++◌, append-nil, arith,
  length, ltb, if◌then◌else◌,
}
use mpmt_test_stand.Serial.Device.{SerialDevice, Buffer, IsBuffered, IsWriter}
use mpmt_test_stand.Serial.Transport.Timeout.{IsClocked}

pub record Wire : Type 0 where
  pub rx : List ℕ
  pub tx : List ℕ

abbrev read_wire : List ℕ → Wire → Option ℕ × Wire
read_wire [] d = (none, d)
read_wire (x ∷ xs) d = (some x, record d { rx = xs })

abbrev pub wire_device : SerialDevice Wire
wire_device = record {
  ser_connect = λ d baud. (true, d);
  ser_flush = λ d. d;
  ser_available = λ d. (length d.rx, d);
  ser_read = λ d. read_wire d.rx d;
  ser_write = λ d xs. (true, record d { tx = d.tx ++ xs });
  ser_disconnect = λ d. d;
  platform_millis = λ d. (0, d);
}

abbrev pub wire_buffer : Buffer Wire
wire_buffer = record { rx = λ d. d.rx; tx = λ d. d.tx; arrived = λ d. [] }

read_wire-rx :
    (rest : List ℕ) (d : Wire) (x : ℕ) (xs : List ℕ)
    → rest ≡ x ∷ xs
    → ((read_wire rest d).0 ≡ some x) × ((read_wire rest d).1.rx ≡ xs)
read_wire-rx [] d x xs e = cc
read_wire-rx (y ∷ ys) d x xs e = ground (arith, e)

read_wire-tx : (rest : List ℕ) (d : Wire) → (read_wire rest d).1.tx ≡ d.tx
read_wire-tx [] d = refl
read_wire-tx (y ∷ ys) d = refl

pub wire_device-IsBuffered : IsBuffered wire_device wire_buffer
wire_device-IsBuffered = record {
  available_count = λ d. refl;
  available_rx = λ d. refl;
  available_tx = λ d. refl;
  read_byte = λ d x xs e. (read_wire-rx d.rx d x xs e).0;
  read_rx = λ d x xs e. (read_wire-rx d.rx d x xs e).1;
  read_tx = λ d. read_wire-tx d.rx d;
  millis_rx = λ d. sym (append-nil d.rx);
  millis_tx = λ d. refl;
}

pub wire_device-IsWriter : IsWriter wire_device wire_buffer
wire_device-IsWriter = record { write_tx = λ d xs e. refl; write_rx = λ d xs. refl }

-- The state of a silent line is its clock, in microseconds.
abbrev pub clock_us : ℕ → ℕ
clock_us d = if ltb d 18446744073709551615000 then d else 18446744073709551615000

abbrev pub silent_line : SerialDevice ℕ
silent_line = record {
  ser_connect = λ d baud. (true, d);
  ser_flush = λ d. d;
  ser_available = λ d. (0, d);
  ser_read = λ d. (none, d);
  ser_write = λ d xs. (true, d);
  ser_disconnect = λ d. d;
  platform_millis = λ d. (clock_us d / 1000, suc d);
}

abbrev pub silent_buffer : Buffer ℕ
silent_buffer = record { rx = λ d. []; tx = λ d. []; arrived = λ d. [] }

pub silent_line-IsBuffered : IsBuffered silent_line silent_buffer
silent_line-IsBuffered = record {
  available_count = λ d. refl;
  available_rx = λ d. refl;
  available_tx = λ d. refl;
  read_byte = λ d x xs e. cc;
  read_rx = λ d x xs e. cc;
  read_tx = λ d. refl;
  millis_rx = λ d. refl;
  millis_tx = λ d. refl;
}

pub silent_line-IsClocked : IsClocked silent_line clock_us
silent_line-IsClocked = record {
  millis_value = λ d. refl;
  millis_us = λ d h. ground arith;
  millis_since = λ d. ground arith;
  available_us = λ d. omega arith;
  read_us = λ d. omega arith;
  uint64_us = λ d. ground arith;
}
