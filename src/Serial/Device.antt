-- ===== src/Serial/Device.antt =====
-- SerialDevice.h: the interface of the serial hardware. Its implementations stand on the Arduino core
-- and on POSIX, so a device is a parameter: operations on a state D that holds the hardware and
-- whatever the outside world does meanwhile. Each operation returns the new state.
pub mod Arduino
pub mod Linux
pub mod Connect
pub mod Raw
use mpmt_test_stand.Prelude.{ℕ, ◌≡◌, Bool, true, Option, some, List, ◌∷◌, ◌++◌, length}

pub record SerialDevice (D : Type 0) : Type 0 where
  pub ser_connect : D → ℕ → Bool × D
  pub ser_flush : D → D
  pub ser_available : D → ℕ × D
  -- `none` where the C++ method returns false
  pub ser_read : D → Option ℕ × D
  pub ser_write : D → List ℕ → Bool × D
  pub ser_disconnect : D → D
  pub platform_millis : D → ℕ × D

-- What the transport relies on: a receive buffer that is read in the order of arrival and loses
-- nothing, and that a call other than `platform_millis` leaves alone. The world moves on between two
-- polls, so there `arrived` bytes may come in.
pub record Buffer (D : Type 0) : Type 0 where
  pub rx : D → List ℕ
  pub tx : D → List ℕ
  pub arrived : D → List ℕ

pub record IsBuffered {D : Type 0} (dev : SerialDevice D) (b : Buffer D) : Type 0 where
  pub available_count : (d : D) → (dev.ser_available d).0 ≡ length (b.rx d)
  pub available_rx : (d : D) → b.rx (dev.ser_available d).1 ≡ b.rx d
  pub available_tx : (d : D) → b.tx (dev.ser_available d).1 ≡ b.tx d
  pub read_byte : (d : D) (x : ℕ) (xs : List ℕ) → b.rx d ≡ x ∷ xs → (dev.ser_read d).0 ≡ some x
  pub read_rx : (d : D) (x : ℕ) (xs : List ℕ) → b.rx d ≡ x ∷ xs → b.rx (dev.ser_read d).1 ≡ xs
  pub read_tx : (d : D) → b.tx (dev.ser_read d).1 ≡ b.tx d
  pub millis_rx : (d : D) → b.rx (dev.platform_millis d).1 ≡ b.rx d ++ b.arrived d
  pub millis_tx : (d : D) → b.tx (dev.platform_millis d).1 ≡ b.tx d

-- What the senders rely on: a write that reports success has put its bytes behind those already sent.
pub record IsWriter {D : Type 0} (dev : SerialDevice D) (b : Buffer D) : Type 0 where
  pub write_tx :
      (d : D) (xs : List ℕ)
      → (dev.ser_write d xs).0 ≡ true
      → b.tx (dev.ser_write d xs).1 ≡ b.tx d ++ xs
  pub write_rx : (d : D) (xs : List ℕ) → b.rx (dev.ser_write d xs).1 ≡ b.rx d
