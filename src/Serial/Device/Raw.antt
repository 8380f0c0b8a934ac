-- ===== src/Serial/Device/Raw.antt =====
-- The host's serial device as an open, raw terminal of POSIX.
use mpmt_test_stand.Prelude.{
  ℕ, ◌≡◌, ◌↔◌, ap, ◌∙◌, true, Option, none, some, List, ◌∷◌, ◌++◌, arith, length, take, take-all,
  drop,
}
use mpmt_test_stand.Serial.Device.{Buffer, IsBuffered, IsWriter}
use mpmt_test_stand.Serial.Device.Connect.{Connected, ser_connect-Connected}
use mpmt_test_stand.Serial.Device.Linux.{
  Posix, LinuxSerialDevice, ser_connect, is_count, ser_available, ser_read, ser_write,
  platform_millis, linux_device,
}

-- What the system keeps for a file descriptor, besides the bytes on their way.
pub record Terminal (P : Type 0) : Type 0 where
  pub rx : ℕ → P → List ℕ
  pub tx : ℕ → P → List ℕ
  pub arrived : ℕ → P → List ℕ

-- What POSIX documents of the calls.
pub record IsPosix {P : Type 0} (posix : Posix P) (t : Terminal P) : Type 0 where
  pub fionread_count : (fd : ℕ) (p : P) → (posix.fionread fd p).0 ≡ length (t.rx fd p)
  pub fionread_rx : (fd : ℕ) (p : P) → t.rx fd (posix.fionread fd p).1 ≡ t.rx fd p
  pub fionread_tx : (fd : ℕ) (p : P) → t.tx fd (posix.fionread fd p).1 ≡ t.tx fd p
  pub read_next :
      (fd : ℕ) (p : P) (x : ℕ) (xs : List ℕ) → t.rx fd p ≡ x ∷ xs → (posix.read_one fd p).0 ≡ some x
  pub read_rx : (fd : ℕ) (p : P) → t.rx fd (posix.read_one fd p).1 ≡ drop 1 (t.rx fd p)
  pub read_tx : (fd : ℕ) (p : P) → t.tx fd (posix.read_one fd p).1 ≡ t.tx fd p
  pub write_tx :
      (fd : ℕ) (xs : List ℕ) (p : P) (n : ℕ)
      → (posix.write fd xs p).0 ≡ some n
      → t.tx fd (posix.write fd xs p).1 ≡ t.tx fd p ++ take n xs
  pub write_rx : (fd : ℕ) (xs : List ℕ) (p : P) → t.rx fd (posix.write fd xs p).1 ≡ t.rx fd p
  pub clock_rx :
      (fd : ℕ) (p : P) → t.rx fd (posix.clock_monotonic p).1 ≡ t.rx fd p ++ t.arrived fd p
  pub clock_tx : (fd : ℕ) (p : P) → t.tx fd (posix.clock_monotonic p).1 ≡ t.tx fd p

abbrev pub terminal_buffer : {P : Type 0} → Terminal P → Buffer (LinuxSerialDevice P)
terminal_buffer t = record {
  rx = λ d. t.rx d.serial_port d.system;
  tx = λ d. t.tx d.serial_port d.system;
  arrived = λ d. t.arrived d.serial_port d.system;
}

count_lem : (written : Option ℕ) (n : ℕ) → is_count written n ≡ true → written ≡ some n
count_lem none n e = cc
count_lem (some m) n e = ap some (ground arith)

module _ {P : Type 0} (posix : Posix P) (t : Terminal P) (w : IsPosix posix t) where
  linux_device-IsBuffered : IsBuffered (linux_device posix) (terminal_buffer t)
  unfolding linux_device ser_available ser_read platform_millis
  linux_device-IsBuffered = record {
    available_count = λ d. w.fionread_count d.serial_port d.system;
    available_rx = λ d. w.fionread_rx d.serial_port d.system;
    available_tx = λ d. w.fionread_tx d.serial_port d.system;
    read_byte = λ d. w.read_next d.serial_port d.system;
    read_rx = λ d x xs e. w.read_rx d.serial_port d.system ∙ ap (drop 1) e;
    read_tx = λ d. w.read_tx d.serial_port d.system;
    millis_rx = λ d. w.clock_rx d.serial_port d.system;
    millis_tx = λ d. w.clock_tx d.serial_port d.system;
  }

  linux_device-IsWriter : IsWriter (linux_device posix) (terminal_buffer t)
  unfolding linux_device ser_write
  linux_device-IsWriter = record {
    write_tx = λ d xs e.
        w.write_tx d.serial_port xs d.system (length xs)
          (count_lem (posix.write d.serial_port xs d.system).0 (length xs) e)
        ∙ ap (λ ys. t.tx d.serial_port d.system ++ ys) (take-all xs);
    write_rx = λ d xs. w.write_rx d.serial_port xs d.system;
  }

  -- On a system whose buffers behave as POSIX documents, LinuxSerialDevice is a buffered device
  -- that loses nothing and a writer, as the transport needs it. Its ser_connect reports success
  -- exactly if the device file opened, its settings could be read, the baud rate is one of the
  -- eight that are supported, and tcsetattr accepted the request for that speed in both directions
  -- and for the settings that were read with these changes: eight data bits, no parity, one stop
  -- bit, no flow control, no modem lines, the receiver on, no line discipline, echo or signals,
  -- nothing done to the bytes in either direction, and reads that do not wait. The device then has
  -- the descriptor that was opened.
  pub linux_device_lem :
      (d d' : LinuxSerialDevice P) (baud_rate : ℕ)
      → IsBuffered (linux_device posix) (terminal_buffer t)
        × IsWriter (linux_device posix) (terminal_buffer t)
        × ((ser_connect posix d baud_rate ≡ (true, d')) ↔ Connected posix d baud_rate d')
  linux_device_lem d d' baud_rate =
      (linux_device-IsBuffered, linux_device-IsWriter, ser_connect-Connected posix d d' baud_rate)
