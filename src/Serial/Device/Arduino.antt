-- ===== src/Serial/Device/Arduino.antt =====
-- firmware/lib/Comm/src/ArduinoSerialDevice.cxx: the serial device of the controller, on the serial
-- port of the Arduino core, which is a parameter.
use mpmt_test_stand.Prelude.{
  ℕ, zero, suc, ◌<◌, ◌≤◌, ◌≡◌, refl, ap, ◌∙◌, Bool, true, Option, some, List, [], ◌∷◌, ◌++◌, arith,
  ◌==◌, length, take, take-all, drop, u8, u32,
}
use mpmt_test_stand.Serial.Device.{SerialDevice, Buffer, IsBuffered, IsWriter}

-- HardwareSerial, `delay` and `millis`, on the state H of the board. `read` returns an int, as the bit
-- pattern of an int32_t.
pub record HardwareSerial (H : Type 0) : Type 0 where
  pub begin : ℕ → H → H
  pub available : H → ℕ × H
  pub read : H → ℕ × H
  pub write : List ℕ → H → ℕ × H
  pub delay : ℕ → H → H
  pub millis : H → ℕ × H

-- What the core documents: `read` gives the next byte of the buffer, or −1 when it is empty; `write`
-- takes some bytes of the front and returns how many.
pub record IsHardwareSerial {H : Type 0} (hw : HardwareSerial H) (b : Buffer H) : Type 0 where
  pub available_count : (h : H) → (hw.available h).0 ≡ length (b.rx h)
  pub available_fits : (h : H) → length (b.rx h) < 4294967296
  pub available_rx : (h : H) → b.rx (hw.available h).1 ≡ b.rx h
  pub available_tx : (h : H) → b.tx (hw.available h).1 ≡ b.tx h
  pub read_next : (h : H) (x : ℕ) (xs : List ℕ) → b.rx h ≡ x ∷ xs → ((hw.read h).0 ≡ x) × (x < 256)
  pub read_none : (h : H) → b.rx h ≡ [] → (hw.read h).0 ≡ 4294967295
  pub read_rx : (h : H) → b.rx (hw.read h).1 ≡ drop 1 (b.rx h)
  pub read_tx : (h : H) → b.tx (hw.read h).1 ≡ b.tx h
  pub write_tx :
      (xs : List ℕ) (h : H) → b.tx (hw.write xs h).1 ≡ b.tx h ++ take (hw.write xs h).0 xs
  pub write_rx : (xs : List ℕ) (h : H) → b.rx (hw.write xs h).1 ≡ b.rx h
  pub millis_rx : (h : H) → b.rx (hw.millis h).1 ≡ b.rx h ++ b.arrived h
  pub millis_tx : (h : H) → b.tx (hw.millis h).1 ≡ b.tx h

module _ {H : Type 0} (hw : HardwareSerial H) where
  -- The loop of ser_flush.
  unfoldable pub flush_reads : ℕ → H → H
  flush_reads zero h = h
  flush_reads (suc avail) h = flush_reads avail (hw.read h).1

  unfoldable pub ser_flush : H → H
  unfolding flush_reads
  ser_flush h = let (avail, waited) = hw.available (hw.delay 10 h) in flush_reads (u32 avail) waited

  unfoldable pub ser_available : H → ℕ × H
  ser_available h = let (avail, h') = hw.available h in (u32 avail, h')

  unfoldable pub ser_read : H → Option ℕ × H
  ser_read h = let (byte, h') = hw.read h in (some (u8 byte), h')

  unfoldable pub ser_write : H → List ℕ → Bool × H
  ser_write h bytes = let (written, h') = hw.write bytes h in (written == length bytes, h')

  unfoldable pub arduino_device : SerialDevice H
  unfolding ser_flush ser_available ser_read ser_write
  arduino_device = record {
    ser_connect = λ h baud_rate. (true, hw.begin baud_rate h);
    ser_flush = ser_flush;
    ser_available = ser_available;
    ser_read = ser_read;
    ser_write = ser_write;
    ser_disconnect = λ h. h;
    platform_millis = hw.millis;
  }

length-zero : {A : Type 0} (xs : List A) → length xs ≡ 0 → xs ≡ []
length-zero [] e = refl
length-zero (x ∷ xs) e = let no : 1 ≤ 0 = omega arith in elim no [ ]

length-rest : {A : Type 0} (xs : List A) (n : ℕ) → length xs ≡ suc n → length (drop 1 xs) ≡ n
length-rest [] n e = omega arith
length-rest (x ∷ xs) n e = omega arith

module _ {H : Type 0} (hw : HardwareSerial H) (b : Buffer H) (w : IsHardwareSerial hw b) where
  arduino_device-IsBuffered : IsBuffered (arduino_device hw) b
  unfolding arduino_device ser_available ser_read
  arduino_device-IsBuffered = record {
    available_count = λ h. omega (arith, w.available_count h, w.available_fits h);
    available_rx = w.available_rx;
    available_tx = w.available_tx;
    read_byte = λ h x xs e.
        (let (byte, fits) = w.read_next h x xs e in
          let same : u8 (hw.read h).0 ≡ x = omega (arith, byte, fits) in ap some same);
    read_rx = λ h x xs e. w.read_rx h ∙ ap (drop 1) e;
    read_tx = w.read_tx;
    millis_rx = w.millis_rx;
    millis_tx = w.millis_tx;
  }

  arduino_device-IsWriter : IsWriter (arduino_device hw) b
  unfolding arduino_device ser_write
  arduino_device-IsWriter = record {
    write_tx = λ h xs e.
        (let all : (hw.write xs h).0 ≡ length xs = ground (arith, e) in
          w.write_tx xs h
          ∙ ap (λ n. b.tx h ++ take n xs) all
          ∙ ap (λ ys. b.tx h ++ ys) (take-all xs));
    write_rx = λ h xs. w.write_rx xs h;
  }

  flush_reads-rx : (n : ℕ) (h : H) → length (b.rx h) ≡ n → b.rx (flush_reads hw n h) ≡ []
  unfolding flush_reads
  flush_reads-rx zero h e = length-zero (b.rx h) e
  flush_reads-rx (suc n) h e =
      flush_reads-rx n (hw.read h).1 (ap length (w.read_rx h) ∙ length-rest (b.rx h) n e)

  -- On a serial port that behaves as the Arduino core documents, in any state and in one with an
  -- empty receive buffer: ArduinoSerialDevice is a buffered device that loses nothing and a
  -- writer, as the transport needs it; ser_flush leaves the receive buffer of the first state
  -- empty; and a read in the second reports the byte 255.
  pub arduino_device_lem :
      (h empty : H)
      → b.rx empty ≡ []
      → IsBuffered (arduino_device hw) b
        × IsWriter (arduino_device hw) b
        × (b.rx (ser_flush hw h) ≡ [])
        × ((ser_read hw empty).0 ≡ some 255)
  unfolding ser_flush ser_read
  arduino_device_lem h empty e =
      let waited = hw.delay 10 h in
      (
        arduino_device-IsBuffered,
        arduino_device-IsWriter,
        flush_reads-rx (u32 (hw.available waited).0) (hw.available waited).1 (
            ap length (w.available_rx waited)
            ∙ omega (arith, w.available_count waited, w.available_fits waited)),
        ap (λ n. some (u8 n)) (w.read_none empty e),
      )
