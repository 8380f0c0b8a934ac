-- ===== src/Examples/Devices.antt =====
-- A serial port of the Arduino with room for one byte, and a POSIX system with one terminal.
use mpmt_test_stand.Prelude.{
  ℕ, ◌<◌, ◌≡◌, ◌↔◌, refl, sym, ap, ◌∙◌, true, false, Option, none, some, List, [], ◌∷◌, ◌++◌,
  append-nil, arith, length, take, take-all, drop, u8,
}
use mpmt_test_stand.Serial.Device.{Buffer, IsBuffered, IsWriter}
use mpmt_test_stand.Serial.Device.Arduino
use mpmt_test_stand.Serial.Device.Arduino.{
  HardwareSerial, IsHardwareSerial, arduino_device, arduino_device_lem,
}
use mpmt_test_stand.Serial.Device.Linux
use mpmt_test_stand.Serial.Device.Linux.{
  Termios, Posix, LinuxSerialDevice, linux_device, configure, save_settings, get_termios_baud_rate,
}
use mpmt_test_stand.Serial.Device.Connect.{Connected}
use mpmt_test_stand.Serial.Device.Raw.{Terminal, IsPosix, terminal_buffer, linux_device_lem}

pub record Port : Type 0 where
  pub cell : Option ℕ
  pub sent : List ℕ

abbrev waiting : Option ℕ → List ℕ
waiting none = []
waiting (some x) = u8 x ∷ []

abbrev read_cell : Option ℕ → Port → ℕ × Port
read_cell none h = (4294967295, h)
read_cell (some x) h = (u8 x, record h { cell = none })

abbrev port : HardwareSerial Port
port = record {
  begin = λ baud h. h;
  available = λ h. (length (waiting h.cell), h);
  read = λ h. read_cell h.cell h;
  write = λ xs h. (length xs, record h { sent = h.sent ++ xs });
  delay = λ ms h. h;
  millis = λ h. (0, h);
}

abbrev port_buffer : Buffer Port
port_buffer = record { rx = λ h. waiting h.cell; tx = λ h. h.sent; arrived = λ h. [] }

waiting-fits : (c : Option ℕ) → length (waiting c) < 4294967296
waiting-fits none = omega arith
waiting-fits (some x) = omega arith

read_cell-next :
    (c : Option ℕ) (h : Port) (x : ℕ) (xs : List ℕ)
    → waiting c ≡ x ∷ xs
    → ((read_cell c h).0 ≡ x) × (x < 256)
read_cell-next none h x xs e = cc
read_cell-next (some y) h x xs e = let same : u8 y ≡ x = cc in (same, omega arith)

read_cell-none : (c : Option ℕ) (h : Port) → waiting c ≡ [] → (read_cell c h).0 ≡ 4294967295
read_cell-none none h e = refl
read_cell-none (some y) h e = cc

read_cell-rx :
    (c : Option ℕ) (sent : List ℕ)
    → let h : Port = record { cell = c; sent = sent } in
      (waiting (read_cell c h).1.cell ≡ drop 1 (waiting c)) × ((read_cell c h).1.sent ≡ sent)
read_cell-rx none sent = (refl, refl)
read_cell-rx (some y) sent = (refl, refl)

port-IsHardwareSerial : IsHardwareSerial port port_buffer
port-IsHardwareSerial = record {
  available_count = λ h. refl;
  available_fits = λ h. waiting-fits h.cell;
  available_rx = λ h. refl;
  available_tx = λ h. refl;
  read_next = λ h. read_cell-next h.cell h;
  read_none = λ h. read_cell-none h.cell h;
  read_rx = λ h. (read_cell-rx h.cell h.sent).0;
  read_tx = λ h. (read_cell-rx h.cell h.sent).1;
  write_tx = λ xs h. ap (λ ys. h.sent ++ ys) (sym (take-all xs));
  write_rx = λ xs h. refl;
  millis_rx = λ h. sym (append-nil (waiting h.cell));
  millis_tx = λ h. refl;
}

-- A port with a byte, and one without.
abbrev full : Port
full = record { cell = some 300; sent = [] }

abbrev drained : Port
drained = record { cell = none; sent = [] }

arduino_device_lem_example :
    IsBuffered (arduino_device port) port_buffer
    × IsWriter (arduino_device port) port_buffer
    × (waiting (Arduino.ser_flush port full).cell ≡ [])
    × ((Arduino.ser_read port drained).0 ≡ some 255)
arduino_device_lem_example =
    arduino_device_lem port port_buffer port-IsHardwareSerial full drained refl

pub record System : Type 0 where
  pub incoming : List ℕ
  pub outgoing : List ℕ
  pub saved : Option Termios

abbrev read_incoming : List ℕ → System → Option ℕ × System
read_incoming [] p = (none, p)
read_incoming (x ∷ xs) p = (some x, record p { incoming = xs })

abbrev system : Posix System
system = record {
  open_rdwr = λ path p. (3, p);
  tcgetattr = λ fd p. (p.saved, p);
  cfsetispeed = λ speed tty. tty;
  cfsetospeed = λ speed tty. tty;
  tcsetattr = λ fd tty p. (true, record p { saved = some tty });
  usleep = λ us p. p;
  tcflush_both = λ fd p. record p { incoming = []; outgoing = [] };
  fionread = λ fd p. (length p.incoming, p);
  read_one = λ fd p. read_incoming p.incoming p;
  write = λ fd xs p. (some (length xs), record p { outgoing = p.outgoing ++ xs });
  close = λ fd p. p;
  clock_monotonic = λ p. ((1, 500), p);
}

abbrev terminal : Terminal System
terminal = record { rx = λ fd p. p.incoming; tx = λ fd p. p.outgoing; arrived = λ fd p. [] }

read_incoming-next :
    (rest : List ℕ) (p : System) (x : ℕ) (xs : List ℕ)
    → rest ≡ x ∷ xs
    → (read_incoming rest p).0 ≡ some x
read_incoming-next [] p x xs e = cc
read_incoming-next (y ∷ ys) p x xs e = cc

read_incoming-rx :
    (rest out : List ℕ) (saved : Option Termios)
    → let p : System = record { incoming = rest; outgoing = out; saved = saved } in
      ((read_incoming rest p).1.incoming ≡ drop 1 rest) × ((read_incoming rest p).1.outgoing ≡ out)
read_incoming-rx [] out saved = (refl, refl)
read_incoming-rx (y ∷ ys) out saved = (refl, refl)

system-IsPosix : IsPosix system terminal
system-IsPosix = record {
  fionread_count = λ fd p. refl;
  fionread_rx = λ fd p. refl;
  fionread_tx = λ fd p. refl;
  read_next = λ fd p. read_incoming-next p.incoming p;
  read_rx = λ fd p. (read_incoming-rx p.incoming p.outgoing p.saved).0;
  read_tx = λ fd p. (read_incoming-rx p.incoming p.outgoing p.saved).1;
  write_tx = λ fd xs p n e.
      (let all : length xs ≡ n = cc in
        ap (λ ys. p.outgoing ++ ys) (sym (take-all xs) ∙ ap (λ m. take m xs) all));
  write_rx = λ fd xs p. refl;
  clock_rx = λ fd p. sym (append-nil p.incoming);
  clock_tx = λ fd p. refl;
}

-- A terminal in its usual modes.
abbrev usual : Termios
usual = record {
  parenb = false;
  cstopb = false;
  cs8 = false;
  crtscts = false;
  clocal = false;
  cread = true;
  icanon = true;
  echo = true;
  echoe = true;
  echonl = false;
  isig = true;
  iexten = true;
  ixon = true;
  ixoff = false;
  ixany = false;
  ignbrk = false;
  brkint = false;
  parmrk = false;
  istrip = false;
  inlcr = false;
  igncr = false;
  icrnl = true;
  opost = true;
  onlcr = true;
  vtime = 0;
  vmin = 1;
  others = 0;
}

abbrev tty : LinuxSerialDevice System
tty = record {
  device_file = 47 ∷ 100 ∷ [];
  serial_port = 0;
  system = record { incoming = []; outgoing = []; saved = some usual };
}

-- The terminal after a ser_connect, in raw modes.
abbrev raw : LinuxSerialDevice System
raw = (Linux.ser_connect system tty 115200).1

tty_connects : Linux.ser_connect system tty 115200 ≡ (true, raw)
unfolding Linux.ser_connect configure save_settings get_termios_baud_rate
tty_connects = refl

linux_device_lem_example :
    IsBuffered (linux_device system) (terminal_buffer terminal)
    × IsWriter (linux_device system) (terminal_buffer terminal)
    × ((Linux.ser_connect system tty 115200 ≡ (true, raw)) ↔ Connected system tty 115200 raw)
linux_device_lem_example = linux_device_lem system terminal system-IsPosix tty raw 115200
