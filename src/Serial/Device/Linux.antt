-- ===== src/Serial/Device/Linux.antt =====
-- shared_linux/LinuxSerialDevice/LinuxSerialDevice.cxx: the serial device of the host, on POSIX, which
-- is a parameter.
use mpmt_test_stand.Prelude.{
  ℕ, ◌+◌, ◌*◌, ◌/◌, Bool, true, false, Option, none, some, List, ◌==◌, not, if◌then◌else◌, length,
  int32_leb,
}
use mpmt_test_stand.Serial.Device.{SerialDevice}

pub data Speed : Type 0 where
  b9600 b19200 b38400 b57600 b115200 b230400 b460800 b500000 : Speed

-- struct termios: the flags that the code names, by their names, and all others as one word.
pub record Termios : Type 0 where
  pub parenb : Bool
  pub cstopb : Bool
  pub cs8 : Bool
  pub crtscts : Bool
  pub clocal : Bool
  pub cread : Bool
  pub icanon : Bool
  pub echo : Bool
  pub echoe : Bool
  pub echonl : Bool
  pub isig : Bool
  pub iexten : Bool
  pub ixon : Bool
  pub ixoff : Bool
  pub ixany : Bool
  pub ignbrk : Bool
  pub brkint : Bool
  pub parmrk : Bool
  pub istrip : Bool
  pub inlcr : Bool
  pub igncr : Bool
  pub icrnl : Bool
  pub opost : Bool
  pub onlcr : Bool
  pub vtime : ℕ
  pub vmin : ℕ
  pub others : ℕ

-- The calls on the state P of the system. A file descriptor is an int32_t, as its bit pattern. `none`
-- is a call that fails, and a read that gives no byte.
pub record Posix (P : Type 0) : Type 0 where
  pub open_rdwr : List ℕ → P → ℕ × P
  pub tcgetattr : ℕ → P → Option Termios × P
  pub cfsetispeed : Speed → Termios → Termios
  pub cfsetospeed : Speed → Termios → Termios
  pub tcsetattr : ℕ → Termios → P → Bool × P
  pub usleep : ℕ → P → P
  pub tcflush_both : ℕ → P → P
  pub fionread : ℕ → P → ℕ × P
  pub read_one : ℕ → P → Option ℕ × P
  pub write : ℕ → List ℕ → P → Option ℕ × P
  pub close : ℕ → P → P
  -- seconds and nanoseconds
  pub clock_monotonic : P → (ℕ × ℕ) × P

pub record LinuxSerialDevice (P : Type 0) : Type 0 where
  pub device_file : List ℕ
  pub serial_port : ℕ
  pub system : P

-- `none` where the function returns 0
unfoldable pub get_termios_baud_rate : ℕ → Option Speed
get_termios_baud_rate baud_rate =
    if baud_rate == 9600
    then some b9600
    else if baud_rate == 19200
    then some b19200
    else if baud_rate == 38400
    then some b38400
    else if baud_rate == 57600
    then some b57600
    else if baud_rate == 115200
    then some b115200
    else if baud_rate == 230400
    then some b230400
    else if baud_rate == 460800
    then some b460800
    else if baud_rate == 500000
    then some b500000
    else none

-- The modes that ser_connect sets, before the speed.
unfoldable pub raw_modes : Termios → Termios
raw_modes tty = record tty {
  parenb = false;
  cstopb = false;
  cs8 = true;
  crtscts = false;
  clocal = true;
  cread = true;
  icanon = false;
  echo = false;
  echoe = false;
  echonl = false;
  isig = false;
  iexten = false;
  ixon = false;
  ixoff = false;
  ixany = false;
  ignbrk = false;
  brkint = false;
  parmrk = false;
  istrip = false;
  inlcr = false;
  igncr = false;
  icrnl = false;
  opost = false;
  onlcr = false;
  vtime = 0;
  vmin = 0;
}

unfoldable pub set_device_file : {P : Type 0} → List ℕ → LinuxSerialDevice P → LinuxSerialDevice P
set_device_file device_file d = record d { device_file = device_file }

-- What `write` returns, compared with the length.
abbrev pub is_count : Option ℕ → ℕ → Bool
is_count none n = false
is_count (some written) n = written == n

module _ {P : Type 0} (posix : Posix P) where
  -- ser_connect from the speed on
  unfoldable pub save_settings :
      ℕ → Termios → Option Speed → LinuxSerialDevice P → Bool × LinuxSerialDevice P
  save_settings fd tty none d = (false, d)
  save_settings fd tty (some speed) d =
      let (saved, p) =
        posix.tcsetattr fd (posix.cfsetospeed speed (posix.cfsetispeed speed tty)) d.system in
      (saved, record d { system = p })

  -- ser_connect from the settings that tcgetattr reads on
  unfoldable pub configure :
      ℕ → ℕ → Option Termios → LinuxSerialDevice P → Bool × LinuxSerialDevice P
  unfolding save_settings
  configure fd baud_rate none d = (false, d)
  configure fd baud_rate (some tty) d =
      save_settings fd (raw_modes tty) (get_termios_baud_rate baud_rate) d

  unfoldable pub ser_connect : LinuxSerialDevice P → ℕ → Bool × LinuxSerialDevice P
  unfolding configure
  ser_connect d baud_rate =
      let (fd, p) = posix.open_rdwr d.device_file d.system in
      let opened = record d { serial_port = fd; system = p } in
      if not (int32_leb 0 fd)
      then (false, opened)
      else (let (settings, p') = posix.tcgetattr fd p in
          configure fd baud_rate settings (record opened { system = p' }))

  unfoldable pub ser_flush : LinuxSerialDevice P → LinuxSerialDevice P
  ser_flush d = record d { system = posix.tcflush_both d.serial_port (posix.usleep 10000 d.system) }

  unfoldable pub ser_available : LinuxSerialDevice P → ℕ × LinuxSerialDevice P
  ser_available d =
      let (bytes_avail, p) = posix.fionread d.serial_port d.system in
      (bytes_avail, record d { system = p })

  unfoldable pub ser_read : LinuxSerialDevice P → Option ℕ × LinuxSerialDevice P
  ser_read d =
      let (byte, p) = posix.read_one d.serial_port d.system in (byte, record d { system = p })

  unfoldable pub ser_write : LinuxSerialDevice P → List ℕ → Bool × LinuxSerialDevice P
  ser_write d bytes =
      let (written, p) = posix.write d.serial_port bytes d.system in
      (is_count written (length bytes), record d { system = p })

  unfoldable pub ser_disconnect : LinuxSerialDevice P → LinuxSerialDevice P
  ser_disconnect d = record d { system = posix.close d.serial_port d.system }

  unfoldable pub platform_millis : LinuxSerialDevice P → ℕ × LinuxSerialDevice P
  platform_millis d =
      let ((sec, nsec), p) = posix.clock_monotonic d.system in
      (sec * 1000 + nsec / 1000000, record d { system = p })

  unfoldable pub linux_device : SerialDevice (LinuxSerialDevice P)
  unfolding ser_connect ser_flush ser_available ser_read ser_write ser_disconnect platform_millis
  linux_device = record {
    ser_connect = ser_connect;
    ser_flush = ser_flush;
    ser_available = ser_available;
    ser_read = ser_read;
    ser_write = ser_write;
    ser_disconnect = ser_disconnect;
    platform_millis = platform_millis;
  }
