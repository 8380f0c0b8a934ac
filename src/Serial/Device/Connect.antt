-- ===== src/Serial/Device/Connect.antt =====
-- What the host asks of the system when it opens its serial port. POSIX lets tcsetattr report success
-- when it made any of the changes, so nothing is said of the settings that the terminal then has.
use mpmt_test_stand.Prelude.{
  ℕ, ◌<◌, ◌≡◌, ◌↔◌, refl, sym, ap, ◌∙◌, true, false, Option, none, some, arith, int32_leb, u32,
  Bool-cases, inl, inr,
}
use mpmt_test_stand.Serial.Device.Linux.{
  Speed, b9600, b19200, b38400, b57600, b115200, b230400, b460800, b500000, Termios, Posix,
  LinuxSerialDevice, get_termios_baud_rate, raw_modes, save_settings, configure, ser_connect,
}

-- The settings of a raw line that never waits, flag by flag; what has no name is as it was.
pub record IsRaw (before tty : Termios) : Type 0 where
  pub parenb_is : tty.parenb ≡ false
  pub cstopb_is : tty.cstopb ≡ false
  pub cs8_is : tty.cs8 ≡ true
  pub crtscts_is : tty.crtscts ≡ false
  pub clocal_is : tty.clocal ≡ true
  pub cread_is : tty.cread ≡ true
  pub icanon_is : tty.icanon ≡ false
  pub echo_is : tty.echo ≡ false
  pub echoe_is : tty.echoe ≡ false
  pub echonl_is : tty.echonl ≡ false
  pub isig_is : tty.isig ≡ false
  pub iexten_is : tty.iexten ≡ false
  pub ixon_is : tty.ixon ≡ false
  pub ixoff_is : tty.ixoff ≡ false
  pub ixany_is : tty.ixany ≡ false
  pub ignbrk_is : tty.ignbrk ≡ false
  pub brkint_is : tty.brkint ≡ false
  pub parmrk_is : tty.parmrk ≡ false
  pub istrip_is : tty.istrip ≡ false
  pub inlcr_is : tty.inlcr ≡ false
  pub igncr_is : tty.igncr ≡ false
  pub icrnl_is : tty.icrnl ≡ false
  pub opost_is : tty.opost ≡ false
  pub onlcr_is : tty.onlcr ≡ false
  pub vtime_is : tty.vtime ≡ 0
  pub vmin_is : tty.vmin ≡ 0
  pub others_is : tty.others ≡ before.others

-- The baud rate of a speed.
abbrev pub rate : Speed → ℕ
rate b9600 = 9600
rate b19200 = 19200
rate b38400 = 38400
rate b57600 = 57600
rate b115200 = 115200
rate b230400 = 230400
rate b460800 = 460800
rate b500000 = 500000

raw_modes-IsRaw : (before : Termios) → IsRaw before (raw_modes before)
unfolding raw_modes
raw_modes-IsRaw before = record {
  parenb_is = refl;
  cstopb_is = refl;
  cs8_is = refl;
  crtscts_is = refl;
  clocal_is = refl;
  cread_is = refl;
  icanon_is = refl;
  echo_is = refl;
  echoe_is = refl;
  echonl_is = refl;
  isig_is = refl;
  iexten_is = refl;
  ixon_is = refl;
  ixoff_is = refl;
  ixany_is = refl;
  ignbrk_is = refl;
  brkint_is = refl;
  parmrk_is = refl;
  istrip_is = refl;
  inlcr_is = refl;
  igncr_is = refl;
  icrnl_is = refl;
  opost_is = refl;
  onlcr_is = refl;
  vtime_is = refl;
  vmin_is = refl;
  others_is = refl;
}

IsRaw-unique : (before tty : Termios) → IsRaw before tty → raw_modes before ≡ tty
unfolding raw_modes
IsRaw-unique before tty h = cc

speed_of_rate : (speed : Speed) → get_termios_baud_rate (rate speed) ≡ some speed
unfolding get_termios_baud_rate
speed_of_rate b9600 = refl
speed_of_rate b19200 = refl
speed_of_rate b38400 = refl
speed_of_rate b57600 = refl
speed_of_rate b115200 = refl
speed_of_rate b230400 = refl
speed_of_rate b460800 = refl
speed_of_rate b500000 = refl

get_termios_baud_rate-some :
    (baud_rate : ℕ) (speed : Speed)
    → get_termios_baud_rate baud_rate ≡ some speed
    → rate speed ≡ baud_rate
unfolding get_termios_baud_rate
get_termios_baud_rate-some baud_rate b9600 e = ground (arith, e)
get_termios_baud_rate-some baud_rate b19200 e = ground (arith, e)
get_termios_baud_rate-some baud_rate b38400 e = ground (arith, e)
get_termios_baud_rate-some baud_rate b57600 e = ground (arith, e)
get_termios_baud_rate-some baud_rate b115200 e = ground (arith, e)
get_termios_baud_rate-some baud_rate b230400 e = ground (arith, e)
get_termios_baud_rate-some baud_rate b460800 e = ground (arith, e)
get_termios_baud_rate-some baud_rate b500000 e = ground (arith, e)

module _ {P : Type 0} (posix : Posix P) where
  -- The calls of a ser_connect that succeeds, in their order.
  abbrev pub Connected : LinuxSerialDevice P → ℕ → LinuxSerialDevice P → Type 0
  Connected d baud_rate d' =
      (fd : ℕ) × (opened : P) × (before : Termios) × (read : P) × (tty : Termios) × (speed : Speed)
      × (configured : P) × (posix.open_rdwr d.device_file d.system ≡ (fd, opened))
      × (u32 fd < 2147483648)
      × (posix.tcgetattr fd opened ≡ (some before, read))
      × IsRaw before tty
      × (rate speed ≡ baud_rate)
      × (posix.tcsetattr fd (posix.cfsetospeed speed (posix.cfsetispeed speed tty)) read
          ≡ (true, configured))
      × (d' ≡ record d { serial_port = fd; system = configured })

  save_settings-true :
      (fd : ℕ) (tty : Termios) (speed : Option Speed) (d d' : LinuxSerialDevice P)
      → save_settings posix fd tty speed d ≡ (true, d')
      → (chosen : Speed) × (configured : P) × (speed ≡ some chosen)
        × (posix.tcsetattr fd (posix.cfsetospeed chosen (posix.cfsetispeed chosen tty)) d.system
            ≡ (true, configured))
        × (d' ≡ record d { system = configured })
  unfolding save_settings
  save_settings-true fd tty none d d' e = cc
  save_settings-true fd tty (some speed) d d' e =
      let (saved, p) =
        posix.tcsetattr fd (posix.cfsetospeed speed (posix.cfsetispeed speed tty)) d.system in
      let ok : saved ≡ true = cc in (speed, p, refl, ap (λ b. (b, p)) ok, sym (ap (λ r. r.1) e))

  configure-true :
      (fd baud_rate : ℕ) (settings : Option Termios) (d d' : LinuxSerialDevice P)
      → configure posix fd baud_rate settings d ≡ (true, d')
      → (before : Termios) × (settings ≡ some before)
        × (save_settings posix fd (raw_modes before) (get_termios_baud_rate baud_rate) d
            ≡ (true, d'))
  unfolding configure
  configure-true fd baud_rate none d d' e = cc
  configure-true fd baud_rate (some before) d d' e = (before, refl, e)

  ser_connect-calls :
      (d d' : LinuxSerialDevice P) (baud_rate : ℕ)
      → ser_connect posix d baud_rate ≡ (true, d')
      → Connected d baud_rate d'
  unfolding ser_connect
  ser_connect-calls d d' baud_rate e =
      let (fd, opened) = posix.open_rdwr d.device_file d.system in
      let (settings, read) = posix.tcgetattr fd opened in
      let port : LinuxSerialDevice P = record d { serial_port = fd; system = read } in
      elim (Bool-cases (int32_leb 0 fd)) [
        | inl ok ↦
            (let (before, was, saved) = configure-true fd baud_rate settings port d' (rw ok at e) in
              let (speed, configured, known, set, last) =
                save_settings-true fd (raw_modes before) (get_termios_baud_rate baud_rate) port d'
                  saved in
              (
                fd,
                opened,
                before,
                read,
                raw_modes before,
                speed,
                configured,
                refl,
                ground (arith, ok),
                ap (λ s. (s, read)) was,
                raw_modes-IsRaw before,
                get_termios_baud_rate-some baud_rate speed known,
                set,
                last,
              ))
        | inr failed ↦ (let no = rw failed at e in cc)
      ]

  calls-ser_connect :
      (d d' : LinuxSerialDevice P) (baud_rate : ℕ)
      → Connected d baud_rate d'
      → ser_connect posix d baud_rate ≡ (true, d')
  unfolding ser_connect configure save_settings
  calls-ser_connect d d' baud_rate
        (fd, opened, before, read, tty, speed, configured, eo, fits, eg, raw, es, et, last) =
      let ok : int32_leb 0 fd ≡ true = ground arith in
      let known : get_termios_baud_rate baud_rate ≡ some speed =
        ap get_termios_baud_rate (sym es) ∙ speed_of_rate speed in
      let asked = IsRaw-unique before tty raw in
      rw (eo, ok, eg, known, asked, et) (ap (λ x. (true, x)) (sym last))

  pub ser_connect-Connected :
      (d d' : LinuxSerialDevice P) (baud_rate : ℕ)
      → (ser_connect posix d baud_rate ≡ (true, d')) ↔ Connected d baud_rate d'
  ser_connect-Connected d d' baud_rate =
      (ser_connect-calls d d' baud_rate, calls-ser_connect d d' baud_rate)
