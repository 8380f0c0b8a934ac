-- ===== src/Lib.antt =====
-- The mPMT test stand: the firmware of the two-axis gantry on an Arduino Due, and the serial protocol
-- through which a PC commands it.
--
-- The program. firmware/src/mPMTTestStand.cpp holds the state of the stand and runs its loop: update
-- the status from the axes, poll the serial port, handle a message. The axes live in
-- firmware/lib/Gantry/src/Axis.cpp; their interrupt handlers count the pulses of the encoders, follow
-- a velocity profile and stop at the limit switches. shared/TestStandComm is the protocol stack:
-- SerialTransport frames messages over a SerialDevice, SerialSession acknowledges each message, and
-- TestStandComm with its two subclasses (firmware/lib/Comm, shared_linux/TestStandCommHost) builds
-- and reads the messages of the application. On the PC, the MIDAS front end feArduino moves the gantry
-- in millimetres on requests in a database, and the front end feScan steps it over the points of a
-- scan; MessageTerminal is a program that sends one message for each line that is typed.
-- PseudoGantry is a second board that answers the firmware as the gantry would.
--
-- The files.
-- - Prelude: shared names, Boolean tests, lists and machine words over the native numbers.
-- - Shared: shared/shared_defs.h, shared/TestStandMessages.h, and the enumerations of Gantry.h,
--   Calibration.h and TemperatureDAQ.h.
-- - Serial: the data of shared/TestStandComm. Serial/Device: SerialDevice.h as a record of operations
--   and the laws that the layers rely on. Serial/Exec: actions on a TestStandComm, which are `none`
--   where the fuel of a loop ran out; Serial/Exec/Keeps: rules for invariants of actions.
--   Serial/Transport, Serial/Session, Serial/Comm, Serial/Controller, Serial/Host: the layers, one
--   function for each method. Serial/Codec: the byte order of TestStandComm.h. Serial/Payloads: the
--   payloads of the two sides against each other. Serial/Session/Delivery and Conversation,
--   Serial/Host/Replies: a message that waits, and a request that is answered.
-- - Gantry/Hardware, Gantry/Timer, Gantry/Kinematics, Gantry/State, Gantry/Axis, Gantry/Isr: the files
--   of firmware/lib/Gantry/src. The calls of the hardware libraries are recorded on a log.
-- - Thermistor: firmware/lib/TemperatureDAQ/src.
-- - Stand: the data and the status machine of firmware/src/mPMTTestStand.cpp; Stand/Handlers: its
--   handlers, `execute` and `setup`. An action also says whether the firmware carries on or has used
--   the null pointer of get_axis. Stand/Covered, Safety, Loop, Moments: when an axis may move;
--   Stand/Homing: the status machine around homing, stops and moves; Stand/Phases, Homed and
--   Ends: the phases of the homing routine, and what the events of a homing do to them; Stand/Orders, Remote and
--   Calibrated: from the bytes of a message to the axes and to the calibration.
-- - Firmware: firmware/src/main.cpp with firmware/src/conf.h and the static objects;
--   Firmware/Status: what holds of the whole program.
-- - Serial/Device/Arduino, Serial/Device/Linux, Serial/Device/Raw: the two implementations of
--   SerialDevice, over the Arduino core and over POSIX as parameters with named laws;
--   Serial/Device/Connect: what the host asks of the system when it opens its port.
-- - Pseudo: PseudoGantry, the board that stands in for the gantry, with its handlers as functions of
--   the levels and the time that they read; Pseudo/Switches, Pseudo/Ratio: its position and its encoder.
-- - Frontends: what the MIDAS front ends share. Frontends/Scan: the data and the points of
--   feScan/feScan.cxx; Frontends/Scan/Run: its callbacks; Frontends/Scan/Grid, Progress,
--   Within, Visits and Idle: the points, one call of the loop, a whole run, and the time between runs.
--   Frontends/Helper: feArduino/ArduinoHelper.cxx; Frontends/Helper/Course, Moves and Goal: the limits
--   of a move, what it asks of the controller, and where it ends.
--   Frontends/Arduino: the globals of feArduino/feArduino.cxx; Frontends/Arduino/Callbacks: its
--   callbacks; Frontends/Arduino/Respond, Answers and Start: what a request leaves in the database,
--   and what a start takes from it.
-- - Terminal: the data of MessageTerminal/MessageTerminal.cxx. Terminal/Stream: std::istringstream as
--   far as the program uses it; Terminal/Moves: how `move` reads its line; Terminal/Commands, Replies,
--   Handlers and Program: the command table, what is printed, the commands, and the loop with `main`.
--   Terminal/Lookup, Numbers, MoveLines, Answers, Waiting, Effects and Sessions: the table, numerals, a
--   line for `move` and its answer, the connection, what a command leaves alone, and how the loop ends.
-- - Examples: concrete devices, and the theorems at concrete inputs.
--
-- Numbers are natural numbers below the bound of their C type; uint8_t, uint32_t and uint64_t wrap
-- where the source can wrap. An int32_t that counts pulses is its bit pattern. A double is its eight
-- bytes, and its arithmetic is a parameter, as is that of float.
--
-- Fuel. A poll of the transport takes one unit for each byte in the receive buffer and one more; the
-- blocking receive one for each poll. `recv_message-Returns` gives enough for both. The loops of `setup`
-- and of arduino_connect that wait for the other side take one for each pass, and so does the wait and
-- the loop of the terminal; the source puts no bound on them.
--
-- Not modelled. Interrupts inside of a handler: an interrupt of an axis is a step of its own, between
-- the two halves of a pass of the loop. The web pages and the debug output are left out. What is printed
-- is left out too, but for the terminal, which records the calls with their arguments; how printf
-- writes a number is not modelled.
pub mod Prelude
pub mod Shared
pub mod Serial
pub mod Gantry
pub mod Thermistor
pub mod Stand
pub mod Pseudo
pub mod Frontends
pub mod Terminal
pub mod Firmware
pub mod Examples
