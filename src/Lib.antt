-- ===== src/Lib.antt =====
-- OpenTrickler controller: the firmware's learning tuner, its throw statistics, its configuration store,
-- its scale drivers with their window of weights, its profiles, the charge mode, the motors' speed task,
-- the servo gate, the cleanup mode, the learn mode and the firmware update.
--
-- The controller trickles powder onto a scale. A charge runs a bulk tube, hands over to a fine
-- tube, and ends near a set weight. After each charge ("throw") the charge mode passes the time and
-- the error to the tuner (src/learn_tuner.c), which changes the live profile in small probes; the
-- throws of the charge and learn modes go to the session's log (src/session_stats.c). The learn mode
-- (src/learn_mode.cpp) measures both tubes and writes a first profile. Profiles and settings are structs
-- that load_config and save_config (src/common.c) keep on an EEPROM (src/cat24c256_eeprom.c,
-- src/eeprom.c).
--
-- Prelude: native numbers, Boolean tests, lists, wrap-around increments, integers.
-- Float: floats as an interface. `Floats F` has the float operations, the double operations and
-- the conversions, as one record; no theorem assumes a law of rounding. The laws that a theorem
-- on speeds needs (that `<` is irreflexive, that a failed test of `<` gives `<=`, and so on) are its named
-- hypotheses, and Float/Fixed has a fixed-point instance at which every witness is evaluated.
-- Tuner: src/learn_tuner.c. Tuner/State has the structs, Arm the statistics of an arm, Window the
-- landing window, Knob the limits and the knobs, Probe the probes and their verdicts, and Observe
-- tuner_observe. The state passes explicitly: an operation that changes the tuner and the live
-- profile returns both.
-- SessionStats: src/session_stats.c. The static variables are one record; the mutex makes an
-- operation one step, and the tick count is an argument.
-- Eeprom: Driver has src/cat24c256_eeprom.c with eeprom_read and eeprom_write, over a parameter
-- for the I2C transfers, the wait behind a page and malloc; Memory shows that the driver writes what it
-- is asked to, given the data sheet's promise `IsMemory`; Crc has software_crc32, and Config the functions
-- save_config and load_config and the list of save handlers.
--
-- Scale: the listeners of src/and_scale.c and its kin, one byte at a time (Frame, Drivers, Line),
-- and the settings of src/scale.c (Config). strtof and nanf are a parameter; Framing, Header and
-- Lines say how a listener finds the frames.
--
-- RingBuffer: the window of weights of src/FloatRingBuffer.cpp, by which the charge and learn modes
-- judge whether the scale is steady. Window has it as the last values, Queue as a queue.
--
-- Profile: the table of profiles of src/profile.c and the request that selects and edits one, over
-- the C library's number readers.
--
-- ChargeMode: src/charge_mode.cpp. State has the settings and brackets, Motors the commands that go
-- to src/motors.c, World the machine that the phases share, Phase the shape of a phase. Charge is the
-- loop of charge_mode_wait_for_complete, one pass at a time, and Complete what stands around it;
-- Settle, Removal and Zero are the other phases, Learn the calls of the tuner, Menu the state machine.
-- What the world answers is an input: a loop runs on a list of passes (button, reading, ticks) and
-- waits, as a value of its own, where the list ends before it does. So no fuel is chosen; the theorems
-- of Charge/Stop and Settle/Ends say which passes end a loop. Commands are a list, newest first, and a
-- claim on a motor is one on the speed that it was last told.
--
-- Request, below ChargeMode, has the settings' load and their REST request.
-- Stepper: src/motors.c's task that carries out a speed, over a parameter for lroundf.
-- ServoGate: src/servo_gate.c, requests and the control task, whose ramp runs on the times it reads.
-- CleanupMode: src/cleanup_mode.cpp, its events and requests in any order.
-- LearnMode: src/learn_mode.cpp. The mode runs each tube at a ladder of speeds, fits flows and lags to
-- the throws, searches a grid of speeds for a profile, writes it into the selected one and confirms it
-- by charging. State has the statics and the results, Cup the waits and the emptying of the cup, Throw
-- throw_for_time, Ladder the two ladders, Fit the sums and the prediction, Search the four nested loops of
-- fit_profile, Proposal what stands around them, Confirm the rounds, Menu learn_mode_menu, and Request the
-- settings and the two requests. A phase gets a script, the world's answers in the order in which it
-- asks; `left` stands for `return false`. The messages are not modelled.
--
-- Ota: src/ota.c. The hooks that lwIP's server calls for an upload, and the sector buffer; Image has the
-- checksum, the request and the copy over the running image. The SDK's flash calls are the parameter
-- `Flash`, and Memory states what they promise. Sector and Staging follow the bytes into the flash, Upload
-- runs an upload as the server makes it, Verified takes hooks and requests in any order, and Install ends
-- at the reboot. A buffer's loop has its length as fuel, since each pass copies at least one byte.
--
-- Numbers are naturals with the wrap-around of the C types written out. The loops run on a list, on
-- the pages left or on the tries left, so no fuel is chosen: the count is the loop's own.
--
-- Not modelled: the text that the REST handlers and tuner_status print; the display with the render
-- tasks, the menus, the web server, the wireless driver, and the motors' UART and PIO set-up.
pub mod Prelude
pub mod Float
pub mod Tuner
pub mod SessionStats
pub mod Eeprom
pub mod Scale
pub mod RingBuffer
pub mod Profile
pub mod ChargeMode
pub mod ServoGate
pub mod Stepper
pub mod CleanupMode
pub mod LearnMode
pub mod Ota
