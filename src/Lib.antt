-- ===== src/Lib.antt =====
-- The light controller of an electric piano: a Windows program reads MIDI messages and keys, and
-- sends bytes over a serial port to an Arduino, whose sketch lights up a strip of 288 LEDs.
--
-- The program is Effect_Piano/Effect_Piano.cpp, the sketch Effect_Piano_v1.3.0.ino. They interact by
-- nothing but the bytes on the port: a command byte, behind it the arguments of the command, and the
-- numbers of the keys of the piano.
--
-- Host: the program. Its globals are the record `Host` of Host/State, each function a function on it.
--   Host/Link: `pta` and `push`, with `op`, `cl`, `data` and what `WriteFile` has put on the port.
--   Host/Text: `scanf` and `cin.getline` on lines of words, `read_num`.
--   Host/Settings: the globals that `read_set` reads, `read_set` and `print_set`.
--   Host/Palette: `color`, `get_bg_color`, `read_color` and what `write_color` writes.
--   Host/State: all globals, the files beside the program, `write_set`, `write_color`.
--   Host/Lights: `refresh_bg`, `start`, `effect1`.
--   Host/Presets: `show_set`, `select_set`, and `read_set` and `read_color` on the globals.
--   Host/Midi: the part of the main loop behind its keys: cooldowns, MIDI messages, the timer.
--   Host/Keys: the keys of the main loop of `main_test_input`, and a round of the loop.
--   Host/Console: `con_mode`, by its `type` and the words that are typed.
--   Host/Serial: `serialopen`.
--   Host/Devices: the list of the MIDI devices, `get_number`, the place of the window.
--   Host/Main: `main`, `main_test_input` and its loop with the console, on the rounds that are given.
-- Sketch: the sketch. Its globals are the record `Sketch` of Sketch/State.
--   Sketch/Serial: `Serial.read ()` and the loops that wait for a byte.
--   Sketch/Commands: `setup` and the cases of the `switch` in `loop`.
--   Sketch/Keys: what stands behind the `switch`: the rainbow, the fading, the keys, and below it
--   the sums of the shares of the keys, which each LED shows.
--   Sketch/Loop: `loop`, over and over. Sketch/Steps, Sketch/Obeys and Sketch/Orders: the relation
--   between the bytes that are taken and the states in front of `loop`.
-- System: both together, by the bytes that the program writes and the sketch takes. System/Mixing
--   has the colours of the settings, System/Start is about `start`, System/Agrees, Moves, Colors and Keys about the keys that switch something,
--   System/Requests and Asks about the console, System/Round and Session about whole rounds,
--   System/Begin and PowerOn about what comes in front of them, from the files of a preset on,
--   System/Select about presets chosen later, System/Play and Recital about the piano,
--   System/Rainbow and Shows about `M`, System/Twice about the background, System/Zero about a 0
--   that is not written.
-- Base: lists, Booleans and integers on the native numbers. Tests: concrete states and inputs.
--
-- Errors. Where the program or the sketch leaves the range of an array that it writes to, reads a
-- variable that has no value or divides by 0, the model has no result: `none`, `fails` or `fault`.
-- Reading `color` or `name_set` out of range gives what the memory holds there.
--
-- Fuel. `push` calls itself as often as ints wait, which are fewer than LODATA = 200, so it has 200
-- rounds. `feed` runs `loop` once for each byte, `run_console` its loop once for each word and
-- `get_number` its loop once for each line, so as many rounds as there are bytes, words or lines are
-- enough; all other recursion is structural. `main_loop` has the rounds that are given.
--
-- Ints are integers with no bound: an overflow of `kbcd` and the like is not modelled. A byte is the
-- int modulo 256. The float in `get_bg_color` is a quotient by 256, so its products are exact below
-- 2 ^ 24, and the model computes them as integers. `show log` reads an int into a `bool`; the model
-- takes any int but 0 for true.
--
-- The queue is in order when its indices and its array are in range and the byte that stands behind
-- `commu`, which `strlen` reads, is 0: `commu` has one element, and the program relies on that byte.
-- That nothing, or something, waits in the queue says that it is in order, too.
--
-- A number of channels beyond the array, which the program would read past its end, is taken as the
-- whole array. Where `serialopen` ends without a `return`, which is undefined, it has `no_value`.
--
-- The sketch agrees with the settings when the ring, the ends, the brightness, the extension, the
-- remaining of keys and the background are as they say, with the number of LEDs and the time while
-- these are on; and when, with the background on, its colour is that of the settings at its brightness
-- and the keys have the difference of their colour to it, or, with it off, the keys have the colour of
-- the settings or still the difference of it to the background that was on before (see System/Twice).
--
-- Parameters: FastLED's additions and subtractions of bytes, `clear` and `fill_rainbow`; the number
-- that `scanf ("%f")` reads, in tenths; what the keyboard, `CreateFile`, `Pm_Poll`, `Pm_Read` and
-- `Pm_GetDeviceInfo` give, and what is typed.
--
-- Not modelled: what is printed, but for the files and the tables of the colours and the devices,
-- the finding of the console window, the help page, the error flags of `cin`, that a failed
-- `Pm_Read` ends the program at its `assert`, that `stdin` stays with the file of the colours when
-- `read_color` finds none, `Sleep` and the timing of the port, the settings of the port, that
-- lines longer than the buffers of `get_number` and the console are cut, and that `freopen` drops
-- what is typed and not read yet. The keys are looked at once in a round. pm_common and porttime
-- are copies of PortMidi and PortTime, from which the program takes its messages.
pub mod Base
pub mod Host
pub mod Sketch
pub mod System
mod Tests
