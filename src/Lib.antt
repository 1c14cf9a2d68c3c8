-- ===== src/Lib.antt =====
-- Verification of the PadProxy firmware (firmware/src and firmware/include of the repository).
--
-- The firmware sits between a Bluetooth gamepad and a PC. Bluepad32 fills the gamepad slots; the main
-- loop reads slot 0, converts the report to a USB HID report for the PC and watches the guide button.
-- USB state changes, the debounced power LED, the guide button and a boot timer are the events of the
-- power state machine, whose actions press the power button and run the boot timer. A configuration
-- blob, version strings and the lines of the setup commands are read from outside. At the start the
-- firmware may join a WiFi network, ask GitHub for the latest release and, if that is newer, stream its
-- image into the other partition of the flash and reboot into it.
--
-- Which file models what:
--   Base            native numbers in C's widths, byte lists, bit laws, integers; no program code
--   Power           firmware/src/pc_power_state.c: `process` is pc_power_sm_process, one function for
--                   each handler; Power/Traces holds its theorems
--   Config          firmware/src/device_config.c: Config/Wire the CRC and the little-endian numbers,
--                   Config/Serial serialize and deserialize, Config/Valid the limits
--   Gamepad         firmware/include/gamepad.h; Gamepad/Convert firmware/src/bt_gamepad_convert.c and
--                   the conversion in bt_gamepad.c; Gamepad/Slot the slots and callbacks of
--                   bt_gamepad.c; Gamepad/Usb firmware/src/usb_hid_report.c
--   Firmware/Hal    firmware/src/pc_power_hal.c, a function as one step; Hal/Race its statements one by
--                   one, with alarms that interrupt between any two; theorem in Race/Rest, lemmas in
--                   Race/Slots, Race/Moves and Race/Statements
--   Firmware/UsbDevice  the state, the report sending and the descriptors of
--                   firmware/src/usb_hid_gamepad.c; theorem in UsbDevice/Host
--   Firmware/Loop   firmware/src/main.c: the static variables as one record, the callbacks and the
--                   pieces of the loop as functions from state to state; Loop/Alarms, Loop/Timers,
--                   Loop/Timeout, Loop/Wake and Loop/Debounce hold the theorems
--   Firmware/Main   the start and one pass of the loop of `main`; theorem in Main/Pass
--   Firmware/Lines  the setup line reader of firmware/src/main.c; theorems in Lines/Laws
--   Setup           firmware/src/setup_cmd.c: Setup/Text the C string functions; Setup/Strings,
--                   Setup/Laws, Setup/Hidden, Setup/Output, Setup/Bounds, Setup/Lines and Setup/Values
--                   the theorems
--   Ota/Version     firmware/src/ota_version.c
--   Ota             firmware/src/ota_update.c: Ota/Flash the target partition and the flash writer;
--                   Ota/Text the C string functions; Ota/Url, Ota/Headers and Ota/Json the parsers;
--                   Ota/Http the context and process_data; Ota/Client the lwIP callbacks, https_get
--                   and https_get_follow; Ota/Update ota_update_check_and_apply, `check_and_apply`.
--                   Flash/Bytewise, Flash/Image, Flash/Install, Url/Laws, Headers/Fields, Json/Names, Http/Body,
--                   Http/Segments, Http/Headers, Http/Response and the modules below Ota/Client and Ota/Update hold
--                   the theorems
-- Witnesses and runs stand in the modules named Tests.
--
-- How the code becomes definitions. A struct is a record, an enum a data type. A static variable is a
-- field of the state that a function takes and returns. A pointer that the code tests for NULL is an
-- Option; an out-parameter is returned beside the result. Unsigned arithmetic wraps by `u8`, `u16` and
-- `u32`; a signed product that overflows int32_t, undefined in C, is taken to wrap in two's
-- complement. A buffer is the list of its bytes, a C string the list of the bytes before its NUL; the
-- functions of the C library that the code calls are written out. Loops recurse on their list; the
-- digits of a number n are printed with n + 1 steps of fuel, and n has fewer digits than that. The copy
-- loop of the flash writer has a round for each byte, the search for a header a round for each byte of
-- the headers, and a loop that polls the network 20001 rounds, which is one for each millisecond up to
-- its deadline of 20 s and one more; `none` would be a loop that does not end. `atoi` of a number out of
-- range, undefined in C, is clamped.
--
-- Parameters. The Pico SDK's alarm pool is a record of its operations (Firmware/Hal); what is assumed
-- of it, `AddsActive`, is that adding an alarm in the future returns an id other than 0. Bluepad32's
-- button masks and TinyUSB's answers are arguments. The loop and the theorems on
-- the timers take a function of the hardware layer as one step; Hal/Race takes its statements one by
-- one. There the record `AlarmPool` holds what the SDK documents of its pool, and `NewId` that an id is
-- not handed out again while the program holds it; an add that fails for want of a free slot is not
-- covered. The state of main.c is changed by its callbacks, by polls and by alarms in any order
-- (Firmware/Loop/Timers).
--
-- In the update lwIP, mbedTLS, the WiFi driver and the boot ROM are parameters: an `Attempt` says how
-- their calls answer during a request, which callbacks each poll delivers and what the clock reads, a
-- `World` does so for a run; `Sleeps` says that sleep_ms sleeps as long as it is asked to. The calls that
-- change the flash, the radio and the network are logged in order. A server that answers is described by
-- `Serves` and `Answers` (below Ota/Client): its name is known or looked up, any number of polls deliver
-- nothing, and a poll may deliver several buffers. All that a successful update needs by `GoesWell`
-- (Ota/Update/Installs), and a release text by `Release` (Ota/Update/Release).
--
-- The constants and macros of TinyUSB from which the USB descriptors are built are a record; what is
-- assumed of them is `Documented` (Firmware/UsbDevice/Descriptors).
--
-- Not modelled: ota_accept_current_image, a single call of the boot ROM; log output, GPIO set-up beyond the
-- levels driven, and the library configuration headers.
pub mod Base
pub mod Config
pub mod Firmware
pub mod Gamepad
pub mod Ota
pub mod Power
pub mod Setup
