-- ===== src/Lib.antt =====
-- SKey, a Vietnamese input method for Linux: an Fcitx5 addon in C++ (src/) over a Rust transformation
-- engine that it reaches through a C interface. The addon composes words key by key, corrects text that is
-- already in the application by injected backspaces, and reads back what the application shows through the
-- accessibility bus or the surrounding text. This library models the parts that carry its own logic; paths
-- are from the root of the repository.
--
-- Engine (src/vietnamese.h, vietnamese.cpp, viet_recompose.cpp, viet_undo.cpp, viet_restore.cpp, viet_util.h):
--   VietnameseEngine is a record over the handle of the foreign engine. processKey, backspace, setRawInput,
--   reset and the setters are functions on it; the C interface is the record Core, a parameter on which
--   nothing is assumed. Engine/Letters has the helpers on Telex text.
-- Injector (src/uinput_injector.cpp, injection_request.h): backspaces, shiftSelect, cancel, start and the
--   destructor, and the worker thread as a machine whose phases are the places where the mutex is released.
--   Injector/Trace interleaves them; Injector/Send is the loop that writes one key with its retries.
-- DeleteAck (src/uinput_delete_ack.h): the engine starts it with the text that the injected backspaces have
--   to leave, and feeds it the snapshots that come back until the deletion is confirmed or times out.
-- TextCache (src/a11y_text_cache.h): the cache that the accessibility monitor fills and the engine reads.
--   TextCache/World interleaves the focus events, the polls and the late replies.
-- Cursor (src/surrounding_cursor.h): the remembered byte offset of the cursor in the surrounding text.
-- Sheets (src/sheets_cell_tracker.h): the cell of a spreadsheet that has the focus.
-- Work (src/a11y_work_policy.h): when to ask an application again, and what its widgets' ancestors were.
-- AppDelay (src/app_delay_key.h): the keys and the values of the delays that a user sets for an application.
-- Timing (src/input_timing.h): the estimate of a round trip and the delay that follows from it; the
--   arithmetic on doubles is a parameter.
-- Charset (src/charset.cpp, charset.h): the conversion to legacy charsets around the encoder of the Rust
--   engine, which is a parameter.
-- Icons (src/icon_resolver.cpp, icon_resolver.h): the file that shows an icon theme; the file system is a
--   parameter.
-- Browser (src/browser_identity.h): the name of a program and the browsers that are known by it.
-- Settings (src/settings/config_io.cpp, config_io.h): the files of the settings program. Settings/Lines cuts a
--   file into lines, keys and values; Settings/Conf is skey.conf, Settings/Macros the macros, Settings/Trigger
--   the trigger key of fcitx5, Settings/Apps the modes and delays of the applications, Settings/Words the
--   user's dictionary, which the addon loads too. A file is its bytes,
--   and `none` is a file that cannot be opened; a writer is the bytes it writes. Texts outside ASCII stand as
--   their UTF-8 bytes.
-- Delays (src/engine.cpp, engine.h): the statistics of round trips that the addon keeps for each application,
--   from their measurement to the file and back. The averages on doubles are a parameter.
-- Deferred (src/engine.cpp, engine.h): the commit that waits until the application has deleted what it
--   replaces. The application is the surrounding text that each step sees and the list of effects on it.
-- History (src/engine.cpp, engine.h): the words that are remembered behind their boundaries. Taking one back
--   types its keys again into the model of VietnameseEngine.
-- Expansion (src/engine.cpp): the table of macros that the addon looks words up in.
-- Uinput (src/engine.cpp, engine.h): the replacement by injected keys. Uinput/Delay is the delay before its
--   commit, Uinput itself the keys that come back, the safety timer and the queue of later keys, and
--   Uinput/Finish the commit with its waits. It uses
--   DeleteAck, Timing and the effects of Deferred.
-- Modes (src/engine.cpp, engine.h, config.h): the choice of the output mode for a context, and when it is
--   made again.
-- Native (src/native_injector.cpp): the queue and the batches of the worker that injects keys through XTest.
-- Base: Boolean tests, lists and byte strings over native numbers, w-bit additions, tables, decimal numerals
--   with strtol, and the UTF-8 test that the cursor arithmetic needs. Base/Chars is a text as a
--   list of its characters.
--
-- How the code corresponds. A method that holds its mutex throughout is one function from state to state; a
-- bool result with reference arguments is an option or a pair. std::string is a list of bytes, c_str cuts it
-- at the first NUL, std::unordered_map is an association list. Unsigned arithmetic is reduced modulo 2^64 or
-- 2^32 where the source may wrap around; byte counts, and the int indices of tryToneKeyUndo, are taken to
-- stay below 2^31. The printer of decimal numerals runs on fuel n + 1 for the number n, which has fewer
-- digits than that; every other loop is structural. strtol saturates at the bounds of a 64-bit long.
-- Time, device results and the answers of applications are arguments of the steps; so is what commitText
-- answers, which loses a text when another cell is selected.
--
-- What is not modelled: the Rust engine (not in this repository), the rest of the addon object in
-- src/engine.cpp (the key handlers, which drive these parts from Fcitx5 events, the sending of a batch and
-- the replay of held keys), the transports and the libei session of src/native_injector.cpp,
-- src/a11y_monitor.cpp (D-Bus and glib), src/x11_app_name.cpp and src/process_markers.h (queries of the X
-- server and of /proc), src/input_field_policy.h, and under src/settings/ the Qt windows and the updater,
-- with the paths of the settings files, the names of keys, the icons and the restart of fcitx5.
-- src/viet_fallback.cpp is not part of the build. The blocking itself of condition variables is not
-- modelled, only the predicates they wait on and the notifications.
pub mod Base
pub mod TextCache
pub mod DeleteAck
pub mod Engine
pub mod Sheets
pub mod Work
pub mod AppDelay
pub mod Injector
pub mod Cursor
pub mod Timing
pub mod Charset
pub mod Icons
pub mod Browser
pub mod Settings
pub mod Delays
pub mod Deferred
pub mod History
pub mod Expansion
pub mod Uinput
pub mod Modes
pub mod Native
