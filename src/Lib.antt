-- ===== src/Lib.antt =====
-- A voice assistant: the firmware for the ESP32-S3-BOX-3 in main/, and a client for a desktop
-- machine in doubao_c_version/. Paths are from the root of the repository.
--
-- Common    words of the machine, C strings, lists, the results of fallible code
-- Protocol  main/doubao_protocol.c and .h: frames, the response parser, gzip
-- WsClient  main/doubao_ws_client.c and .h: commands, reassembly, the life of the client
-- Opus      main/opus_processor.c and .h: the OGG/Opus decoder, and what it owns (Life)
-- Device    main/audio_hal.c (Ring, Hal) and main/afe_handler.c: the task that feeds the audio
--           front end (Afe.Feed), its set-up and end (Afe.Control)
-- App       main/app_main.c: the callbacks of the server and of the wake word, the main
--           state machine, the sending of captured audio (Transmit), its capture, which is
--           afe_fetch_task of main/afe_handler.c (Capture), the play task (Playback), WiFi,
--           time and app_main (Boot)
-- Desktop   doubao_c_version/protocol.c (Gzip, Response), client.c and client.h (Init, Send,
--           SendQueue, Callback, Command, Requests, Lifecycle), config.h (SessionJson),
--           audio.c and .h (Audio.Queue, Audio.Decode, Audio.Streams) and main.c (Session, Program);
--           Conversation has requests and writable callbacks in any order
-- Tests     the theorems at concrete inputs
--
-- The main task of App connects a WsClient, asks it for sessions and ends them. The
-- client sends the commands that Protocol frames, puts received chunks together, parses
-- them and calls back into App, which hands audio to Opus and reacts to events. Desktop
-- speaks the same protocol over libwebsockets: its commands go through a send queue, which
-- the callback of the library empties, and received messages go to Session, which decodes
-- audio for the play queue. Structures and constants that the two programs have
-- in common are those of Protocol.
--
-- A byte is a natural number, a text its bytes in front of the terminating zero, a pointer
-- `none` or `some`. Numbers of 32 bits, `size_t` among them, wrap around where the code
-- lets them; `size_t` has 64 bits in Desktop. A function that reports failure returns `Exec`:
-- `ok`, the error return `fail`, or `fault` for a read, copy or write outside its buffer and for the
-- release of what is not in use. Loops
-- are structural recursion, but for some that run on fuel, and out of fuel count as a fault:
-- the one around zlib's `inflate` in Desktop.Gzip, for which one round more than there are
-- bytes to come is enough, the one that empties the play queue in Desktop.Audio.Queue,
-- which gets one round more than there are nodes, and those that take a ring buffer's bytes
-- in Device, for which one round more than there are queued bytes is enough. The wait for the
-- time has 15 rounds, which is its own limit, and the reading of an audio file in
-- Desktop.Program as many as the file has bytes, of which each takes one or more; there out of
-- fuel is the end of the loop. Bytes that a theorem reads as bytes are
-- not restricted unless it says so.
--
-- What is not in the repository is a parameter: `Platform` (miniz, the allocators, the
-- clock), `Host` (zlib and the allocator of the desktop), `Lws` (libwebsockets), `Codec`
-- (libogg, libopus), `CJson`, the transport that sends a frame, `random`
-- for esp_random, and which calls of ESP-IDF, ESP-SR, libopus and PortAudio succeed. `Blocks` stands for the heap and the
-- handles. Of the tasks, the pieces between two waits are functions of their own
-- (`fsm_resume`, `on_ws_receive`, `on_wake_word`), each run at one go; `App.System` interleaves
-- them in any order.
--
-- Not modelled: logging, the drawing of main/ui_lcd.c (app_main keeps the texts that it shows), the network calls of wifi_init_sta and the
-- GPIO calls of app_main, the file that doubao_c_version/audio.c writes, the threads
-- and the shutdown of doubao_c_version/main.c, the Python demo, and the copies of ESP-IDF
-- components in components/.
pub mod Common
pub mod Protocol
pub mod WsClient
pub mod Opus
pub mod Device
pub mod App
pub mod Desktop
pub mod Tests
