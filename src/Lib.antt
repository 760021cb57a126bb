-- ===== src/Lib.antt =====
-- kerchunkd, the repeater controller daemon: its control logic as functions on explicit state.
--
-- The parts that are modelled, and how they act together:
--
--   TxActivity   src/kerchunk_txactivity.c   the main loop calls `kerchunk_txactivity_tick` every
--                20 ms; BEGIN and END become the COR events, and the flag that the audio thread and
--                the repeater read.
--   AudioTick    src/kerchunk_audio_tick.c   the audio thread calls `Rx.tick_rx` for each captured
--                frame and then `Tx.tick_tx`, and performs the actions that this returns: it takes
--                and lets go PTT, and drains the queue.
--   TxState      src/kerchunk_tx_state.c     the label of the audio thread's state for the log and
--                the web pages.
--   Queue        src/kerchunk_queue.c        the outbound audio: producers add items, the audio
--                thread drains frames.
--   Timer        src/kerchunk_timer.c        the main loop calls `tick`, which runs the callbacks of the
--                modules' timers that are due.
--   Core         src/kerchunk_core.c         what modules call: the PTT count, the audio taps, the
--                emergency flag and the raised sessions.
--   Repeater     modules/mod_repeater.c      the state machine of a session: events, its four timers and
--                its reference on PTT; it calls `Timer` and `Core.Ptt`.
--   Events       src/kerchunk_events.c       the event bus through which the parts call the modules.
--   Sched        src/kerchunk_sched.c        schedules on the wall clock; the main loop calls
--                `sched_tick`.
--   AudioRing    src/kerchunk_audio_ring.c   the rings between the audio thread and the device callback,
--                as sequences of calls and as interleaved steps of their two threads.
--   Text         src/kerchunk_config.c       C strings as bytes, and `trim`.
--   Config       src/kerchunk_config.c       the configuration: the text of the file, the table of
--                entries, durations. The modules' `configure` functions read it.
--   User         src/kerchunk_user.c         the users and groups that `Config` describes, by id, code
--                and name.
--   DtmfCmd      modules/mod_dtmfcmd.c       commands of DTMF digits; it subscribes to the digits and
--                to the drop of COR, runs a timer of `Timer`, and reads `Config`.
--   Emergency    modules/mod_emergency.c     the emergency mode, which sets the flag of `Core.Sessions`
--                that the repeater asks, and ends by a timer of `Timer`.
--   Caller       modules/mod_caller.c        who transmits, by the digits behind a key-up or by a session
--                that a login opens; it looks users up in `User` and runs two timers of `Timer`.
--   Otp          modules/mod_otp.c           raised access by one-time codes, behind a lock and a replay guard;
--                it asks `Caller` who transmits, by an event, raises sessions of `Core.Sessions`, and is
--                called through `DtmfCmd`.
--   Rrd          src/kerchunk_rrd.c          the statistics of minutes, hours and days in rings, the
--                counters and the users; a tick, each second or so, rotates the rings.
--   Wav          src/kerchunk_wav.c          sound files, written and read, as bytes.
--   IniEdit      src/kerchunk_ini_edit.c     the text of the configuration with one section replaced or
--                removed, by which the reflector keeps its nodes and talkgroups.
--   Reflector    src/reflectd/main.c         the reflector, a daemon of its own: who may talk on a
--                talkgroup, and `Roster`: the nodes and
--                talkgroups that src/reflectd/config.c reads by way of `Config`.
--
-- `Prelude` holds the shared types: Boolean tests and lists over the native numbers, and the signed
-- integers `ℤ` for C `int` values. A record has the fields of the C struct or of the file-scope
-- variables under their names, without the prefix `g_`. A function that changes the state returns
-- the new one, beside its result. Flags that C keeps in an `int` are Booleans. The numbers and
-- durations of the configuration (`Config.Numbers`, `Config.Duration`) are computed in `int` that
-- wraps around, as the compiled program does. Elsewhere C arithmetic on `int` is taken without
-- wrap-around: the configuration keeps delays, tails and windows below 2 ^ 31
-- samples, and a counter of ticks takes more than a year to reach it; unsigned differences of time
-- stamps wrap as in C (`AudioTick.Tx.elapsed_ms`).
--
-- Loops: the two silence loops of the transmission tick recur on the eight action slots, of which
-- each round takes one, so the slots are enough; the loops of the queue recur on its list, and the
-- loops over the 128 timer slots and the taps on their number. The loop of `Sched.next_boundary`
-- has as many rounds as a negative offset has milliseconds, of which each round makes up one at
-- least. `AudioRing.tile` has as many rounds as samples are wanted, of which each copies one at
-- least; saving the configuration has one round more than there are entries, and so than there are
-- sections, and so has each pass of `Roster.rcfg_load`; the loop over the terms of a duration has
-- as many rounds as bytes, and normalizing a fraction has three. A nested fire of an event recurs
-- on the levels left to the bus's limit of 16. The search for the data of a sound file has as many
-- rounds as there are bytes, and one: a chunk has 8 bytes at least. Every other loop recurs on a
-- list, or on a number that the code itself counts.
--
-- Parameters: the DTMF decoder, tone encoder and resampler (libplcode and floating point), memory
-- (whether an allocation succeeds), the one-time code of a secret at a time step (`Otp.Command`),
-- the contents of files, the clocks and the timers' callbacks. Mutual exclusion is the C mutexes':
-- an operation is one step.
--
-- Not modelled: audio devices, sockets, the HTTP server, the log, the modules that talk to outside
-- services, the resampler of the audio rings and of the sound files and the getter that calls
-- atof, the mapping of files into memory and their writing by a rename, the reflector's network,
-- cryptography, recordings and reload, and the vendored mongoose and linenoise.
pub mod IniEdit
pub mod Prelude
pub mod TxState
pub mod TxActivity
pub mod AudioTick
pub mod Queue
pub mod Timer
pub mod Core
pub mod Repeater
pub mod Events
pub mod Sched
pub mod AudioRing
pub mod Text
pub mod Config
pub mod DtmfCmd
pub mod User
pub mod Emergency
pub mod Caller
pub mod Otp
pub mod Rrd
pub mod Wav
pub mod Reflector
mod Tests
