-- ===== src/Pit.antt =====
-- kernel/drivers/PIT.c: the interval timer and the stopwatch on its counter 0. A function gives the writes
-- to ports, in order, as pairs of port and byte; the bytes that the ports deliver are arguments. An `int`
-- is its 32-bit pattern.
pub mod Watch
use skhuos.Common.{ℕ, ◌+◌, ◌-◌, ◌*◌, ◌/◌, ◌%◌, ◌^◌, Bool, List, [], ◌∷◌, ◌==◌, if◌then◌else◌, leb}

abbrev pub frequency : ℕ
frequency = 1193182

-- `usToClock`: QWORD arithmetic, and the lower half as an `int`.
unfoldable pub us_to_clock : ℕ → ℕ
us_to_clock us = (frequency * us) % 2 ^ 64 / 1000000 % 2 ^ 32

unfoldable pub ms_to_clock : ℕ → ℕ
ms_to_clock ms = (frequency * ms) % 2 ^ 64 / 1000 % 2 ^ 32

-- `initializePIT`: the writes, and the new `counter0Reload`. The mode byte is 0x34 in mode 2, 0x30 in mode 0.
unfoldable pub initialize_pit : ℕ → Bool → List (ℕ × ℕ) × ℕ
initialize_pit clock periodic = (
  (0x43, if periodic then 0x34 else 0x30) ∷ (0x40, clock % 256) ∷ (0x40, clock / 256 % 256) ∷ [],
  if clock % 2 ^ 16 == 0 then 0x10000 else clock % 2 ^ 16,
)

-- `readCounter0` behind the latch command, with the two bytes that the port delivers.
unfoldable pub read_counter0 : ℕ → ℕ → ℕ
read_counter0 lower_byte upper_byte = lower_byte + 256 * upper_byte

-- `PITStopwatch`
pub record Stopwatch : Type 0 where
  pub last_counter : ℕ
  pub elapsed_clock : ℕ

-- `startStopwatch`, with what `readCounter0` gave.
unfoldable pub start_stopwatch : ℕ → Stopwatch
start_stopwatch now = record { last_counter = now; elapsed_clock = 0 }

-- `getElapsedClock`, with `counter0Reload` and what `readCounter0` gave; it returns `elapsed_clock`.
unfoldable pub get_elapsed_clock : ℕ → ℕ → Stopwatch → Stopwatch
get_elapsed_clock counter0_reload now w =
    let delta = (w.last_counter + 2 ^ 32 - now) % 2 ^ 32 in
    let forward = if leb (2 ^ 31) delta then (delta + counter0_reload) % 2 ^ 32 else delta in
    record { last_counter = now; elapsed_clock = (w.elapsed_clock + forward) % 2 ^ 32 }
