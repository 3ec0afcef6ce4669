-- ===== src/Pit/Watch.antt =====
-- kernel/drivers/PIT.c: the stopwatch counts the clocks that pass, if it is read once in each period.
use skhuos.Common.{
  ℕ, ◌+◌, ◌-◌, ◌%◌, ◌^◌, ◌<◌, ◌≤◌, ◌≡◌, Bool, true, List, [], ◌∷◌, ◌&&◌, ◌∙◌, ap, if◌then◌else◌,
  ltb, arith,
}
use skhuos.Pit.{Stopwatch, start_stopwatch, get_elapsed_clock}

-- Counter 0 with the reload value `n` counts from `n` down to 1 and starts again; its phase is the number
-- of clocks since the last start. It shows 16 bits, so that 65536 reads as 0.
abbrev pub shown : ℕ → ℕ → ℕ
shown n phase = (n - phase) % 2 ^ 16

-- The phase `d` clocks later, for fewer clocks than a period.
abbrev pub advance : ℕ → ℕ → ℕ → ℕ
advance n phase d = if ltb (phase + d) n then phase + d else phase + d - n

-- Reads of a running stopwatch with the given clocks between them: the phase and the watch after them.
abbrev pub reads : ℕ → List ℕ → ℕ × Stopwatch → ℕ × Stopwatch
reads n [] (phase, w) = (phase, w)
reads n (d ∷ ds) (phase, w) =
    let phase' = advance n phase d in reads n ds (phase', get_elapsed_clock n (shown n phase') w)

abbrev pub total : List ℕ → ℕ
total [] = 0
total (d ∷ ds) = d + total ds

-- All gaps are shorter than a period.
abbrev pub all_below : ℕ → List ℕ → Bool
all_below n [] = true
all_below n (d ∷ ds) = ltb d n && all_below n ds

read_lem :
    (n phase d e : ℕ)
    → 0 < n
    → n ≤ 2 ^ 16
    → phase < n
    → d < n
    → get_elapsed_clock n
        (shown n (advance n phase d))
        (record { last_counter = shown n phase; elapsed_clock = e })
      ≡ record { last_counter = shown n (advance n phase d); elapsed_clock = (e + d) % 2 ^ 32 }
unfolding get_elapsed_clock
read_lem n phase d e p h k l =
    ap (λ x. record { last_counter = shown n (advance n phase d); elapsed_clock = x })
      (ground arith)

reads_lem :
    (n : ℕ) (ds : List ℕ) (phase e : ℕ)
    → 0 < n
    → n ≤ 2 ^ 16
    → phase < n
    → all_below n ds ≡ true
    → e < 2 ^ 32
    → (reads n ds
        (phase, record { last_counter = shown n phase; elapsed_clock = e })).1.elapsed_clock
      ≡ (e + total ds) % 2 ^ 32
reads_lem n [] phase e p h k a b = ground arith
reads_lem n (d ∷ ds) phase e p h k a b =
    let phase' = advance n phase d in
    let below : phase' < n = ground arith in
    ap (λ w. (reads n ds (phase', w)).1.elapsed_clock) (read_lem n phase d e p h k (ground arith))
    ∙ reads_lem n ds phase' ((e + d) % 2 ^ 32) p h below (ground arith) (omega arith)
    ∙ omega arith

-- Reads of the stopwatch that are less than a period of the counter apart, whatever its phase at the start,
-- add up to the clocks that have passed since `startStopwatch`, modulo 2^32; at 65536 clocks a period the
-- counter's 16 bits show 65536 as 0, and the sum is still right.
pub stopwatch_lem :
    (n : ℕ) (ds : List ℕ) (phase : ℕ)
    → 0 < n
    → n ≤ 2 ^ 16
    → phase < n
    → all_below n ds ≡ true
    → (reads n ds (phase, start_stopwatch (shown n phase))).1.elapsed_clock ≡ total ds % 2 ^ 32
unfolding start_stopwatch
stopwatch_lem n ds phase p h k a = reads_lem n ds phase 0 p h k a (omega arith) ∙ omega arith
