-- ===== src/Disk/Wait.antt =====
-- kernel/drivers/Disk.c: waiting for the disk's interrupt and for its status.
use skhuos.Common.{
  ℕ, zero, suc, ◌+◌, ◌-◌, ◌/◌, ◌%◌, ◌^◌, Bool, true, false, not, ◌&&◌, ◌||◌, Option, none, some,
  ◌==◌, if◌then◌else◌, leb, ltb,
}
use skhuos.Process.{slot_time}
use skhuos.Machine.{Machine}
use skhuos.Pit.{Stopwatch, start_stopwatch, get_elapsed_clock, read_counter0, ms_to_clock}
use skhuos.Disk.{
  Driver, Run, pure, gets, modify, branch, ◌>>=◌, ◌>>◌, access, get_port, set_port, set_if,
  port_address, status, bit_of, status_bsy, status_drdy, status_drq, status_err, wait_timeout_ms,
}

module _ {H : Type 0} (m : Machine H) where
  -- `readCounter0`, on the ports.
  unfoldable pub latched_counter : Run H ℕ
  latched_counter = do
    set_port m 0x43 0
    lower ← get_port m 0x40
    upper ← get_port m 0x40
    pure (read_counter0 lower upper)

  abbrev pub start_watch : Run H Stopwatch
  start_watch = do now ← latched_counter; pure (start_stopwatch now)

  abbrev pub advance_watch : Stopwatch → Run H Stopwatch
  advance_watch watch = do
    now ← latched_counter
    pure (get_elapsed_clock m.counter0_reload now watch)

  -- `elapsed < limit` as `int`.
  abbrev pub in_time : Stopwatch → ℕ → Bool
  in_time watch limit = leb (2 ^ 31) watch.elapsed_clock || ltb watch.elapsed_clock limit

  -- `return` of an answer, and what comes without one.
  abbrev pub answered : Option Bool → Run H Bool → Run H Bool
  answered (some b) r = pure b
  answered none r = r

  -- `do { … } while(getElapsedClock(&watch) < limit)` around a test that may have an answer; then FALSE.
  unfoldable pub poll : ℕ → Run H (Option Bool) → ℕ → Stopwatch → Run H Bool
  poll zero test limit watch s = none
  poll (suc k) test limit watch s =
      (do
        found ← test
        answered found (do
          watch' ← advance_watch watch
          branch (in_time watch' limit) (poll k test limit watch') (pure false)))
        s

  module _ (rounds : ℕ) (is_primary : Bool) where
    abbrev pub poll_from_start : Run H (Option Bool) → Run H Bool
    poll_from_start test = do
      watch ← start_watch
      poll rounds test (ms_to_clock wait_timeout_ms) watch

    abbrev pub occur_flag : Driver H → Bool
    occur_flag s =
        if is_primary then s.is_primary_interrupt_occur else s.is_secondary_interrupt_occur

    unfoldable pub clear_disk_interrupt_flag : Run H (Unit {0})
    clear_disk_interrupt_flag = modify (λ s.
        if is_primary
        then record s { is_primary_interrupt_occur = false }
        else record s { is_secondary_interrupt_occur = false })

    -- `diskWaiter[isPrimary] = …`
    abbrev pub set_waiter : (H → Option ℕ) → Run H (Unit {0})
    set_waiter waiter = modify (λ s. record s {
      disk_waiter = λ channel.
          if channel && is_primary || not channel && not is_primary
          then waiter s.machine
          else s.disk_waiter channel;
    })

    -- `while(!*occurFlag)`, in which the process sleeps; FALSE from the deadline on.
    unfoldable pub sleep_until_occur : ℕ → ℕ → Run H Bool
    sleep_until_occur zero deadline s = none
    sleep_until_occur (suc k) deadline s =
        (branch (occur_flag s) (pure true) (
            branch (leb deadline (m.get_tick_count s.machine)) (pure false) (do
              set_waiter (λ h. some (m.get_running_process h))
              access m (λ h. (tt, m.sleep_until_tick deadline h))
              set_waiter (λ h. none)
              sleep_until_occur k deadline)))
          s

    unfoldable pub wait_interrupt : Run H Bool
    wait_interrupt = do
      pre_if ← set_if m false
      branch pre_if
          (do
            tick ← gets (λ s. m.get_tick_count s.machine)
            occurred ←
                sleep_until_occur rounds
                  ((tick + (wait_timeout_ms + slot_time - 1) / slot_time) % 2 ^ 64)
            was ← set_if m pre_if
            pure occurred)
          (poll_from_start (gets (λ s. if occur_flag s then some true else none)))

    unfoldable pub wait_status : ℕ → ℕ → Run H Bool
    wait_status mask value = poll_from_start (do
      v ← get_port m (port_address is_primary status)
      pure (if bit_of v mask == value then some true else none))

    abbrev pub wait_no_busy : Run H Bool
    wait_no_busy = wait_status status_bsy 0

    abbrev pub wait_ready : Run H Bool
    wait_ready = wait_status status_drdy status_drdy

    unfoldable pub wait_data_request : Run H Bool
    wait_data_request = poll_from_start (do
      v ← get_port m (port_address is_primary status)
      pure (
          if not (bit_of v status_bsy == status_bsy)
          then (if bit_of v status_err == status_err
              then some false
              else if bit_of v status_drq == status_drq
              then some true
              else none)
          else none))
