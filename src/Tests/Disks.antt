-- ===== src/Tests/Disks.antt =====
-- The theorems on the disk driver at a machine whose disk answers at once.
use skhuos.Common.{
  ℕ, ◌+◌, ◌-◌, ◌*◌, ◌%◌, ◌<◌, ◌≤◌, ◌≡◌, ap, Bool, true, false, Option, none, some, ◌==◌,
  if◌then◌else◌, leb, arith,
}
use skhuos.Machine.{Machine}
use skhuos.Disk.{
  Driver, Run, access, settle, primary_disk_interrupt_handler, secondary_disk_interrupt_handler,
  port_address,
}
use skhuos.Pic.{send_eoi}
use skhuos.Disk.Wait.{
  poll, advance_watch, in_time, wait_status, wait_data_request, wait_interrupt, latched_counter,
  sleep_until_occur,
}
use skhuos.Disk.Transfer.{read_sector}
use skhuos.Pit.{Stopwatch}
use skhuos.Disk.Count.{Prompt, Runs, read_sector-Runs}

-- The status says that the disk is ready and has data; each access is followed by its interrupt. The state
-- counts the accesses.
abbrev ready_disk : Machine ℕ
ready_disk = record {
  get_port = λ p n. (if p == 0x1f7 then 0x48 else n % 256, n + 1);
  set_port = λ p v n. n + 1;
  get_port_word = λ p n. ((n % 256, 0), n + 1);
  set_port_word = λ p v n. n + 1;
  set_if = λ on n. (false, n);
  arrive = λ n. ((true, false), n);
  counter0_reload = 0x10000;
  get_tick_count = λ n. n;
  get_running_process = λ n. 1;
  sleep_until_tick = λ tick n. n + 1;
  wakeup_process_in_interrupt = λ p n. n;
}

ready_disk-Prompt : Prompt ready_disk 1 true
unfolding wait_status wait_data_request wait_interrupt latched_counter poll sleep_until_occur access
    settle primary_disk_interrupt_handler secondary_disk_interrupt_handler send_eoi port_address
ready_disk-Prompt = record {
  idle_ends = λ s. tt;
  ready_ends = λ s. tt;
  request_ends = λ s. tt;
  interrupt_ends = λ s. tt;
}

read_sector-Runs_example :
    Runs 0
      (read_sector ready_disk 1 true false 2 5 (λ a. 9))
      0
      (λ (n, c). (n ≤ 2) × ((a : ℕ) → 512 * n ≤ a → c a ≡ 9))
read_sector-Runs_example = read_sector-Runs ready_disk-Prompt false 2 5 (λ a. 9) 0 (omega arith)

-- A machine on which no interrupt comes, and a test that has its answer behind twenty accesses.
abbrev quiet_disk : Machine ℕ
quiet_disk = record ready_disk { arrive = λ n. ((false, false), n) }

abbrev idle_driver : Driver ℕ
idle_driver = record {
  held = 0;
  information = λ i. 0;
  is_primary_interrupt_occur = false;
  is_secondary_interrupt_occur = false;
  disk_waiter = λ c. none;
  pic_state = true;
  machine = 4;
}

abbrev after_twenty : Run ℕ (Option Bool)
after_twenty s = some (if leb 20 s.machine then some true else none, s)

abbrev accesses : {A : Type 0} → Option (A × Driver ℕ) → ℕ
accesses none = 0
accesses (some (a, s)) = s.machine

abbrev found_in : Option (Option Bool × Driver ℕ) → Bool
found_in none = true
found_in (some (none, s)) = false
found_in (some (some b, s)) = true

nearer :
    (watch w : Stopwatch) (s s₁ s₂ : Driver ℕ)
    → after_twenty s ≡ some (none, s₁)
    → advance_watch quiet_disk watch s₁ ≡ some (w, s₂)
    → in_time quiet_disk w 1000 ≡ true
    → 20 - s₂.machine < 20 - s.machine
unfolding latched_counter access settle
nearer watch w s s₁ s₂ missed read early =
    let same = ap accesses missed in
    let later = ap accesses read in let not_yet = ap found_in missed in ground arith
