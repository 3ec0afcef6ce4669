-- ===== src/Tests/Interrupts.antt =====
-- The theorems on interrupts and exceptions at concrete inputs.
use skhuos.Common.{
  ℕ, ◌≡◌, ◌≢◌, inl, refl, true, false, some, none, [], ◌∷◌, ◌==◌, if◌then◌else◌, arith,
}
use skhuos.Machine.{Machine}
use skhuos.Process.{Kernel, ready, running, blocked, exited, state_of, set_if}
use skhuos.Process.Switch.{wakeup_process_in_interrupt}
use skhuos.Process.Reach.{Good}
use skhuos.Interrupt.{dispatch_interrupt, exception_handler}
use skhuos.Interrupt.Handlers.{Scheduled, Board, boot_handlers, kernel_of}
use skhuos.Interrupt.Sound.{Healthy, dispatch_interrupt-Served}
use skhuos.Interrupt.Fault.{exception_handler_lem}
use skhuos.Tests.Scheduler.{booted, blank}

-- The shell waits, and process 3, a user program, runs.
abbrev program : Kernel
program = record booted {
  pcbs = λ q. blank (if q == 3 then running else if q == 0 then blocked else ready);
  running_process = 3;
  pid_count_idx = 4;
  alloc_process_table = λ q.
      if q == 3
      then true
      else if q == 2
      then true
      else if q == 1
      then true
      else if q == 0
      then true
      else false;
}

program-Good : Good program
program-Good = record {
  valid = record {
    lists = record {
      ready_state = λ p h. ground arith;
      sleep_state = λ p h. cc;
      ready_distinct = refl;
      sleep_distinct = refl;
      ready_taken = λ p h. ground arith;
      sleep_taken = λ p h. cc;
      idle_out = refl;
      ready_listed = λ p t r n. ground arith;
    };
    slots = record {
      idle_state = inl refl;
      one_running = λ p t r. ground arith;
      running_taken = refl;
      idle_taken = refl;
      zero_taken = refl;
      collector_alive = λ c h. ground arith;
    };
    exits = record {
      exit_distinct = refl;
      exit_state = λ p h. cc;
      exit_taken = λ p h. cc;
      exit_ne_zero = λ p h. cc;
    };
    running_state = refl;
  };
  index_bound = omega arith;
}

exception_handler_lem_example :
    (s' : Kernel) × (exception_handler 0x23 program ≡ some s')
    × Good s'
    × (state_of s' 3 ≡ exited)
    × ((q : ℕ) → q ≢ 3 → state_of s' q ≡ exited → state_of program q ≡ exited)
exception_handler_lem_example =
    exception_handler_lem 0x23 program program-Good (λ e. cc) (λ e. cc) (λ e. cc) refl

-- A machine whose state is the scheduler's, with ports that deliver ones.
abbrev bare_machine : Machine Kernel
bare_machine = record {
  get_port = λ p s. (1, s);
  set_port = λ p v s. s;
  get_port_word = λ p s. ((1, 0), s);
  set_port_word = λ p v s. s;
  set_if = set_if;
  arrive = λ s. ((false, false), s);
  counter0_reload = 0x10000;
  get_tick_count = λ s. s.tick_count;
  get_running_process = λ s. s.running_process;
  sleep_until_tick = λ t s. s;
  wakeup_process_in_interrupt = wakeup_process_in_interrupt;
}

abbrev bare_scheduler : Scheduled bare_machine
bare_scheduler = record {
  kernel = λ s. s;
  put_kernel = λ s h. s;
  kernel-put_kernel = λ s h. refl;
  kernel-get_port = λ p h. refl;
  kernel-set_port = λ p v h. refl;
  kernel-wakeup = λ o h. refl;
}

-- The shell waits for a key, of which the controller has the bytes.
abbrev waiting_board : Board Kernel
waiting_board = record {
  keyboard = record {
    shift_on = false;
    key_queue = record {
      front = 0;
      rear = 0;
      len = 4;
      data_size = 1;
      queue_arr = 0 ∷ 0 ∷ 0 ∷ 0 ∷ [];
    };
    key_waiter = some 0;
    controller = 0x1e ∷ 0x1d ∷ 0x45 ∷ [];
  };
  driver = record {
    held = 0;
    information = λ i. 0;
    is_primary_interrupt_occur = false;
    is_secondary_interrupt_occur = false;
    disk_waiter = λ c. none;
    pic_state = true;
    machine = program;
  };
}

waiting_board-Healthy : Healthy bare_machine bare_scheduler waiting_board
waiting_board-Healthy = record {
  good = program-Good;
  key_slot = λ p e. ground arith;
  disk_slot = λ c p e. cc;
}

dispatch_interrupt-Served_example :
    (b' : Board Kernel) × (dispatch_interrupt
        (boot_handlers bare_machine bare_scheduler)
        33
        waiting_board
      ≡ some b')
    × Healthy bare_machine bare_scheduler b'
    × ((kernel_of bare_machine bare_scheduler b').tick_count ≡ 0)
dispatch_interrupt-Served_example =
    dispatch_interrupt-Served bare_machine bare_scheduler waiting_board 33 waiting_board-Healthy
      (omega arith)
