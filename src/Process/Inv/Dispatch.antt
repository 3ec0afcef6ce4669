-- ===== src/Process/Inv/Dispatch.antt =====
-- Giving the processor to the next process: what it does to the invariant.
use skhuos.Common.{ℕ, ◌≡◌, ◌⊎◌, inr, refl, List, [], ◌∷◌, arith}
use skhuos.Process.{ProcessState, running, blocked, exited}
use skhuos.Process.Inv.{View, Lists, Slots, Exits, Valid, Changed}

-- The running process is on no list: it has ended, or waits.
abbrev pub Gone : ProcessState → Type 0
Gone x = (x ≡ blocked) ⊎ (x ≡ exited)

module _ (v : View) (next : ℕ) (rest : List ℕ) (st' : ℕ → ProcessState) (e : v.rl ≡ next ∷ rest)
    (ch : Changed v.st st' next running) where
  abbrev to : View
  to = record v { st = st'; run = next; rl = rest }

  dispatch-Lists : Lists v → Lists to
  dispatch-Lists l = record {
    ready_state = λ p h. ground (arith, l.ready_state p, ch p, l.ready_distinct);
    sleep_state = λ p h. ground (arith, l.sleep_state p h, ch p, l.ready_state next);
    ready_distinct = ground (arith, l.ready_distinct);
    sleep_distinct = l.sleep_distinct;
    ready_taken = λ p h. ground (arith, l.ready_taken p);
    sleep_taken = l.sleep_taken;
    idle_out = ground (arith, l.idle_out);
    ready_listed = λ p t r n. ground (arith, l.ready_listed p t, ch p);
  }

  dispatch-Slots : Lists v → Slots v → Gone (v.st v.run) → Slots to
  dispatch-Slots l s g = record {
    idle_state = ground (arith, s.idle_state, ch v.idle);
    one_running = λ p t r. ground (arith, s.one_running p t, ch p);
    running_taken = ground (arith, l.ready_taken next);
    idle_taken = s.idle_taken;
    zero_taken = s.zero_taken;
    collector_alive = λ c h. ground (arith, s.collector_alive c h, ch c);
  }

  dispatch-Exits : Lists v → Exits v → Exits to
  dispatch-Exits l x = record {
    exit_distinct = x.exit_distinct;
    exit_state = λ p h. ground (arith, x.exit_state p h, ch p, l.ready_state next);
    exit_taken = x.exit_taken;
    exit_ne_zero = x.exit_ne_zero;
  }

  pub dispatch-Valid : Lists v → Slots v → Exits v → Gone (v.st v.run) → Valid to
  dispatch-Valid l s x g = record {
    lists = dispatch-Lists l;
    slots = dispatch-Slots l s g;
    exits = dispatch-Exits l x;
    running_state = (ch next).0 refl;
  }

-- With an empty ready list the idle process runs.
module _ (v : View) (st' : ℕ → ProcessState) (e : v.rl ≡ [])
    (ch : Changed v.st st' v.idle running) where
  abbrev to_idle : View
  to_idle = record v { st = st'; run = v.idle; rl = [] }

  idle-Lists : Lists v → Slots v → Lists to_idle
  idle-Lists l s = record {
    ready_state = λ p h. cc;
    sleep_state = λ p h. ground (arith, l.sleep_state p h, ch p, s.idle_state);
    ready_distinct = refl;
    sleep_distinct = l.sleep_distinct;
    ready_taken = λ p h. cc;
    sleep_taken = l.sleep_taken;
    idle_out = refl;
    ready_listed = λ p t r n. ground (arith, l.ready_listed p t, ch p);
  }

  idle-Slots : Slots v → Gone (v.st v.run) → Slots to_idle
  idle-Slots s g = record {
    idle_state = inr ((ch v.idle).0 refl);
    one_running = λ p t r. ground (arith, s.one_running p t, ch p);
    running_taken = s.idle_taken;
    idle_taken = s.idle_taken;
    zero_taken = s.zero_taken;
    collector_alive = λ c h. ground (arith, s.collector_alive c h, ch c);
  }

  idle-Exits : Slots v → Exits v → Exits to_idle
  idle-Exits s x = record {
    exit_distinct = x.exit_distinct;
    exit_state = λ p h. ground (arith, x.exit_state p h, ch p, s.idle_state);
    exit_taken = x.exit_taken;
    exit_ne_zero = x.exit_ne_zero;
  }

  pub idle-Valid : Lists v → Slots v → Exits v → Gone (v.st v.run) → Valid to_idle
  idle-Valid l s x g = record {
    lists = idle-Lists l s;
    slots = idle-Slots s g;
    exits = idle-Exits s x;
    running_state = (ch v.idle).0 refl;
  }
