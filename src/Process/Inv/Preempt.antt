-- ===== src/Process/Inv/Preempt.antt =====
-- Preempting the running process: what it does to the invariant.
use skhuos.Common.{ℕ, ◌≡◌, ◌≢◌, refl, List, [], ◌∷◌, ◌++◌, arith, has-append, distinct-snoc}
use skhuos.Process.{ProcessState, ready, running}
use skhuos.Process.Inv.{View, Lists, Slots, Exits, Valid, Changed}

-- The running process, not the idle one, goes to the end of the ready list, and the first one runs.
module _ (v : View) (next : ℕ) (rest : List ℕ) (st₁ st' : ℕ → ProcessState) (i : Valid v)
    (e : v.rl ≡ next ∷ rest) (ni : v.run ≢ v.idle) (ch₁ : Changed v.st st₁ v.run ready)
    (ch : Changed st₁ st' next running) where
  abbrev preempted : View
  preempted = record v { st = st'; run = next; rl = rest ++ (v.run ∷ []) }

  next_ready : v.st next ≡ ready
  next_ready = ground (arith, i.lists.ready_state next)

  next_ne : next ≢ v.run
  next_ne = ground (arith, next_ready, i.running_state)

  preempt-Lists : Lists preempted
  preempt-Lists =
      let l = i.lists in
      record {
        ready_state = λ p h. ground (
          arith,
          l.ready_state p,
          ch p,
          ch₁ p,
          has-append p rest (v.run ∷ []),
          l.ready_distinct,
          next_ne,
        );
        sleep_state =
            λ p h. ground (arith, l.sleep_state p h, ch p, ch₁ p, next_ready, i.running_state);
        ready_distinct =
            distinct-snoc rest v.run (ground (arith, l.ready_distinct))
              (ground (arith, l.ready_state v.run, i.running_state));
        sleep_distinct = l.sleep_distinct;
        ready_taken = λ p h.
            ground (arith, l.ready_taken p, has-append p rest (v.run ∷ []), i.slots.running_taken);
        sleep_taken = l.sleep_taken;
        idle_out = ground (arith, l.idle_out, has-append v.idle rest (v.run ∷ []));
        ready_listed = λ p t r n.
            ground (arith, l.ready_listed p t, ch p, ch₁ p, has-append p rest (v.run ∷ []));
      }

  preempt-Slots : Slots preempted
  preempt-Slots =
      let s = i.slots in
      record {
        idle_state = ground (arith, s.idle_state, ch v.idle, ch₁ v.idle);
        one_running = λ p t r. ground (arith, s.one_running p t, ch p, ch₁ p);
        running_taken = ground (arith, i.lists.ready_taken next);
        idle_taken = s.idle_taken;
        zero_taken = s.zero_taken;
        collector_alive = λ c h. ground (arith, s.collector_alive c h, ch c, ch₁ c);
      }

  preempt-Exits : Exits preempted
  preempt-Exits = record {
    exit_distinct = i.exits.exit_distinct;
    exit_state =
        λ p h. ground (arith, i.exits.exit_state p h, ch p, ch₁ p, next_ready, i.running_state);
    exit_taken = i.exits.exit_taken;
    exit_ne_zero = i.exits.exit_ne_zero;
  }

  pub preempt-Valid : Valid preempted
  preempt-Valid = record {
    lists = preempt-Lists;
    slots = preempt-Slots;
    exits = preempt-Exits;
    running_state = (ch next).0 refl;
  }

-- The idle process is preempted: it goes on no list, and keeps its state.
module _ (v : View) (next : ℕ) (rest : List ℕ) (st' : ℕ → ProcessState) (i : Valid v)
    (e : v.rl ≡ next ∷ rest) (ni : v.run ≡ v.idle) (ch : Changed v.st st' next running) where
  abbrev relieved : View
  relieved = record v { st = st'; run = next; rl = rest }

  first_ready : v.st next ≡ ready
  first_ready = ground (arith, i.lists.ready_state next)

  relieve-Lists : Lists relieved
  relieve-Lists =
      let l = i.lists in
      record {
        ready_state = λ p h. ground (arith, l.ready_state p, ch p, l.ready_distinct);
        sleep_state = λ p h. ground (arith, l.sleep_state p h, ch p, first_ready);
        ready_distinct = ground (arith, l.ready_distinct);
        sleep_distinct = l.sleep_distinct;
        ready_taken = λ p h. ground (arith, l.ready_taken p);
        sleep_taken = l.sleep_taken;
        idle_out = ground (arith, l.idle_out);
        ready_listed = λ p t r n. ground (arith, l.ready_listed p t, ch p);
      }

  relieve-Slots : Slots relieved
  relieve-Slots =
      let s = i.slots in
      record {
        idle_state = ground (arith, s.idle_state, ch v.idle);
        one_running = λ p t r. ground (arith, s.one_running p t, ch p);
        running_taken = ground (arith, i.lists.ready_taken next);
        idle_taken = s.idle_taken;
        zero_taken = s.zero_taken;
        collector_alive = λ c h. ground (arith, s.collector_alive c h, ch c);
      }

  relieve-Exits : Exits relieved
  relieve-Exits = record {
    exit_distinct = i.exits.exit_distinct;
    exit_state = λ p h. ground (arith, i.exits.exit_state p h, ch p, first_ready);
    exit_taken = i.exits.exit_taken;
    exit_ne_zero = i.exits.exit_ne_zero;
  }

  pub relieve-Valid : Valid relieved
  relieve-Valid = record {
    lists = relieve-Lists;
    slots = relieve-Slots;
    exits = relieve-Exits;
    running_state = (ch next).0 refl;
  }
