-- ===== src/Process/Inv/Wake.antt =====
-- Blocking a process and making it READY again: what they do to the invariant.
use skhuos.Common.{
  ℕ, ◌≡◌, ◌≢◌, ◌⊎◌, true, some, List, [], ◌∷◌, ◌++◌, has, arith, has-append, distinct-snoc,
}
use skhuos.LinkedList.Spec
use skhuos.LinkedList.Spec.{has_of_remove, has-remove_ne, has-remove_self, distinct-remove}
use skhuos.Process.{ProcessState, ready, blocked, exited}
use skhuos.Process.Inv.{View, Lists, Slots, Exits, Valid, Changed}

-- The process `p` becomes READY: off the sleep list if it is there, and last on the ready list.
module _ (v : View) (p : ℕ) (st' : ℕ → ProcessState) (b : v.st p ≡ blocked) (t : v.taken p ≡ true)
    (ch : Changed v.st st' p ready) where
  abbrev woken : View
  woken = record v { st = st'; sl = Spec.remove v.sl p; rl = v.rl ++ (p ∷ []) }

  pub wake-Lists : Lists v → Slots v → Lists woken
  wake-Lists l s = record {
    ready_state = λ q h. ground (arith, l.ready_state q, ch q, has-append q v.rl (p ∷ []));
    sleep_state = λ q h. ground (
      arith,
      l.sleep_state q,
      ch q,
      has_of_remove v.sl p q,
      has-remove_self v.sl p,
      l.sleep_distinct,
    );
    ready_distinct = distinct-snoc v.rl p l.ready_distinct (ground (arith, l.ready_state p));
    sleep_distinct = distinct-remove v.sl p l.sleep_distinct;
    ready_taken = λ q h. ground (arith, l.ready_taken q, has-append q v.rl (p ∷ []));
    sleep_taken = λ q h. l.sleep_taken q (has_of_remove v.sl p q h);
    idle_out = ground (arith, l.idle_out, s.idle_state, has-append v.idle v.rl (p ∷ []));
    ready_listed =
        λ q t' r n. ground (arith, l.ready_listed q t', ch q, has-append q v.rl (p ∷ []));
  }

  pub wake-Slots : Slots v → Slots woken
  wake-Slots s = record {
    idle_state = ground (arith, s.idle_state, ch v.idle);
    one_running = λ q t' r. ground (arith, s.one_running q t', ch q);
    running_taken = s.running_taken;
    idle_taken = s.idle_taken;
    zero_taken = s.zero_taken;
    collector_alive = λ c h. ground (arith, s.collector_alive c h, ch c);
  }

  pub wake-Exits : Exits v → Exits woken
  wake-Exits x = record {
    exit_distinct = x.exit_distinct;
    exit_state = λ q h. ground (arith, x.exit_state q h, ch q);
    exit_taken = x.exit_taken;
    exit_ne_zero = x.exit_ne_zero;
  }

  pub wake-Valid : Valid v → Valid woken
  wake-Valid i = record {
    lists = wake-Lists i.lists i.slots;
    slots = wake-Slots i.slots;
    exits = wake-Exits i.exits;
    running_state = ground (arith, ch v.run, i.running_state);
  }

-- The running process, not the idle one, stops: its state becomes `x`, and `sl'` is the sleep list.
module _ (v : View) (x : ProcessState) (st' : ℕ → ProcessState) (sl' : List ℕ) (i : Valid v)
    (ni : v.run ≢ v.idle) (g : (x ≡ blocked) ⊎ ((x ≡ exited) × (v.col ≢ some v.run)))
    (ch : Changed v.st st' v.run x)
    (same : (sl' ≡ v.sl) ⊎ ((sl' ≡ v.sl ++ (v.run ∷ [])) × (x ≡ blocked))) where
  abbrev stopped : View
  stopped = record v { st = st'; sl = sl' }

  sleep_lem : (q : ℕ) → has q sl' ≡ true → (has q v.sl ≡ true) ⊎ ((q ≡ v.run) × (x ≡ blocked))
  sleep_lem q h = ground (arith, has-append q v.sl (v.run ∷ []))

  stop-Lists : Lists stopped
  stop-Lists =
      let l = i.lists in
      record {
        ready_state = λ q h. ground (arith, l.ready_state q h, i.running_state, ch q);
        sleep_state = λ q h. ground (arith, l.sleep_state q, sleep_lem q h, i.running_state, ch q);
        ready_distinct = l.ready_distinct;
        sleep_distinct = ground (
          arith,
          l.sleep_distinct,
          distinct-snoc v.sl v.run,
          l.sleep_state v.run,
          i.running_state,
        );
        ready_taken = l.ready_taken;
        sleep_taken = λ q h. ground (arith, l.sleep_taken q, sleep_lem q h, i.slots.running_taken);
        idle_out = l.idle_out;
        ready_listed = λ q t r n. ground (arith, l.ready_listed q t, ch q);
      }

  stop-Slots : Slots stopped
  stop-Slots =
      let s = i.slots in
      record {
        idle_state = ground (arith, s.idle_state, ch v.idle);
        one_running = λ q t r. ground (arith, s.one_running q t, ch q);
        running_taken = s.running_taken;
        idle_taken = s.idle_taken;
        zero_taken = s.zero_taken;
        collector_alive = λ c h. ground (arith, s.collector_alive c h, ch c, g);
      }

  stop-Exits : Exits stopped
  stop-Exits = record {
    exit_distinct = i.exits.exit_distinct;
    exit_state = λ q h. ground (arith, i.exits.exit_state q h, ch q, i.running_state);
    exit_taken = i.exits.exit_taken;
    exit_ne_zero = i.exits.exit_ne_zero;
  }

  pub stop_lem : Lists stopped × Slots stopped × Exits stopped
  stop_lem = (stop-Lists, stop-Slots, stop-Exits)
