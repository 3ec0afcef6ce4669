-- ===== src/Process/Inv/Slot.antt =====
-- Taking a slot, ending a process and giving a slot back: what they do to the invariant.
use skhuos.Common.{
  ℕ, ◌≡◌, ◌≢◌, ◌⊎◌, inl, inr, refl, Bool, true, false, some, List, [], ◌∷◌, ◌++◌, has, arith,
  has-append, distinct-snoc,
}
use skhuos.Process.{ProcessState, ready, exited}
use skhuos.Process.Inv.Wake.{stop_lem}
use skhuos.Process.Inv.{View, Lists, Slots, Exits, Valid, Changed}

-- `taken'` is `taken` but at `p`.
abbrev pub Retaken : (ℕ → Bool) → (ℕ → Bool) → ℕ → Bool → Type 0
Retaken taken taken' p b = (q : ℕ) → (q ≡ p → taken' q ≡ b) × (q ≢ p → taken' q ≡ taken q)

-- A new process in the free slot `p`.
module _ (v : View) (p : ℕ) (st' : ℕ → ProcessState) (taken' : ℕ → Bool) (i : Valid v)
    (free : v.taken p ≡ false) (ch : Changed v.st st' p ready)
    (tk : Retaken v.taken taken' p true) where
  abbrev created : View
  created = record v { st = st'; taken = taken'; rl = v.rl ++ (p ∷ []) }

  create-Lists : Lists created
  create-Lists =
      let l = i.lists in
      record {
        ready_state = λ q h. ground (arith, l.ready_state q, ch q, has-append q v.rl (p ∷ []));
        sleep_state = λ q h. ground (arith, l.sleep_state q h, ch q, l.sleep_taken q h);
        ready_distinct = distinct-snoc v.rl p l.ready_distinct (ground (arith, l.ready_taken p));
        sleep_distinct = l.sleep_distinct;
        ready_taken = λ q h. ground (arith, l.ready_taken q, tk q, has-append q v.rl (p ∷ []));
        sleep_taken = λ q h. ground (arith, l.sleep_taken q h, tk q);
        idle_out = ground (arith, l.idle_out, i.slots.idle_taken, has-append v.idle v.rl (p ∷ []));
        ready_listed =
            λ q t r n. ground (arith, l.ready_listed q, ch q, tk q, has-append q v.rl (p ∷ []));
      }

  create-Slots : Slots created
  create-Slots =
      let s = i.slots in
      record {
        idle_state = ground (arith, s.idle_state, ch v.idle, s.idle_taken);
        one_running = λ q t r. ground (arith, s.one_running q, ch q, tk q);
        running_taken = ground (arith, s.running_taken, tk v.run);
        idle_taken = ground (arith, s.idle_taken, tk v.idle);
        zero_taken = ground (arith, s.zero_taken, tk 0);
        collector_alive = λ c h. ground (arith, s.collector_alive c h, ch c, tk c);
      }

  create-Exits : Exits created
  create-Exits =
      let x = i.exits in
      record {
        exit_distinct = x.exit_distinct;
        exit_state = λ q h. ground (arith, x.exit_state q h, x.exit_taken q h, ch q);
        exit_taken = λ q h. ground (arith, x.exit_taken q h, tk q);
        exit_ne_zero = x.exit_ne_zero;
      }

  pub create-Valid : Valid created
  create-Valid = record {
    lists = create-Lists;
    slots = create-Slots;
    exits = create-Exits;
    running_state = ground (arith, i.running_state, i.slots.running_taken, ch v.run);
  }

-- A process that has just ended is entered for collection.
pub enqueue-Exits :
    (v : View) (p : ℕ)
    → Exits v
    → v.st p ≡ exited
    → v.taken p ≡ true
    → p ≢ 0
    → has p v.ex ≡ false
    → Exits (record v { ex = v.ex ++ (p ∷ []) })
enqueue-Exits v p x st t nz new = record {
  exit_distinct = distinct-snoc v.ex p x.exit_distinct new;
  exit_state = λ q h. ground (arith, x.exit_state q, has-append q v.ex (p ∷ []));
  exit_taken = λ q h. ground (arith, x.exit_taken q, has-append q v.ex (p ∷ []));
  exit_ne_zero = λ q h. ground (arith, x.exit_ne_zero q, has-append q v.ex (p ∷ []));
}

-- The running process ends: it is entered for collection, unless the queue `ex'` stayed as it was.
pub end_lem :
    (v : View) (st' : ℕ → ProcessState) (ex' : List ℕ)
    → Valid v
    → v.run ≢ v.idle
    → v.run ≢ 0
    → v.col ≢ some v.run
    → Changed v.st st' v.run exited
    → (ex' ≡ v.ex) ⊎ (ex' ≡ v.ex ++ (v.run ∷ []))
    → let v' : View = record v { st = st'; ex = ex' } in Lists v' × Slots v' × Exits v'
end_lem v st' ex' i ni nz nc ch same =
    let (ls, sl, ex) = stop_lem v exited st' v.sl i ni (inr (refl, nc)) ch (inl refl) in
    (
      record {
        ready_state = ls.ready_state;
        sleep_state = ls.sleep_state;
        ready_distinct = ls.ready_distinct;
        sleep_distinct = ls.sleep_distinct;
        ready_taken = ls.ready_taken;
        sleep_taken = ls.sleep_taken;
        idle_out = ls.idle_out;
        ready_listed = ls.ready_listed;
      },
      record {
        idle_state = sl.idle_state;
        one_running = sl.one_running;
        running_taken = sl.running_taken;
        idle_taken = sl.idle_taken;
        zero_taken = sl.zero_taken;
        collector_alive = sl.collector_alive;
      },
      elim same [
        | inl e ↦ rw e ex
        | inr e ↦ rw e (
            enqueue-Exits (record v { st = st' }) v.run ex ((ch v.run).0 refl) i.slots.running_taken
              nz (ground (arith, i.exits.exit_state v.run, i.running_state)))
      ],
    )

-- The first process that waits for it is collected.
module _ (v : View) (p : ℕ) (rest : List ℕ) (taken' : ℕ → Bool) (i : Valid v) (e : v.ex ≡ p ∷ rest)
    (tk : Retaken v.taken taken' p false) where
  abbrev freed : View
  freed = record v { ex = rest; taken = taken' }

  ended : (v.st p ≡ exited) × (p ≢ 0)
  ended = ground (arith, i.exits.exit_state p, i.exits.exit_ne_zero p)

  free-Lists : Lists freed
  free-Lists =
      let l = i.lists in
      record {
        ready_state = l.ready_state;
        sleep_state = l.sleep_state;
        ready_distinct = l.ready_distinct;
        sleep_distinct = l.sleep_distinct;
        ready_taken = λ q h. ground (arith, l.ready_taken q h, l.ready_state q h, tk q, ended);
        sleep_taken = λ q h. ground (arith, l.sleep_taken q h, l.sleep_state q h, tk q, ended);
        idle_out = l.idle_out;
        ready_listed = λ q t r n. ground (arith, l.ready_listed q, tk q);
      }

  free-Slots : Slots freed
  free-Slots =
      let s = i.slots in
      record {
        idle_state = s.idle_state;
        one_running = λ q t r. ground (arith, s.one_running q, tk q);
        running_taken = ground (arith, s.running_taken, i.running_state, tk v.run, ended);
        idle_taken = ground (arith, s.idle_taken, s.idle_state, tk v.idle, ended);
        zero_taken = ground (arith, s.zero_taken, tk 0, ended);
        collector_alive = λ c h. ground (arith, s.collector_alive c h, tk c, ended);
      }

  free-Exits : Exits freed
  free-Exits =
      let x = i.exits in
      record {
        exit_distinct = ground (arith, x.exit_distinct);
        exit_state = λ q h. ground (arith, x.exit_state q);
        exit_taken = λ q h. ground (arith, x.exit_taken q, tk q, x.exit_distinct);
        exit_ne_zero = λ q h. ground (arith, x.exit_ne_zero q);
      }

  pub free-Valid : Valid freed
  free-Valid = record {
    lists = free-Lists;
    slots = free-Slots;
    exits = free-Exits;
    running_state = i.running_state;
  }
