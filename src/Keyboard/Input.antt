-- ===== src/Keyboard/Input.antt =====
-- kernel/drivers/Keyboard.c: the keyboard interrupt and the process that waits for a key.
use skhuos.Common.{
  ℕ, ◌-◌, ◌<◌, ◌≡◌, ◌≢◌, ◌⊎◌, refl, sym, ap, ◌∙◌, Bool, true, false, none, some, List, [], ◌∷◌,
  ◌++◌, ◌==◌, if◌then◌else◌, get_or, arith, Bool-cases, inl, inr,
}
use skhuos.Queue.{Queue, en_queue, de_queue}
use skhuos.Queue.Inv.{IsValid, en_queue-IsValid}
use skhuos.Queue.Slots.{slice}
use skhuos.Queue.Refine.{
  contents, data_size-en_queue, de_queue_empty, en_queue-refines, de_queue-refines,
}
use skhuos.Queue.Spec as Fifo
use skhuos.Process.{Kernel, ready, running, blocked, state_of, set_if, set_state, interrupts_on}
use skhuos.Process.Switch.{
  block_running_process, wakeup_process_in_interrupt, wakeup_process, wakeup, timeout_schedule,
  timeout_switch, is_blocked,
}
use skhuos.LinkedList.Spec
use skhuos.Process.Inv as Sched
use skhuos.Process.Leave.{state-block_running_process}
use skhuos.Keyboard.{Keyboard, got, waits, input_ascii, get_queue, get_key_round, get_key, resume}

-- The key queue is a valid ring of single bytes.
pub record Ready (k : Keyboard) : Type 0 where
  pub ring : IsValid k.key_queue
  pub bytes : k.key_queue.data_size ≡ 1

-- The characters that wait to be read, each as a block of one byte.
abbrev pub typed : Keyboard → List (List ℕ)
typed k = contents k.key_queue

-- `deQueue` on a queue of bytes.
get_queue_lem :
    (q : Queue) (old : ℕ)
    → IsValid q
    → q.data_size ≡ 1
    → let (q', out, success) = de_queue q (old ∷ []) in
      (contents q', if success then some (get_or out 0 0 ∷ []) else none) ≡ Fifo.pop (contents q)
get_queue_lem q old v b =
    let (q', out, success) = de_queue q (old ∷ []) in
    ap (λ n. (contents q', if success then some (slice out 0 n) else none)) (sym b)
    ∙ de_queue-refines q v (old ∷ []) (omega (arith, b))

pop_nil :
    (xs c : List (List ℕ)) (success : Bool) (x : List ℕ)
    → (c, if success then some x else none) ≡ Fifo.pop xs
    → xs ≡ []
    → success ≡ false
pop_nil xs c true x e n = absurd (cc)
pop_nil xs c false x e n = refl

pop_cons :
    (xs c ys : List (List ℕ)) (success : Bool) (x y : List ℕ)
    → (c, if success then some x else none) ≡ Fifo.pop xs
    → xs ≡ y ∷ ys
    → (success ≡ true) × (x ≡ y) × (c ≡ ys)
pop_cons xs c ys true x y e n = (refl, cc, cc)
pop_cons xs c ys false x y e n = absurd (cc)

round-first :
    (k : Keyboard) (old a : ℕ) (rest : List (List ℕ)) (pre_if : Bool) (s : Kernel)
    → Ready k
    → typed k ≡ (a ∷ []) ∷ rest
    → (k' : Keyboard) × (get_key_round pre_if old k s ≡ got a k' (set_if pre_if s).1)
      × (typed k' ≡ rest)
unfolding get_key_round get_queue
round-first k old a rest pre_if s r e =
    let (success, x, c) =
      pop_cons _ _ rest _ _ (a ∷ []) (get_queue_lem k.key_queue old r.ring r.bytes) e in
    rw success (
      (get_queue old k).0,
      ap (λ l. got (get_or l 0 0) (get_queue old k).0 (set_if pre_if s).1) x,
      c,
    )

-- If a character waits, `getKey` returns the oldest one, leaves the others, and leaves the interrupt flag
-- as it was set before the call.
get_key-first :
    (k : Keyboard) (old a : ℕ) (rest : List (List ℕ)) (s : Kernel)
    → Ready k
    → typed k ≡ (a ∷ []) ∷ rest
    → (k' : Keyboard) × (get_key old k s
        ≡ got a k' (set_if (interrupts_on s.cpu) (set_if false s).1).1)
      × (typed k' ≡ rest)
unfolding get_key set_if
get_key-first k old a rest s r e = round-first k old a rest _ (set_if false s).1 r e

round-waits :
    (k : Keyboard) (old : ℕ) (pre_if : Bool) (s : Kernel)
    → IsValid k.key_queue
    → typed k ≡ []
    → get_key_round pre_if old k s
      ≡ waits (record k { key_waiter = some s.running_process }) (block_running_process s)
unfolding get_key_round get_queue
round-waits k old pre_if s v e = rw (de_queue_empty k.key_queue (old ∷ []) v e) refl

state-timeout_switch :
    (l : List ℕ) (s : Kernel) (p : ℕ)
    → state_of s p ≡ ready
    → (state_of (timeout_switch l s) p ≡ ready) ⊎ (state_of (timeout_switch l s) p ≡ running)
unfolding timeout_switch
state-timeout_switch [] s p h = inl h
state-timeout_switch (x ∷ xs) s p h = ground arith

-- `wakeupProcessInInterrupt` leaves no BLOCKED process BLOCKED.
pub wakes :
    (p : ℕ) (s : Kernel)
    → state_of s p ≡ blocked
    → let s' = wakeup_process_in_interrupt (some p) s in
      (state_of s' p ≡ ready) ⊎ (state_of s' p ≡ running)
unfolding wakeup_process_in_interrupt wakeup_process wakeup timeout_schedule
wakes p s h = rw waiting (elim (Bool-cases (s.running_process == s.idle_process)) [
  | inl idle ↦ rw idle (state-timeout_switch (s.process_list ++ (p ∷ [])) w p (ground arith))
  | inr busy ↦ rw busy (inl (ground arith))
])
  where
    s₁ : Kernel
    s₁ = set_state (record s { sleep_list = Spec.remove s.sleep_list p }) p ready

    w : Kernel
    w = record s₁ { process_list = Spec.insert s₁.process_list p }

    waiting : is_blocked (state_of s p) ≡ true
    waiting = rw h refl

-- The queue behind the interrupt of a key with the character `a`.
put_Ready :
    (k : Keyboard) (a : ℕ)
    → Ready k
    → Ready (record k { key_queue = (en_queue k.key_queue (a ∷ [])).0; key_waiter = none })
put_Ready k a r = record {
  ring = en_queue-IsValid k.key_queue (a ∷ []) r.ring;
  bytes = data_size-en_queue k.key_queue (a ∷ []) ∙ r.bytes;
}

put_typed :
    (k : Keyboard) (a : ℕ)
    → Ready k
    → 1 < k.key_queue.len
    → typed k ≡ []
    → contents (en_queue k.key_queue (a ∷ [])).0 ≡ (a ∷ []) ∷ []
put_typed k a r room e =
    let q = k.key_queue in
    let stores : (0 == q.len - 1) ≡ false = ground arith in
    ap (λ x. x.0) (en_queue-refines q r.ring (a ∷ []))
    ∙ ap (λ n. (Fifo.push (q.len - 1) (contents q) (slice (a ∷ []) 0 n)).0) r.bytes
    ∙ ap (λ c. (Fifo.push (q.len - 1) c (a ∷ [])).0) e
    ∙ rw stores refl

-- One process calls `getKey` with no character typed yet: it is BLOCKED. If the next event is a key with a
-- character, that makes the process READY or RUNNING; and if no further key comes and no other process calls
-- `getKey` before the process runs again, `getKey` then returns that character.
pub get_key-wakes :
    (k : Keyboard) (old : ℕ) (s : Kernel) (a : ℕ) (pre_if : Bool) (s₃ : Kernel)
    → Ready k
    → typed k ≡ []
    → 1 < k.key_queue.len
    → Sched.IsValid s
    → s.running_process ≢ s.idle_process
    → a ≢ 0
    → (k₁ : Keyboard) × (s₁ : Kernel) × (get_key old k s ≡ waits k₁ s₁)
      × (state_of s₁ s.running_process ≡ blocked)
      × (let (k₂, s₂) = input_ascii a k₁ s₁ in
          ((state_of s₂ s.running_process ≡ ready) ⊎ (state_of s₂ s.running_process ≡ running))
          × ((k₃ : Keyboard) × (resume pre_if old k₂ s₃ ≡ got a k₃ (set_if pre_if s₃).1)))
unfolding get_key input_ascii set_if resume
get_key-wakes k old s a pre_if s₃ r e room i ni na =
    let p = s.running_process in
    let s₁ = block_running_process (set_if false s).1 in
    let sleeping : state_of s₁ p ≡ blocked =
      state-block_running_process (set_if false s).1 p i ni (inl refl) ∙ ground arith in
    let k₂ : Keyboard = record k {
      key_queue = (en_queue k.key_queue (a ∷ [])).0;
      key_waiter = none;
    } in
    let not_zero : (a == 0) ≡ false = ground arith in
    let (k₃, runs, left) =
      round-first k₂ old a [] pre_if s₃ (put_Ready k a r) (put_typed k a r room e) in
    (
      record k { key_waiter = some p },
      s₁,
      round-waits k old _ (set_if false s).1 r.ring e,
      sleeping,
      rw not_zero (wakes p (set_if false s₁).1 sleeping, (k₃, runs)),
    )
