-- ===== src/Interrupt/Keeps.antt =====
-- What an interrupt of the timer, the keyboard or a disk does to the scheduler's state keeps it good.
use skhuos.Common.{
  ℕ, ◌≤◌, ◌≡◌, inl, inr, refl, sym, ap, ◌∙◌, Bool, true, false, Option, some, List, [], ◌∷◌, ◌==◌,
  arith, length, Bool-cases,
}
use skhuos.Process.{Kernel, set_if}
use skhuos.Process.Switch.{timer_interrupt, wakeup_process_in_interrupt}
use skhuos.Process.Timer.{timer_interrupt-IsValid, wakeup_process_in_interrupt-IsValid}
use skhuos.Process.Frame.{index-timer_interrupt, index-wakeup_process_in_interrupt}
use skhuos.Process.Reach.{Good}
use skhuos.Keyboard.{Keyboard, input_ascii, input_queue, get_scan_code, next_byte}
use skhuos.Keyboard.Shift.{scan_to_ascii_total}
use skhuos.Interrupt.Frame.{slots_ticks, slots-wakeup_process_in_interrupt}

-- The process that waits for a device, if there is one, has a slot.
abbrev pub HasSlot : Kernel → Option ℕ → Type 0
HasSlot s o = (p : ℕ) → o ≡ some p → s.alloc_process_table p ≡ true

pub timer-Good : (s : Kernel) → Good s → Good (timer_interrupt s)
timer-Good s g = record {
  valid = timer_interrupt-IsValid s g.valid;
  index_bound = rw (index-timer_interrupt s) g.index_bound;
}

pub wakeup-Good :
    (o : Option ℕ) (s : Kernel) → Good s → HasSlot s o → Good (wakeup_process_in_interrupt o s)
wakeup-Good o s g t = record {
  valid = wakeup_process_in_interrupt-IsValid o s g.valid t;
  index_bound = rw (index-wakeup_process_in_interrupt o s) g.index_bound;
}

set_if-Good : (on : Bool) (s : Kernel) → Good s → Good (set_if on s).1
unfolding set_if
set_if-Good on s g = record { valid = g.valid; index_bound = g.index_bound }

slots-set_if : (on : Bool) (s : Kernel) → slots_ticks (set_if on s).1 ≡ slots_ticks s
unfolding set_if
slots-set_if on s = refl

-- A key leaves a good state and keeps the slots, the ticks and the waiting process.
input_ascii-Good :
    (a : ℕ) (k : Keyboard) (s : Kernel)
    → Good s
    → HasSlot s k.key_waiter
    → Good (input_ascii a k s).1
      × (slots_ticks (input_ascii a k s).1 ≡ slots_ticks s)
      × ((input_ascii a k s).0.key_waiter ≡ k.key_waiter)
unfolding input_ascii
input_ascii-Good a k s g t = elim (Bool-cases (a == 0)) [
  | inl zero_char ↦ rw zero_char (g, refl, refl)
  | inr char ↦
      let s₁ = (set_if false s).1 in
      let t₁ : HasSlot s₁ k.key_waiter = λ p e. ap (λ x. x.0 p) (slots-set_if false s) ∙ t p e in
      let s₂ = wakeup_process_in_interrupt k.key_waiter s₁ in
      rw char (
        set_if-Good (set_if false s).0 s₂ (wakeup-Good k.key_waiter s₁ (set_if-Good false s g) t₁),
        slots-set_if (set_if false s).0 s₂
            ∙ slots-wakeup_process_in_interrupt k.key_waiter s₁
            ∙ slots-set_if false s,
        refl,
      )
]

-- A scan code that the controller delivers with the bytes that belong to it.
pub input_queue-Good :
    (code : ℕ) (k : Keyboard) (s : Kernel)
    → Good s
    → HasSlot s k.key_waiter
    → 2 ≤ length k.controller
    → (k' : Keyboard) × (s' : Kernel) × (input_queue code k s ≡ some (k', s'))
      × Good s'
      × (slots_ticks s' ≡ slots_ticks s)
      × (k'.key_waiter ≡ k.key_waiter)
unfolding input_queue
input_queue-Good code k s g t room =
    let ((a, k₁), scanned, facts) = scan_to_ascii_total code k (ground arith) in
    let t₁ : HasSlot s k₁.key_waiter = λ p e. t p (sym facts.waiter ∙ e) in
    let (g', same, waiter) = input_ascii-Good a k₁ s g t₁ in
    rw (scanned, input_queue)
      ((input_ascii a k₁ s).0, (input_ascii a k₁ s).1, refl, g', same, waiter ∙ facts.waiter)

pub get_scan_code-some :
    (k : Keyboard)
    → 3 ≤ length k.controller
    → (code : ℕ) × (k' : Keyboard) × (get_scan_code k ≡ some (code, k'))
      × (k'.key_waiter ≡ k.key_waiter)
      × (2 ≤ length k'.controller)
unfolding get_scan_code next_byte
get_scan_code-some k h = go k.controller refl
  where
    go :
        (bytes : List ℕ)
        → k.controller ≡ bytes
        → (code : ℕ) × (k' : Keyboard) × (next_byte k bytes ≡ some (code, k'))
          × (k'.key_waiter ≡ k.key_waiter)
          × (2 ≤ length k'.controller)
    go [] e = absurd (omega (arith, ap length e))
    go (b ∷ bs) e = (b, record k { controller = bs }, refl, refl, omega (arith, ap length e))
