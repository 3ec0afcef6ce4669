-- ===== src/Keyboard/Shift.antt =====
-- kernel/drivers/Keyboard.c: what a scan code does to the shift state, and which characters come out.
use skhuos.Common.{
  ℕ, zero, suc, ◌≤◌, ◌≡◌, refl, Bool, true, false, some, List, [], ◌∷◌, ◌==◌, if◌then◌else◌, get_or,
  leb, arith, length, ◌&&◌, ◌∙◌, Bool-cases, inl, inr,
}
use skhuos.Keyboard.{
  Keyboard, scan_to_ascii, key_mapping, key_mapping_table, shift_up, after_bytes, get_scan_code,
  next_byte,
}

-- What `scanToASCII` leaves: SHIFT is on after its code, off after that of its release, else as it was; the
-- queue and the waiting process are as they were; the character is at most 128.
pub record Scanned (code : ℕ) (k : Keyboard) (r : ℕ × Keyboard) : Type 0 where
  pub shift :
      r.1.shift_on ≡ (if code == 0x2a then true else if code == 0xaa then false else k.shift_on)
  pub queue : r.1.key_queue ≡ k.key_queue
  pub waiter : r.1.key_waiter ≡ k.key_waiter
  pub small : r.0 ≤ 128

abbrev all_small : List (ℕ × ℕ) → Bool
all_small [] = true
all_small (p ∷ ps) = leb p.0 128 && (leb p.1 128 && all_small ps)

get_or_small :
    (ps : List (ℕ × ℕ)) (i : ℕ)
    → all_small ps ≡ true
    → ((get_or ps i (0, 0)).0 ≤ 128) × ((get_or ps i (0, 0)).1 ≤ 128)
get_or_small [] i h = omega arith
get_or_small (p ∷ ps) zero h = ground arith
get_or_small (p ∷ ps) (suc i) h = get_or_small ps i (ground arith)

key_mapping_small : (code : ℕ) (on : Bool) → key_mapping code on ≤ 128
unfolding key_mapping
key_mapping_small code false = (get_or_small key_mapping_table code refl).0
key_mapping_small code true = (get_or_small key_mapping_table code refl).1

-- The bytes that follow a code go to nothing but the controller.
record Same (a : ℕ) (k : Keyboard) (r : ℕ × Keyboard) : Type 0 where
  char : r.0 ≡ a
  shift : r.1.shift_on ≡ k.shift_on
  queue : r.1.key_queue ≡ k.key_queue
  waiter : r.1.key_waiter ≡ k.key_waiter

after_bytes_lem :
    (n a : ℕ) (k : Keyboard) (bs : List ℕ)
    → n ≤ length bs
    → (r : ℕ × Keyboard) × (after_bytes n a (record k { controller = bs }) ≡ some r) × Same a k r
unfolding after_bytes get_scan_code next_byte
after_bytes_lem zero a k bs h = (
  (a, record k { controller = bs }),
  refl,
  record { char = refl; shift = refl; queue = refl; waiter = refl },
)
after_bytes_lem (suc n) a k [] h = absurd (omega arith)
after_bytes_lem (suc n) a k (b ∷ bs) h = after_bytes_lem n a k bs (omega arith)

module _ (code : ℕ) (k : Keyboard) (nd : (code == 0x2a) ≡ false) where
  scanned : (a : ℕ) (r : ℕ × Keyboard) → a ≤ 128 → Same a (shift_up code k) r → Scanned code k r
  scanned a r h m = record {
    shift = m.shift ∙ ground arith;
    queue = m.queue ∙ ground arith;
    waiter = m.waiter ∙ ground arith;
    small = rw m.char h;
  }

  follow :
      (n a : ℕ)
      → a ≤ 128
      → n ≤ length (shift_up code k).controller
      → (r : ℕ × Keyboard) × (after_bytes n a (shift_up code k) ≡ some r) × Scanned code k r
  follow n a small h =
      let (r, e, m) = after_bytes_lem n a (shift_up code k) (shift_up code k).controller h in
      (r, e, scanned a r small m)

-- How many bytes follow a code.
abbrev pub bytes_after : ℕ → ℕ
bytes_after code = if code == 0xe1 then 2 else if code == 0xe0 then 1 else 0

-- If the controller delivers the bytes that follow the code (two after 0xE1, one after 0xE0), `scanToASCII`
-- ends: SHIFT is on after its code, off after that of its release, else as it was; the queue and the
-- waiting process are as they were; the character is at most 128.
pub scan_to_ascii_total :
    (code : ℕ) (k : Keyboard)
    → bytes_after code ≤ length k.controller
    → (r : ℕ × Keyboard) × (scan_to_ascii code k ≡ some r) × Scanned code k r
unfolding scan_to_ascii
scan_to_ascii_total code k h = elim (Bool-cases (code == 0x2a)) [
  | inl down ↦
      rw down
        (_, refl, record { shift = rw down refl; queue = refl; waiter = refl; small = omega arith })
  | inr nd ↦ rw nd (elim (Bool-cases (code == 0xe1)) [
    | inl e1 ↦ rw e1 (follow code k nd 2 128 (omega arith) (ground arith))
    | inr n1 ↦ rw n1 (elim (Bool-cases (code == 0xe0)) [
      | inl e0 ↦ rw e0 (follow code k nd 1 0 (omega arith) (ground arith))
      | inr n0 ↦ rw n0 (elim (Bool-cases (leb 89 code)) [
        | inl out ↦ rw out (_, refl, scanned code k nd 0 _ (omega arith) same)
        | inr in_table ↦
            rw in_table (_, refl, scanned code k nd _ _ (key_mapping_small code _) same)
      ])
    ])
  ])
]
  where
    same : {a : ℕ} → Same a (shift_up code k) (a, shift_up code k)
    same = record { char = refl; shift = refl; queue = refl; waiter = refl }
