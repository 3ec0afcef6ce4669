-- ===== src/Keyboard.antt =====
-- kernel/drivers/Keyboard.c: from scan codes to the characters that a process reads.
--
-- The 8042 controller is the sequence of the bytes that it will deliver. `getScanCode` waits for the next
-- one; `none` stands for a wait that does not end as none comes.
pub mod Shift
pub mod Input
use skhuos.Common.{
  ℕ, zero, suc, Bool, true, false, Option, none, some, List, [], ◌∷◌, ◌==◌, if◌then◌else◌, get_or,
  leb,
}
use skhuos.Queue.{Queue, init_queue, en_queue, de_queue}
use skhuos.Process.{Kernel, set_if}
use skhuos.Process.Switch.{block_running_process, wakeup_process_in_interrupt}

abbrev pub key_shift_down : ℕ
key_shift_down = 0x2a

abbrev pub key_shift_up : ℕ
key_shift_up = 0xaa

abbrev pub key_pause : ℕ
key_pause = 0x80

abbrev pub queue_count : ℕ
queue_count = 50

-- `keyMappingTable`, with the numbers of the characters and of the `KEY_…` constants.
abbrev pub key_mapping_table : List (ℕ × ℕ)
key_mapping_table =
    (0, 0)
    ∷ (27, 27)
    ∷ (49, 33)
    ∷ (50, 64)
    ∷ (51, 35)
    ∷ (52, 36)
    ∷ (53, 37)
    ∷ (54, 94)
    ∷ (55, 38)
    ∷ (56, 42)
    ∷ (57, 40)
    ∷ (48, 41)
    ∷ (45, 95)
    ∷ (61, 43)
    ∷ (8, 8)
    ∷ (9, 9)
    ∷ (113, 81)
    ∷ (119, 87)
    ∷ (101, 69)
    ∷ (114, 82)
    ∷ (116, 84)
    ∷ (121, 89)
    ∷ (117, 85)
    ∷ (105, 73)
    ∷ (111, 79)
    ∷ (112, 80)
    ∷ (91, 123)
    ∷ (93, 125)
    ∷ (10, 10)
    ∷ (109, 109)
    ∷ (97, 65)
    ∷ (115, 83)
    ∷ (100, 68)
    ∷ (102, 70)
    ∷ (103, 71)
    ∷ (104, 72)
    ∷ (106, 74)
    ∷ (107, 75)
    ∷ (108, 76)
    ∷ (59, 58)
    ∷ (39, 34)
    ∷ (96, 126)
    ∷ (111, 111)
    ∷ (92, 124)
    ∷ (122, 90)
    ∷ (120, 88)
    ∷ (99, 67)
    ∷ (118, 86)
    ∷ (98, 66)
    ∷ (110, 78)
    ∷ (109, 77)
    ∷ (44, 60)
    ∷ (46, 62)
    ∷ (47, 63)
    ∷ (112, 112)
    ∷ (42, 42)
    ∷ (110, 110)
    ∷ (32, 32)
    ∷ (114, 114)
    ∷ (97, 97)
    ∷ (98, 98)
    ∷ (99, 99)
    ∷ (100, 100)
    ∷ (101, 101)
    ∷ (102, 102)
    ∷ (103, 103)
    ∷ (104, 104)
    ∷ (105, 105)
    ∷ (106, 106)
    ∷ (115, 115)
    ∷ (116, 116)
    ∷ (118, 55)
    ∷ (123, 56)
    ∷ (121, 57)
    ∷ (45, 45)
    ∷ (124, 52)
    ∷ (125, 53)
    ∷ (126, 54)
    ∷ (43, 43)
    ∷ (120, 49)
    ∷ (127, 50)
    ∷ (122, 51)
    ∷ (117, 48)
    ∷ (119, 46)
    ∷ (0, 0)
    ∷ (0, 0)
    ∷ (0, 0)
    ∷ (107, 107)
    ∷ (108, 108)
    ∷ []

-- `keyMappingTable[scanCode][shiftOn]`
unfoldable pub key_mapping : ℕ → Bool → ℕ
key_mapping code false = (get_or key_mapping_table code (0, 0)).0
key_mapping code true = (get_or key_mapping_table code (0, 0)).1

-- The static variables of Keyboard.c, and the bytes of the controller.
pub record Keyboard : Type 0 where
  pub shift_on : Bool
  pub key_queue : Queue
  pub key_waiter : Option ℕ
  pub controller : List ℕ

-- `initKeyboard` with the buffer of the queue; the registration of the handler has no state here.
unfoldable pub init_keyboard : List ℕ → Keyboard → Keyboard
init_keyboard queue_buffer k = record k {
  key_queue = init_queue queue_buffer queue_count 1;
  shift_on = false;
}

-- `getScanCode`, with the bytes of the controller as its last argument.
unfoldable pub next_byte : Keyboard → List ℕ → Option (ℕ × Keyboard)
next_byte k [] = none
next_byte k (b ∷ bs) = some (b, record k { controller = bs })

unfoldable pub get_scan_code : Keyboard → Option (ℕ × Keyboard)
unfolding next_byte
get_scan_code k = next_byte k k.controller

-- What `scanToASCII` gives after `getScanCode` has taken `n` more bytes.
unfoldable pub after_bytes : ℕ → ℕ → Keyboard → Option (ℕ × Keyboard)
unfolding get_scan_code
after_bytes zero a k = some (a, k)
after_bytes (suc n) a k = elim (get_scan_code k) [ none ↦ none | some (b, k') ↦ after_bytes n a k' ]

-- The release of SHIFT, which goes on to the tests of the other codes.
abbrev pub shift_up : ℕ → Keyboard → Keyboard
shift_up code k = if code == key_shift_up then record k { shift_on = false } else k

unfoldable pub scan_to_ascii : ℕ → Keyboard → Option (ℕ × Keyboard)
unfolding key_mapping after_bytes
scan_to_ascii code k =
    if code == key_shift_down
    then some (0, record k { shift_on = true })
    else (let k₁ = shift_up code k in
        if code == 0xe1
        then after_bytes 2 key_pause k₁
        else if code == 0xe0
        then after_bytes 1 0 k₁
        else if leb 89 code
        then some (0, k₁)
        else some (key_mapping code k₁.shift_on, k₁))

-- `inputQueue` behind `scanToASCII`.
unfoldable pub input_ascii : ℕ → Keyboard → Kernel → Keyboard × Kernel
input_ascii a k s =
    if a == 0
    then (k, s)
    else (let (pre_if, s₁) = set_if false s in
        let k₁ = record k { key_queue = (en_queue k.key_queue (a ∷ [])).0 } in
        (k₁, (set_if pre_if (wakeup_process_in_interrupt k.key_waiter s₁)).1))

unfoldable pub input_queue : ℕ → Keyboard → Kernel → Option (Keyboard × Kernel)
unfolding scan_to_ascii input_ascii
input_queue code k s = elim (scan_to_ascii code k) [
  | none ↦ none
  | some (a, k₁) ↦ some (input_ascii a k₁ s)
]

-- `getQueue`: the keyboard, what `*data` holds (`old` before), and the return value; IF is as before.
unfoldable pub get_queue : ℕ → Keyboard → Keyboard × ℕ × Bool
get_queue old k =
    let (q, out, success) = de_queue k.key_queue (old ∷ []) in
    (record k { key_queue = q }, get_or out 0 0, success)

-- What a round of the loop of `getKey` comes to: a character, or the caller has been switched away from.
pub data Key : Type 0 where
  got : ℕ → Keyboard → Kernel → Key
  waits : Keyboard → Kernel → Key

-- A round of `getKey`, whose caller has set IF to 0 and has `pre_if` from it; `old` is what `data` holds. The
-- process that waits makes the next round, after it has set `keyWaiter` to NULL (`resume`).
unfoldable pub get_key_round : Bool → ℕ → Keyboard → Kernel → Key
unfolding get_queue
get_key_round pre_if old k s =
    let (k₁, byte, success) = get_queue old k in
    if success
    then got byte k₁ (set_if pre_if s).1
    else waits (record k₁ { key_waiter = some s.running_process }) (block_running_process s)

unfoldable pub get_key : ℕ → Keyboard → Kernel → Key
unfolding get_key_round
get_key old k s = let (pre_if, s₁) = set_if false s in get_key_round pre_if old k s₁

-- The next round of `getKey` once the process that waited runs again.
unfoldable pub resume : Bool → ℕ → Keyboard → Kernel → Key
unfolding get_key_round
resume pre_if old k s = get_key_round pre_if old (record k { key_waiter = none }) s
