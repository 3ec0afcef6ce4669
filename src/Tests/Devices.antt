-- ===== src/Tests/Devices.antt =====
-- The theorems on the drivers at concrete inputs.
use skhuos.Common.{
  ◌+◌, ◌-◌, ◌%◌, ◌^◌, ◌↔◌, inl, inr, ◌≡◌, ◌≢◌, ◌⊎◌, ◌<◌, ◌≤◌, refl, true, false, none, [], ◌∷◌,
  arith, ◌==◌, if◌then◌else◌,
}
use skhuos.Process.{Kernel, ready, running, blocked, state_of, set_if}
use skhuos.Keyboard.{Keyboard, got, waits, get_key, input_ascii, resume}
use skhuos.Keyboard.Input.{Ready, get_key-wakes}
use skhuos.Screen.{Screen, Monitor, video_memory_addr, view_character}
use skhuos.Screen.Bounds.{view_character_bounds}
use skhuos.Pit.{start_stopwatch}
use skhuos.Pit.Watch.{reads, shown, stopwatch_lem}
use skhuos.PageTable.{Table, initialize_page_table}
use skhuos.PageTable.Identity.{present_identity}
use skhuos.Syscall.{is_user_string, write_xy}
use skhuos.Syscall.Check.{UserString, is_user_string_iff, write_xy_confined}
use skhuos.Tests.Scheduler.{booted, booted-IsValid}

-- A keyboard with a ring of four bytes and the characters `a` and `b` typed, and one with none.
abbrev typed_ab : Keyboard
typed_ab = record {
  shift_on = false;
  key_queue = record {
    front = 3;
    rear = 1;
    len = 4;
    data_size = 1;
    queue_arr = 98 ∷ 0 ∷ 0 ∷ 97 ∷ [];
  };
  key_waiter = none;
  controller = 0x1d ∷ 0x45 ∷ [];
}

abbrev untyped : Keyboard
untyped = record typed_ab {
  key_queue = record {
    front = 2;
    rear = 2;
    len = 4;
    data_size = 1;
    queue_arr = 98 ∷ 0 ∷ 0 ∷ 97 ∷ [];
  };
}

typed_ab-Ready : Ready typed_ab
typed_ab-Ready = record { ring = omega arith; bytes = refl }

untyped-Ready : Ready untyped
untyped-Ready = record { ring = omega arith; bytes = refl }

get_key-wakes_example :
    (k₁ : Keyboard) × (s₁ : Kernel) × (get_key 0 untyped booted ≡ waits k₁ s₁)
    × (state_of s₁ 0 ≡ blocked)
    × (let (k₂, s₂) = input_ascii 97 k₁ s₁ in
        ((state_of s₂ 0 ≡ ready) ⊎ (state_of s₂ 0 ≡ running))
        × ((k₃ : Keyboard) × (resume true 0 k₂ booted ≡ got 97 k₃ (set_if true booted).1)))
get_key-wakes_example =
    get_key-wakes untyped 0 booted 97 true booted untyped-Ready refl (omega arith) booted-IsValid
      (λ e. cc) (λ e. cc)

abbrev screen : Screen
screen = record { memory = λ a. if a == 0x3000005 then 0 else 65; current_point = 0xb8000 + 4000 }

abbrev dark : Screen
dark = record { memory = λ a. 0; current_point = 0xb8000 }

abbrev blank_monitor : Monitor
blank_monitor = record { vc = λ i. (0, 0); cp = 0 }

view_character_bounds_example :
    (video_memory_addr ≤ (view_character 66 screen).current_point)
    × ((view_character 66 screen).current_point < video_memory_addr + 4000)
    × ((view_character 66 screen).memory 0xb7fff ≡ 65)
view_character_bounds_example =
    view_character_bounds 66 screen 0xb7fff (omega arith) (omega arith) (inl (λ e. cc))
      (inl (omega arith))

-- The stopwatch at the full period of 65536 clocks, read 65530, 7 and 65535 clocks apart.
stopwatch_lem_example :
    (reads 65536 (65530 ∷ 7 ∷ 65535 ∷ []) (0, start_stopwatch (shown 65536 0))).1.elapsed_clock
    ≡ 131072
stopwatch_lem_example =
    stopwatch_lem 65536 (65530 ∷ 7 ∷ 65535 ∷ []) 0 (omega arith) (omega arith) (omega arith) refl

abbrev raw_table : Table
raw_table j = record { lower_4_byte = 0; upper_4_byte = 0 }

present_identity_example :
    let e = initialize_page_table raw_table 65536 in
    ((e.lower_4_byte % 2 ≡ 0) ⊎ (e.upper_4_byte ≡ 0))
    × ((65536 < 65536) ⊎ (e.upper_4_byte % 2 ^ 20 ≢ 0))
present_identity_example = present_identity raw_table 65536 (omega arith)

is_user_string_iff_example :
    (is_user_string screen.memory 0x3000000 ≡ true) ↔ UserString screen.memory 0x3000000
is_user_string_iff_example = is_user_string_iff screen.memory 0x3000000

write_xy_confined_example :
    let (r, s') = write_xy 3 70 0x3000000 screen in
    ((r ≡ 0) ⊎ (r ≡ 2 ^ 64 - 1))
    × ((is_user_string screen.memory 0x3000000 ≡ true) ⊎ (r ≡ 2 ^ 64 - 1))
    × (s'.memory 0x600000 ≡ 65)
write_xy_confined_example = write_xy_confined 3 70 0x3000000 screen 0x600000 (inr (omega arith))
