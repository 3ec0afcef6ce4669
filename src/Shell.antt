-- ===== src/Shell.antt =====
-- kernel/shell/Shell.c: the shell's line of input, its commands, and what they call. The text that a command
-- prints is left to common/Print.c.
pub mod Line
pub mod Lookup
pub mod Tasks
use skhuos.Common.{
  ℕ, zero, suc, ◌+◌, ◌-◌, ◌*◌, ◌/◌, ◌%◌, ◌^◌, Bool, true, false, not, ◌&&◌, ◌||◌, Option, none,
  some, List, [], ◌∷◌, ◌++◌, ◌==◌, if◌then◌else◌, leb, ltb, length,
}
use skhuos.CString.{c_string, strcmp, is_zero}
use skhuos.Sectors.{Buffer, Device}
use skhuos.Fat.{Fs}
use skhuos.Fat.Format.{mount, format}
use skhuos.Fat.Files.{create_file, delete_file}

abbrev pub key_enter : ℕ
key_enter = b'\n'

abbrev pub key_backspace : ℕ
key_backspace = 0x08

-- The functions of `commandTable`.
pub data Command : Type 0 where
  help clear_command mem_used reboot print_disk_capacity multi_tasking mount_command formatting :
      Command
  ls touch rm editor ring3 : Command

-- `commandTable[i].name`
abbrev pub name_of : Command → List ℕ
name_of help = b'h' ∷ b'e' ∷ b'l' ∷ b'p' ∷ []
name_of clear_command = b'c' ∷ b'l' ∷ b'e' ∷ b'a' ∷ b'r' ∷ []
name_of mem_used = b'm' ∷ b'e' ∷ b'm' ∷ b'U' ∷ b's' ∷ b'e' ∷ b'd' ∷ []
name_of reboot = b'r' ∷ b'e' ∷ b'b' ∷ b'o' ∷ b'o' ∷ b't' ∷ []
name_of print_disk_capacity =
    b'd' ∷ b'i' ∷ b's' ∷ b'k' ∷ b'C' ∷ b'a' ∷ b'p' ∷ b'a' ∷ b'c' ∷ b'i' ∷ b't' ∷ b'y' ∷ []
name_of multi_tasking =
    b'm' ∷ b'u' ∷ b'l' ∷ b't' ∷ b'i' ∷ b'T' ∷ b'a' ∷ b's' ∷ b'k' ∷ b'i' ∷ b'n' ∷ b'g' ∷ []
name_of mount_command = b'm' ∷ b'o' ∷ b'u' ∷ b'n' ∷ b't' ∷ []
name_of formatting = b'f' ∷ b'o' ∷ b'r' ∷ b'm' ∷ b'a' ∷ b't' ∷ b't' ∷ b'i' ∷ b'n' ∷ b'g' ∷ []
name_of ls = b'l' ∷ b's' ∷ []
name_of touch = b't' ∷ b'o' ∷ b'u' ∷ b'c' ∷ b'h' ∷ []
name_of rm = b'r' ∷ b'm' ∷ []
name_of editor = b'e' ∷ b'd' ∷ b'i' ∷ b't' ∷ b'o' ∷ b'r' ∷ []
name_of ring3 = b'r' ∷ b'i' ∷ b'n' ∷ b'g' ∷ b'3' ∷ []

-- The order of `commandTable`.
abbrev pub command_table : List Command
command_table =
    help ∷ clear_command ∷ mem_used ∷ reboot ∷ print_disk_capacity ∷ multi_tasking ∷ mount_command
    ∷ formatting ∷ ls ∷ touch ∷ rm ∷ editor ∷ ring3 ∷ []

-- What `executeCommand` does with a line: nothing, a command with the position of its argument, or a message.
pub data Execution : Type 0 where
  no_command : Execution
  run_command : Command → ℕ → Execution
  is_not_found : Execution

-- The loop that copies the first word, with the rounds that are left: its length.
unfoldable pub scan_name : ℕ → Buffer → ℕ → Option ℕ
scan_name zero cmd idx = none
scan_name (suc k) cmd idx =
    let rest = scan_name k cmd (idx + 1) in
    if (cmd idx == b' ') || (cmd idx == 0) then some idx else rest

-- The loop over `commandTable`, with the array `name`.
unfoldable pub find_command : Buffer → List Command → Option Command
find_command name [] = none
find_command name (c ∷ table) =
    let rest = find_command name table in
    if is_zero (strcmp (suc (length (name_of c))) name (c_string (name_of c))) then some c else rest

abbrev pub execution_of : Option Command → ℕ → Execution
execution_of (some c) arg = run_command c arg
execution_of none arg = is_not_found

-- `executeCommand` behind the scan.
abbrev pub execute_word : Buffer → ℕ → Execution
execute_word cmd idx =
    let arg = if cmd idx == b' ' then idx + 1 else idx in
    if idx == 0
    then no_command
    else execution_of (find_command (λ i. if ltb i idx then cmd i else 0) command_table) arg

-- `executeCommand` with a line in a buffer of 100 characters.
unfoldable pub execute_command : Buffer → Option Execution
execute_command cmd = elim (scan_name 100 cmd 0) [
  | none ↦ none
  | some idx ↦ some (execute_word cmd idx)
]

-- `bufferIndex` and `commandBuffer` of `startShell`, and what a round of its loop does besides.
pub record Shell : Type 0 where
  pub buffer_index : ℕ
  pub command_buffer : Buffer

pub data Shown : Type 0 where
  executed : Buffer → Shown
  skipped : Shown
  viewed : ℕ → Shown

abbrev pub store_char : Buffer → ℕ → ℕ → Buffer
store_char b i v j = if j == i then v else b j

-- A round of `startShell` for the key that `getKey` gave. The code does not compare the index with the size of
-- the array: what is stored at 100 and above is memory behind it.
unfoldable pub shell_key : ℕ → Shell → Shell × Shown
shell_key key s =
    let i = s.buffer_index in
    let b = s.command_buffer in
    if key == key_enter
    then (record { buffer_index = 0; command_buffer = store_char b 0 0 }, executed b)
    else if key == key_backspace
    then (if i == 0
        then (s, skipped)
        else (record { buffer_index = i - 1; command_buffer = store_char b (i - 1) 0 }, viewed key))
    else if not (key == 0)
    then (
      record { buffer_index = i + 1; command_buffer = store_char (store_char b i key) (i + 1) 0 },
      viewed key,
    )
    else (s, viewed key)

-- The loop for a sequence of keys.
unfoldable pub start_shell : List ℕ → Shell → Shell × List Shown
start_shell [] s = (s, [])
start_shell (key ∷ keys) s =
    let (s₁, shown) = shell_key key s in let (s₂, rest) = start_shell keys s₁ in (s₂, shown ∷ rest)

-- `getTotalSector()/2/1024`, the megabytes that `printDiskCapacity` prints.
unfoldable pub disk_capacity : ℕ → ℕ
disk_capacity total_sector = total_sector / 2 / 1024

-- The attack flag that `ring3` passes to the user program.
unfoldable pub attack_flag : Buffer → Bool
attack_flag arg =
    let attack = b'a' ∷ b't' ∷ b't' ∷ b'a' ∷ b'c' ∷ b'k' ∷ [] in
    is_zero (strcmp 7 arg (c_string attack))

-- `mountCommand`, `formatting`, `touch` and `rm` on the file system; the others leave it. The result says whether a
-- message of success is printed.
unfoldable pub run_on_disk : {D : Type 0} → Device D → Command → List ℕ → Fs D → Fs D × Bool
run_on_disk dev mount_command arg s = mount dev s
run_on_disk dev formatting arg s = format dev s
run_on_disk dev touch arg s = (create_file dev arg s, false)
run_on_disk dev rm arg s = (delete_file dev arg s, false)
run_on_disk dev c arg s = (s, false)
