-- ===== src/Fat/Files.antt =====
-- kernel/fs/FAT.c: creating, deleting, reading and writing files.
use skhuos.Common.{
  zero, suc, ◌-◌, ◌%◌, [], ◌∷◌, ℕ, ◌+◌, ◌*◌, Bool, true, false, Option, none, some, List, ◌==◌,
  if◌then◌else◌,
}
use skhuos.Sectors.{Buffer, put_dword, Device}
use skhuos.Fat.{
  Fs, print, read_cluster, read_cluster_to, write_cluster, cluster_of, size_of, has_name, is_file,
  first_from, put_entry, max_file_count, not_mounted, not_found, already_exists,
}
use skhuos.Fat.Alloc.{find_free_cluster, find_free_entry, set_cluster_link}

-- The characters that `printString` prints for a name, with the bytes that are left in the buffer: without a NUL
-- among these it would read on behind the buffer, which this does not follow.
unfoldable pub text_of : ℕ → (ℕ → ℕ) → List ℕ
text_of zero s = []
text_of (suc k) s =
    let rest = text_of k (λ j. s (suc j)) in if s 0 % 256 == 0 then [] else (s 0 % 256) ∷ rest

-- The loop of `showDir` from the entry `i` on: the names and the sizes that it prints. A size is the DWORD that is passed
-- to `printInt`, which prints an `int`.
unfoldable pub list_from : ℕ → ℕ → Buffer → List (List ℕ × ℕ)
list_from zero i b = []
list_from (suc n) i b =
    let rest = list_from n (i + 1) b in
    if cluster_of b i == 0
    then rest
    else (text_of (4096 - 32 * i) (λ j. b (32 * i + j)), size_of b i) ∷ rest

module _ {D : Type 0} (dev : Device D) where
  -- `createFile` with a free entry and a free cluster.
  unfoldable pub add_file : List ℕ → ℕ → ℕ → Fs D → Fs D
  add_file name entry cluster s =
      let s₁ = read_cluster dev 0 (set_cluster_link dev cluster 0xffffffff s) in
      let s₂ = record s₁ { buffer4096 = put_entry s₁.buffer4096 entry name cluster } in
      write_cluster dev 0 s₂.buffer4096 s₂

  -- `createFile` with what the searches for an entry and a cluster gave.
  unfoldable pub add_in_cluster : List ℕ → ℕ → Option ℕ × Fs D → Fs D
  add_in_cluster name entry (none, s) = s
  add_in_cluster name entry (some cluster, s) = add_file name entry cluster s

  unfoldable pub add_in_entry : List ℕ → Option ℕ × Fs D → Fs D
  add_in_entry name (none, s) = s
  add_in_entry name (some entry, s) = add_in_cluster name entry (find_free_cluster dev s)

  unfoldable pub add_unless : Option ℕ → List ℕ → Fs D → Fs D
  add_unless (some i) name s = print already_exists s
  add_unless none name s = add_in_entry name (find_free_entry dev s)

  unfoldable pub create_file : List ℕ → Fs D → Fs D
  create_file name s =
      let s₁ = read_cluster dev 0 s in
      if s.is_mounted
      then add_unless (first_from (is_file s₁.buffer4096 name) 0 max_file_count) name s₁
      else print not_mounted s

  -- `deleteFile` at the entry that it found.
  unfoldable pub remove_entry : Option ℕ → Fs D → Fs D
  remove_entry none s = print not_found s
  remove_entry (some i) s =
      let s₁ = set_cluster_link dev (cluster_of s.buffer4096 i) 0 s in
      let dropped = put_dword s₁.buffer4096 (32 * i + 28) 0 in
      let marked : Buffer = λ j. if j == 32 * i then 0xe5 else dropped j in
      write_cluster dev 0 marked (record s₁ { buffer4096 = marked })

  unfoldable pub delete_file : List ℕ → Fs D → Fs D
  delete_file name s =
      let s₁ = read_cluster dev 0 s in
      if s.is_mounted
      then remove_entry (first_from (has_name s₁.buffer4096 name) 0 max_file_count) s₁
      else print not_mounted s

  -- `readFile` at the entry that it found: the size (`none` for -1), the caller's buffer, and the state.
  unfoldable pub read_entry : Option ℕ → Buffer → Fs D → Option ℕ × Buffer × Fs D
  read_entry none buffer s = (none, buffer, print not_found s)
  read_entry (some i) buffer s =
      let (b, s₁) = read_cluster_to dev (cluster_of s.buffer4096 i) buffer s in
      (some (size_of s₁.buffer4096 i), b, s₁)

  unfoldable pub read_file : List ℕ → Buffer → Fs D → Option ℕ × Buffer × Fs D
  read_file name buffer s =
      let s₁ = read_cluster dev 0 s in
      if s.is_mounted
      then read_entry (first_from (is_file s₁.buffer4096 name) 0 max_file_count) buffer s₁
      else (none, buffer, print not_mounted s)

  -- `writeFile` at the entry that it found.
  unfoldable pub write_entry : Option ℕ → Buffer → ℕ → Fs D → Fs D × Bool
  write_entry none buffer size s = (print not_found s, false)
  write_entry (some i) buffer size s =
      let s₁ = write_cluster dev (cluster_of s.buffer4096 i) buffer s in
      let s₂ = record s₁ { buffer4096 = put_dword s₁.buffer4096 (32 * i + 24) size } in
      (write_cluster dev 0 s₂.buffer4096 s₂, true)

  unfoldable pub write_file : List ℕ → Buffer → ℕ → Fs D → Fs D × Bool
  write_file name buffer size s =
      let s₁ = read_cluster dev 0 s in
      if s.is_mounted
      then write_entry (first_from (is_file s₁.buffer4096 name) 0 max_file_count) buffer size s₁
      else (print not_mounted s, false)

  -- `showDir`: what it prints, `none` for the message.
  unfoldable pub show_dir : Fs D → Option (List (List ℕ × ℕ)) × Fs D
  show_dir s =
      let s₁ = read_cluster dev 0 s in
      if s.is_mounted
      then (some (list_from max_file_count 0 s₁.buffer4096), s₁)
      else (none, print not_mounted s)
