-- ===== src/Fat/Store.antt =====
-- kernel/fs/FAT.c: the file system as a store of named files: what reading and writing a file means.
use skhuos.Common.{
  ℕ, ◌+◌, ◌*◌, ◌<◌, ◌≤◌, ◌≡◌, ap, ◌∙◌, true, Option, some, List, length, arith, if_true,
}
use mathlib.Core.Path.{ap₂}
use skhuos.CString.Compare.{IsText}
use skhuos.Sectors.{Buffer, Device, Works}
use skhuos.Fat.{Fs, read_cluster, cluster_of, size_of, is_file, first_from}
use skhuos.Fat.Files.{read_file, read_entry}
use skhuos.Fat.Io.{
  Agree, get_dword-Agree, is_file-Agree, first_from-same, first_from-some, start, InRange, dir,
  buffer-read_cluster, buffer-read_cluster_to, disk-read_cluster, infor-read_cluster,
  buffer4096-read_cluster_to, disk-read_cluster_to,
}

-- A name that fits a directory entry, with its NUL.
abbrev pub FitsEntry : List ℕ → Type 0
FitsEntry name = IsText name × (length name ≤ 23)

-- The entry of a file: the first live one with its name.
abbrev pub lookup : {D : Type 0} → (D → Buffer) → Fs D → List ℕ → Option ℕ
lookup bytes s name = first_from (is_file (dir bytes s) name) 0 128

-- The file system stores a file of a name, with a size and the bytes of its cluster.
pub record Stores {D : Type 0} (bytes : D → Buffer) (s : Fs D) (name : List ℕ) (size : ℕ)
    (content : Buffer) : Type 0 where
  pub slot : ℕ
  pub found : lookup bytes s name ≡ some slot
  pub sized : size_of (dir bytes s) slot ≡ size
  pub in_range : InRange s (cluster_of (dir bytes s) slot)
  pub stored :
      (k : ℕ) → k < 4096 → bytes s.disk (start s (cluster_of (dir bytes s) slot) + k) ≡ content k

-- The file system is mounted, and the sectors of its root directory have addresses.
pub record Mounted {D : Type 0} (s : Fs D) : Type 0 where
  pub mounted : s.is_mounted ≡ true
  pub root : InRange s 0

module _ {D : Type 0} {dev : Device D} {bytes : D → Buffer} (w : Works dev bytes) (s : Fs D)
    (m : Mounted s) where
  -- The buffer in which every operation first reads the root directory.
  pub loaded : Agree (read_cluster dev 0 s).buffer4096 (dir bytes s)
  loaded j h = ap (λ b. b j) (buffer-read_cluster w 0 s m.root) ∙ ground arith

  pub lookup_loaded :
      (name : List ℕ)
      → FitsEntry name
      → first_from (is_file (read_cluster dev 0 s).buffer4096 name) 0 128 ≡ lookup bytes s name
  lookup_loaded name (t, l) = first_from-same _ _ 0 128 (λ i a b.
      is_file-Agree (read_cluster dev 0 s).buffer4096 (dir bytes s) name i t l b
        (λ j c d. loaded j (omega arith))
        (get_dword-Agree (read_cluster dev 0 s).buffer4096 (dir bytes s) (32 * i + 28) (omega arith)
          loaded))

  pub entry_loaded :
      (i : ℕ)
      → i < 128
      → (cluster_of (read_cluster dev 0 s).buffer4096 i ≡ cluster_of (dir bytes s) i)
        × (size_of (read_cluster dev 0 s).buffer4096 i ≡ size_of (dir bytes s) i)
  entry_loaded i h =
      let b = (read_cluster dev 0 s).buffer4096 in
      (
        get_dword-Agree b (dir bytes s) (32 * i + 28) (omega arith) loaded,
        get_dword-Agree b (dir bytes s) (32 * i + 24) (omega arith) loaded,
      )

  read_file_run :
      (name : List ℕ) (out : Buffer)
      → FitsEntry name
      → read_file dev name out s ≡ read_entry dev (lookup bytes s name) out (read_cluster dev 0 s)
  unfolding read_file
  read_file_run name out fits =
      if_true s.is_mounted _ _ m.mounted
      ∙ ap (λ o. read_entry dev o out (read_cluster dev 0 s)) (lookup_loaded name fits)

  read_entry_lem :
      (i : ℕ) (out : Buffer)
      → i < 128
      → InRange s (cluster_of (dir bytes s) i)
      → let (r, b, s') = read_entry dev (some i) out (read_cluster dev 0 s) in
        (r ≡ some (size_of (dir bytes s) i))
        × ((k : ℕ) → k < 4096 → b k ≡ bytes s.disk (start s (cluster_of (dir bytes s) i) + k))
        × (bytes s'.disk ≡ bytes s.disk)
  unfolding read_entry
  read_entry_lem i out h range =
      let s₁ = read_cluster dev 0 s in
      let c = cluster_of s₁.buffer4096 i in
      let (same_cluster, same_size) = entry_loaded i h in
      let kept : start s₁ c ≡ start s (cluster_of (dir bytes s) i) =
        ap (λ f. 512 * (f.data_address + c * 8)) (infor-read_cluster dev 0 s)
        ∙ ap (start s) same_cluster in
      let range₁ : InRange s₁ c =
        omega (arith, ap (λ f. f.data_address) (infor-read_cluster dev 0 s), same_cluster, range) in
      (
        ap (λ b. some (size_of b i)) (buffer4096-read_cluster_to dev c s₁ out) ∙ ap some same_size,
        λ k l.
            ap (λ b. b k) (buffer-read_cluster_to w c out s₁ range₁)
            ∙ ground arith
            ∙ ap₂ (λ d o. d (o + k)) (disk-read_cluster w 0 s) kept,
        disk-read_cluster_to w c out s₁ ∙ disk-read_cluster w 0 s,
      )

  -- `readFile` of a stored file returns its size and fills the buffer with its bytes, and the disk keeps all
  -- of its bytes.
  pub read_file-Stores :
      (name : List ℕ) (size : ℕ) (content out : Buffer)
      → FitsEntry name
      → Stores bytes s name size content
      → let (r, b, s') = read_file dev name out s in
        (r ≡ some size) × ((k : ℕ) → k < 4096 → b k ≡ content k) × (bytes s'.disk ≡ bytes s.disk)
  read_file-Stores name size content out fits st =
      let i = st.slot in
      let (r, b, d) = read_entry_lem i out (first_from-some _ 0 128 i st.found).1 st.in_range in
      rw (read_file_run name out fits, st.found)
        (r ∙ ap some st.sized, λ k h. b k h ∙ st.stored k h, d)
