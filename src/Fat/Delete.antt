-- ===== src/Fat/Delete.antt =====
-- kernel/fs/FAT.c: `deleteFile` removes one file, and no other file.
use skhuos.Common.{
  ℕ, ◌+◌, ◌*◌, ◌/◌, ◌%◌, ◌<◌, ◌≤◌, ◌≡◌, ◌≢◌, ◌⊎◌, inl, inr, refl, sym, ap, ◌∙◌, true, false, none,
  some, List, ◌==◌, if◌then◌else◌, arith, Bool-cases, if_true, if_false,
}
use skhuos.CString.Compare.{same_unique}
use skhuos.Sectors.{Buffer, get_dword, put_dword, save, Device, Works}
use skhuos.Sectors.Dword.{put_dword_outside, save_inside, save_outside}
use skhuos.Fat.{
  Fs, read512, write512, read_cluster, write_cluster, cluster_of, has_name, is_file, first_from,
}
use skhuos.Fat.Alloc.{link_sector, set_cluster_link}
use skhuos.Fat.Files.{delete_file, remove_entry}
use skhuos.Fat.Io
use skhuos.Fat.Io.{
  first_from-same, first_from-some, first_from-none, get_dword-Agree, has_name-Agree, has_name_lem,
  is_file-Agree, start, InRange, dir,
}
use skhuos.Fat.Store.{FitsEntry, lookup, Stores, Mounted, loaded, entry_loaded}
use skhuos.Fat.Update.{is_file-true}
use skhuos.Fat.Fresh.{no_cluster}

-- The directory without its entry `i`.
unfoldable removed : Buffer → ℕ → Buffer
removed b i j = if j == 32 * i then 0xe5 else put_dword b (32 * i + 28) 0 j

removed-other :
    (b c : Buffer) (i e : ℕ)
    → e ≢ i
    → ((j : ℕ) → 32 * e ≤ j → j < 32 * e + 32 → b j ≡ c j)
    → (j : ℕ) → 32 * e ≤ j
    → j < 32 * e + 32
    → removed b i j ≡ c j
unfolding removed
removed-other b c i e ne h j p q =
    let out : (j < 32 * i) ⊎ (32 * i + 32 ≤ j) = omega (arith, ne) in
    if_false (j == 32 * i) 0xe5 _ (ground arith)
    ∙ put_dword_outside b (32 * i + 28) 0 j (omega arith)
    ∙ h j p q

removed-cluster : (b : Buffer) (i : ℕ) → cluster_of (removed b i) i ≡ 0
unfolding removed put_dword
removed-cluster b i = ground arith

module _ {D : Type 0} {dev : Device D} {bytes : D → Buffer} (w : Works dev bytes) (s : Fs D)
    (m : Mounted s) (name : List ℕ) (fits : FitsEntry name) (i : ℕ)
    (found : first_from (has_name (dir bytes s) name) 0 128 ≡ some i)
    (front : s.fat_infor.link_sector_address + cluster_of (dir bytes s) i / 128
      < s.fat_infor.data_address) where
  inside : i < 128
  inside = (first_from-some (has_name (dir bytes s) name) 0 128 i found).1

  abbrev removed_state : Fs D
  removed_state =
      let s₁ = read_cluster dev 0 s in
      let s₂ = set_cluster_link dev (cluster_of s₁.buffer4096 i) 0 s₁ in
      let b = removed s₂.buffer4096 i in write_cluster dev 0 b (record s₂ { buffer4096 = b })

  delete_file_run : delete_file dev name s ≡ removed_state
  unfolding delete_file remove_entry removed
  delete_file_run =
      let (t, short) = fits in
      let search : first_from (has_name (read_cluster dev 0 s).buffer4096 name) 0 128 ≡ some i =
        first_from-same _ _ 0 128 (λ e a b.
          has_name-Agree (read_cluster dev 0 s).buffer4096 (dir bytes s) name e t short b
            (λ j c d. loaded w s m j (omega arith)))
        ∙ found in
      if_true s.is_mounted _ _ m.mounted
      ∙ ap (λ o. remove_entry dev o (read_cluster dev 0 s)) search

  abbrev linked : Fs D
  linked =
      set_cluster_link dev (cluster_of (read_cluster dev 0 s).buffer4096 i) 0 (read_cluster dev 0 s)

  infor-linked : linked.fat_infor ≡ s.fat_infor
  unfolding set_cluster_link read512 write512 read_cluster
  infor-linked = refl

  mounted-linked : linked.is_mounted ≡ s.is_mounted
  unfolding set_cluster_link read512 write512 read_cluster
  mounted-linked = refl

  buffer-linked : linked.buffer4096 ≡ (read_cluster dev 0 s).buffer4096
  unfolding set_cluster_link read512 write512
  buffer-linked = refl

  -- The sector of the link lies in front of the directory, and only it is changed.
  disk-linked : (a : ℕ) → 512 * s.fat_infor.data_address ≤ a → bytes linked.disk a ≡ bytes s.disk a
  unfolding set_cluster_link read512 write512
  disk-linked a h =
      let s₁ = read_cluster dev 0 s in
      let sector = link_sector s₁ (cluster_of s₁.buffer4096 i) in
      let same_cluster = (entry_loaded w s m i inside).0 in
      let infor = Io.infor-read_cluster dev 0 s in
      let at : sector < s.fat_infor.data_address =
        omega (arith, same_cluster, front, m.root, ap (λ f. f.link_sector_address) infor) in
      let (n, b, d) = dev.read_sector 1 sector s₁.buffer512 s₁.disk in
      let freed = put_dword b (4 * (cluster_of s₁.buffer4096 i % 128)) 0 in
      let put =
        w.write_bytes 1 sector freed d (omega arith) (omega arith) (omega (arith, m.root)) in
      ap (λ x. x a) put
      ∙ save_outside (bytes d) (512 * sector) 512 freed a (inr (omega arith))
      ∙ ap (λ x. x a) (w.read_keeps 1 sector s₁.buffer512 s₁.disk)
      ∙ ap (λ x. x a) (Io.disk-read_cluster w 0 s)

  abbrev new_dir : Buffer
  new_dir = removed linked.buffer4096 i

  infor-removed : removed_state.fat_infor ≡ s.fat_infor
  unfolding write_cluster
  infor-removed = infor-linked

  mounted-removed : removed_state.is_mounted ≡ s.is_mounted
  unfolding write_cluster
  mounted-removed = mounted-linked

  start-removed : (c : ℕ) → start removed_state c ≡ start s c
  start-removed c = ap (λ f. 512 * (f.data_address + c * 8)) infor-removed

  byte-removed :
      (a : ℕ) → bytes removed_state.disk a ≡ save (bytes linked.disk) (start s 0) 4096 new_dir a
  byte-removed a =
      let s₃ = record linked { buffer4096 = new_dir } in
      let address = ap (λ f. f.data_address) infor-linked in
      ap (λ d. d a) (Io.disk-write_cluster w 0 new_dir s₃ (omega (arith, m.root, address)))
      ∙ ap (λ f. save (bytes linked.disk) (512 * (f.data_address + 0 * 8)) 4096 new_dir a)
          infor-linked

  dir-removed : (j : ℕ) → j < 4096 → dir bytes removed_state j ≡ new_dir j
  dir-removed j l =
      ap (λ o. bytes removed_state.disk (o + j)) (start-removed 0)
      ∙ byte-removed (start s 0 + j)
      ∙ save_inside (bytes linked.disk) (start s 0) 4096 new_dir j l

  -- The other entries, and the clusters behind the directory, are as before.
  entry-removed :
      (e : ℕ)
      → e < 128
      → e ≢ i
      → (j : ℕ) → 32 * e ≤ j
      → j < 32 * e + 32
      → dir bytes removed_state j ≡ dir bytes s j
  entry-removed e h ne j p q =
      dir-removed j (omega arith)
      ∙ removed-other linked.buffer4096 (dir bytes s) i e ne
          (λ k a b. ap (λ x. x k) buffer-linked ∙ loaded w s m k (omega arith)) j p q

  field-removed :
      (e o : ℕ)
      → e < 128
      → e ≢ i
      → o ≤ 28
      → get_dword (dir bytes removed_state) (32 * e + o) ≡ get_dword (dir bytes s) (32 * e + o)
  field-removed e o h ne l =
      let same_byte = entry-removed e h ne in
      omega (
        arith,
        same_byte (32 * e + o) (omega arith) (omega arith),
        same_byte (32 * e + o + 1) (omega arith) (omega arith),
        same_byte (32 * e + o + 2) (omega arith) (omega arith),
        same_byte (32 * e + o + 3) (omega arith) (omega arith),
      )

  cluster-removed :
      (c k : ℕ)
      → c ≢ 0
      → k < 4096
      → bytes removed_state.disk (start removed_state c + k) ≡ bytes s.disk (start s c + k)
  cluster-removed c k nz l =
      ap (λ o. bytes removed_state.disk (o + k)) (start-removed c)
      ∙ byte-removed (start s c + k)
      ∙ save_outside (bytes linked.disk) (start s 0) 4096 new_dir (start s c + k)
          (inr (omega arith))
      ∙ disk-linked (start s c + k) (omega arith)

  is_file-removed :
      (other : List ℕ) (e : ℕ)
      → FitsEntry other
      → e < 128
      → e ≢ i
      → is_file (dir bytes removed_state) other e ≡ is_file (dir bytes s) other e
  is_file-removed other e (t, short) h ne =
      is_file-Agree (dir bytes removed_state) (dir bytes s) other e t short h
        (λ j a b. entry-removed e h ne j a (omega arith)) (field-removed e 28 h ne (omega arith))

  no_file-removed : (other : List ℕ) → is_file (dir bytes removed_state) other i ≡ false
  no_file-removed other = no_cluster (dir bytes removed_state) other i (
      get_dword-Agree (dir bytes removed_state) new_dir (32 * i + 28) (omega (arith, inside))
        dir-removed
      ∙ removed-cluster linked.buffer4096 i)

  -- `deleteFile` of the file whose entry is the first one with its name, of at most 23 characters, on a mounted disk
  -- whose transfers are complete (`Works`), with the FAT in front of the directory: the file system stays mounted. If no other live entry has the name, it is not found any more.
  pub delete_file-lookup :
      ((e : ℕ) → e < 128 → is_file (dir bytes s) name e ≡ true → e ≡ i)
      → let s' = delete_file dev name s in Mounted s' × (lookup bytes s' name ≡ none)
  delete_file-lookup only = rw delete_file_run (
    record {
      mounted = mounted-removed ∙ m.mounted;
      root = omega (arith, m.root, ap (λ f. f.data_address) infor-removed);
    },
    first_from-none (is_file (dir bytes removed_state) name) 0 128 (λ e a b.
        elim (Bool-cases (e == i)) [
          | inl same ↦ let at : e ≡ i = ground arith in rw at (no_file-removed name)
          | inr differs ↦
              let ne : e ≢ i = λ x. ground arith in
              is_file-removed name e fits b ne ∙ elim (Bool-cases (is_file (dir bytes s) name e)) [
                | inl live ↦ absurd (ne (only e b live))
                | inr dead ↦ dead
              ]
        ]),
  )

  -- The entry has no other name.
  one_name :
      (other : List ℕ) → FitsEntry other → is_file (dir bytes s) other i ≡ true → other ≡ name
  one_name other (u, short) live =
      let (t, fit) = fits in
      same_unique (λ j. dir bytes s (32 * i + j)) other name u t
        (sym (has_name_lem (dir bytes s) other i u) ∙ (is_file-true (dir bytes s) other i live).1)
        (sym (has_name_lem (dir bytes s) name i t)
          ∙ (first_from-some (has_name (dir bytes s) name) 0 128 i found).2)

  lookup-removed :
      (other : List ℕ)
      → FitsEntry other
      → other ≢ name
      → lookup bytes removed_state other ≡ lookup bytes s other
  lookup-removed other fits' differs =
      first_from-same (is_file (dir bytes removed_state) other) (is_file (dir bytes s) other) 0 128
        (λ e a b. elim (Bool-cases (e == i)) [
          | inl same ↦
              let at : e ≡ i = ground arith in
              rw at (
                no_file-removed other ∙ elim (Bool-cases (is_file (dir bytes s) other i)) [
                  | inl live ↦ absurd (differs (one_name other fits' live))
                  | inr dead ↦ sym dead
                ])
          | inr apart ↦ is_file-removed other e fits' b (λ x. ground arith)
        ])

  -- `deleteFile` of the file whose entry is the first one with its name, of at most 23 characters, on a mounted disk
  -- whose transfers are complete (`Works`), with the FAT in front of the directory, leaves every other stored file as it is.
  pub delete_file-Stores :
      (other : List ℕ) (size : ℕ) (kept : Buffer)
      → FitsEntry other
      → other ≢ name
      → Stores bytes s other size kept
      → Stores bytes (delete_file dev name s) other size kept
  delete_file-Stores other size kept fits' differs so =
      let e = so.slot in
      let (low, h, is) = first_from-some (is_file (dir bytes s) other) 0 128 e so.found in
      let live = (is_file-true (dir bytes s) other e is).0 in
      let ne : e ≢ i =
        λ x. differs (one_name other fits' (ap (is_file (dir bytes s) other) (sym x) ∙ is)) in
      let same_cluster = field-removed e 28 h ne (omega arith) in
      rw delete_file_run (record {
        slot = e;
        found = lookup-removed other fits' differs ∙ so.found;
        sized = field-removed e 24 h ne (omega arith) ∙ so.sized;
        in_range = omega (arith, same_cluster, so.in_range, ap (λ f. f.data_address) infor-removed);
        stored = λ k l.
            ap (λ c. bytes removed_state.disk (start removed_state c + k)) same_cluster
            ∙ cluster-removed (cluster_of (dir bytes s) e) k live l
            ∙ so.stored k l;
      })
