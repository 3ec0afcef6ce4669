-- ===== src/Fat/Create.antt =====
-- kernel/fs/FAT.c: the entry that `createFile` makes, with a free entry and a free cluster.
use skhuos.Common.{
  ℕ, zero, suc, ◌+◌, ◌-◌, ◌*◌, ◌/◌, ◌%◌, ◌^◌, ◌<◌, ◌≤◌, ◌≡◌, ◌≢◌, ◌⊎◌, inl, inr, refl, sym, ap, ◌∙◌,
  Bool, true, false, not, ◌&&◌, none, List, [], ◌∷◌, ◌==◌, if◌then◌else◌, leb, ltb, length, get_or,
  arith, Bool-cases, if_true,
}
use mathlib.Core.Path.{ap₂}
use skhuos.CString.{c_string}
use skhuos.CString.Compare.{same-window, same-c_string}
use skhuos.Sectors.{Buffer, put_dword, save, Device, Works}
use skhuos.Sectors.Dword.{
  get-put_dword, get-put_dword_ne, put_dword_outside, save_inside, save_outside,
}
use skhuos.Fat.{
  Fs, read512, write512, read_cluster, write_cluster, cluster_of, size_of, has_name, is_file,
  first_from, put_entry,
}
use skhuos.Fat.Alloc.{link_sector, set_cluster_link}
use skhuos.Fat.Files.{add_file}
use skhuos.Fat.Io
use skhuos.Fat.Io.{
  first_from-same, first_from-some, first_from-only, get_dword-Agree, has_name_lem, is_file-Agree,
  start, InRange, dir,
}
use skhuos.Fat.Store.{FitsEntry, lookup, Stores, Mounted}

get_or_end : (line : List ℕ) (i : ℕ) → length line ≤ i → get_or line i 0 ≡ 0
get_or_end [] i h = refl
get_or_end (c ∷ cs) zero h = absurd (omega arith)
get_or_end (c ∷ cs) (suc i) h = get_or_end cs i (omega arith)

-- The bytes of a new entry, and those of the others.
put_entry-name :
    (b : Buffer) (e : ℕ) (name : List ℕ) (c j : ℕ)
    → FitsEntry name
    → j < 24
    → put_entry b e name c (32 * e + j) ≡ c_string name j
unfolding put_entry
put_entry-name b e name c j (t, short) h =
    let at : 32 * e + j - 32 * e ≡ j = omega arith in
    put_dword_outside _ (32 * e + 28) c (32 * e + j) (inl (omega arith))
    ∙ elim (Bool-cases (ltb j (length name))) [
      | inl within ↦ ground (arith, at)
      | inr behind ↦ let zero_at = get_or_end name j (ground arith) in ground (arith, at, zero_at)
    ]

put_entry-cluster :
    (b : Buffer) (e : ℕ) (name : List ℕ) (c : ℕ) → cluster_of (put_entry b e name c) e ≡ c % 2 ^ 32
unfolding put_entry
put_entry-cluster b e name c = get-put_dword _ (32 * e + 28) c

put_entry-size :
    (b : Buffer) (e : ℕ) (name : List ℕ) (c : ℕ)
    → FitsEntry name
    → size_of (put_entry b e name c) e ≡ 0
unfolding put_entry
put_entry-size b e name c (t, short) =
    get-put_dword_ne _ (32 * e + 28) c (32 * e + 24) (omega arith) ∙ ground arith

put_entry-other :
    (b : Buffer) (e : ℕ) (name : List ℕ) (c j : ℕ)
    → (j < 32 * e) ⊎ (32 * e + 32 ≤ j)
    → put_entry b e name c j ≡ b j
unfolding put_entry
put_entry-other b e name c j out =
    put_dword_outside _ (32 * e + 28) c j (omega arith) ∙ ground arith

-- An index that a search passes over does not pass the test.
passed_over : (p : ℕ → Bool) (i n j : ℕ) → first_from p i n ≡ none → i ≤ j → j < i + n → p j ≡ false
unfolding first_from
passed_over p i zero j e a b = absurd (omega arith)
passed_over p i (suc n) j e a b = elim (Bool-cases (p i)) [
  | inl passes ↦ absurd (ground arith)
  | inr fails ↦ elim (Bool-cases (i == j)) [
    | inl here ↦ let at : i ≡ j = ground arith in rw (← at) fails
    | inr later ↦ passed_over p (i + 1) n j (ground arith) (ground arith) (omega arith)
  ]
]

module _ {D : Type 0} {dev : Device D} {bytes : D → Buffer} (w : Works dev bytes) (s : Fs D)
    (m : Mounted s) (name : List ℕ) (fits : FitsEntry name) (e c : ℕ) (inside : e < 128)
    (live : c ≢ 0) (range : InRange s c)
    (front : s.fat_infor.link_sector_address + c / 128 < s.fat_infor.data_address) where
  abbrev linked : Fs D
  linked = set_cluster_link dev c 0xffffffff s

  infor-linked : linked.fat_infor ≡ s.fat_infor
  unfolding set_cluster_link read512 write512
  infor-linked = refl

  mounted-linked : linked.is_mounted ≡ s.is_mounted
  unfolding set_cluster_link read512 write512
  mounted-linked = refl

  disk-linked : (a : ℕ) → 512 * s.fat_infor.data_address ≤ a → bytes linked.disk a ≡ bytes s.disk a
  unfolding set_cluster_link read512 write512
  disk-linked a h =
      let sector = link_sector s c in
      let at : sector < s.fat_infor.data_address = omega (arith, front, m.root) in
      let (n, b, d) = dev.read_sector 1 sector s.buffer512 s.disk in
      let used = put_dword b (4 * (c % 128)) 0xffffffff in
      let put = w.write_bytes 1 sector used d (omega arith) (omega arith) (omega (arith, m.root)) in
      ap (λ x. x a) put
      ∙ save_outside (bytes d) (512 * sector) 512 used a (inr (omega arith))
      ∙ ap (λ x. x a) (w.read_keeps 1 sector s.buffer512 s.disk)

  abbrev new_dir : Buffer
  new_dir = put_entry (read_cluster dev 0 linked).buffer4096 e name c

  infor-added : (add_file dev name e c s).fat_infor ≡ s.fat_infor
  unfolding add_file write_cluster read_cluster
  infor-added = infor-linked

  mounted-added : (add_file dev name e c s).is_mounted ≡ s.is_mounted
  unfolding add_file write_cluster read_cluster
  mounted-added = mounted-linked

  start-added : (k : ℕ) → start (add_file dev name e c s) k ≡ start s k
  start-added k = ap (λ f. 512 * (f.data_address + k * 8)) infor-added

  -- The directory that is read again, as it was.
  reloaded : (j : ℕ) → j < 4096 → (read_cluster dev 0 linked).buffer4096 j ≡ dir bytes s j
  reloaded j h =
      let address = ap (λ f. f.data_address) infor-linked in
      ap (λ b. b j) (Io.buffer-read_cluster w 0 linked (omega (arith, m.root, address)))
      ∙ if_true (ltb j 4096) _ _ (ground arith)
      ∙ ap (λ o. bytes linked.disk (o + j)) (ap (λ f. 512 * (f.data_address + 0 * 8)) infor-linked)
      ∙ disk-linked (start s 0 + j) (omega arith)

  byte-added :
      (a : ℕ)
      → 512 * s.fat_infor.data_address ≤ a
      → bytes (add_file dev name e c s).disk a ≡ save (bytes s.disk) (start s 0) 4096 new_dir a
  unfolding add_file read_cluster
  byte-added a h =
      let s₁ = read_cluster dev 0 linked in
      let s₂ = record s₁ { buffer4096 = new_dir } in
      let address = ap (λ f. f.data_address) infor-linked in
      ap (λ d. d a) (Io.disk-write_cluster w 0 new_dir s₂ (omega (arith, m.root, address)))
      ∙ ap (λ f. save (bytes s₁.disk) (512 * (f.data_address + 0 * 8)) 4096 new_dir a) infor-linked
      ∙ ap
          (λ v.
            if leb (start s 0) a && ltb a (start s 0 + 4096) then new_dir (a - start s 0) else v)
          (ap (λ d. d a) (Io.disk-read_cluster w 0 linked) ∙ disk-linked a h)

  dir-added : (j : ℕ) → j < 4096 → dir bytes (add_file dev name e c s) j ≡ new_dir j
  dir-added j l =
      ap (λ o. bytes (add_file dev name e c s).disk (o + j)) (start-added 0)
      ∙ byte-added (start s 0 + j) (omega arith)
      ∙ save_inside (bytes s.disk) (start s 0) 4096 new_dir j l

  cluster-added : cluster_of (dir bytes (add_file dev name e c s)) e ≡ c
  cluster-added =
      get_dword-Agree (dir bytes (add_file dev name e c s)) new_dir (32 * e + 28)
        (omega (arith, inside)) dir-added
      ∙ put_entry-cluster (read_cluster dev 0 linked).buffer4096 e name c
      ∙ omega (arith, range)

  new_file : is_file (dir bytes (add_file dev name e c s)) name e ≡ true
  unfolding is_file
  new_file =
      let (t, short) = fits in
      let d = dir bytes (add_file dev name e c s) in
      let named : has_name d name e ≡ true =
        has_name_lem d name e t
        ∙ same-window (λ j. d (32 * e + j)) (c_string name) name
            (λ j k.
              dir-added (32 * e + j) (omega (arith, inside))
              ∙ put_entry-name (read_cluster dev 0 linked).buffer4096 e name c j fits (omega arith))
        ∙ same-c_string name in
      ap₂ (λ x y. not (x == 0) && y) cluster-added named ∙ ground (arith, live)

  other_byte :
      (i : ℕ)
      → i < 128
      → i ≢ e
      → (j : ℕ) → 32 * i ≤ j
      → j < 32 * i + 32
      → dir bytes (add_file dev name e c s) j ≡ dir bytes s j
  other_byte i h ne j p q =
      dir-added j (omega arith)
      ∙ put_entry-other (read_cluster dev 0 linked).buffer4096 e name c j (omega (arith, ne))
      ∙ reloaded j (omega arith)

  other_entry :
      (i : ℕ)
      → i < 128
      → i ≢ e
      → is_file (dir bytes (add_file dev name e c s)) name i ≡ is_file (dir bytes s) name i
  other_entry i h ne =
      let (t, short) = fits in
      let same_byte = other_byte i h ne in
      is_file-Agree (dir bytes (add_file dev name e c s)) (dir bytes s) name i t short h
        (λ j a b. same_byte j a (omega arith))
        (omega (
          arith,
          same_byte (32 * i + 28) (omega arith) (omega arith),
          same_byte (32 * i + 28 + 1) (omega arith) (omega arith),
          same_byte (32 * i + 28 + 2) (omega arith) (omega arith),
          same_byte (32 * i + 28 + 3) (omega arith) (omega arith),
        ))

  -- The part of `createFile` behind its searches: the file system stays mounted and stores a file of the name, of
  -- size 0, in the cluster.
  pub add_file-Stores :
      lookup bytes s name ≡ none
      → let s' = add_file dev name e c s in
        Mounted s' × Stores bytes s' name 0 (λ k. bytes s.disk (start s c + k))
  add_file-Stores gone =
      let s' = add_file dev name e c s in
      let address = ap (λ f. f.data_address) infor-added in
      (
        record { mounted = mounted-added ∙ m.mounted; root = omega (arith, m.root, address) },
        record {
          slot = e;
          found =
              first_from-only (is_file (dir bytes s') name) 0 128 e (omega arith)
                (omega (arith, inside)) new_file
                (λ i a b t. elim (Bool-cases (i == e)) [
                  | inl same ↦ ground arith
                  | inr differs ↦
                      let old = other_entry i b (λ x. ground arith) in
                      let dead =
                        passed_over (is_file (dir bytes s) name) 0 128 i gone (omega arith) b in
                      absurd (ground (arith, sym t ∙ old ∙ dead))
                ]);
          sized =
              get_dword-Agree (dir bytes s') new_dir (32 * e + 24) (omega (arith, inside)) dir-added
              ∙ put_entry-size (read_cluster dev 0 linked).buffer4096 e name c fits;
          in_range = omega (arith, range, address, cluster-added);
          stored = λ k l.
              ap (λ n. bytes s'.disk (start s' n + k)) cluster-added
              ∙ ap (λ o. bytes s'.disk (o + k)) (start-added c)
              ∙ byte-added (start s c + k) (omega arith)
              ∙ save_outside (bytes s.disk) (start s 0) 4096 new_dir (start s c + k)
                  (inr (omega (arith, live)));
        },
      )
