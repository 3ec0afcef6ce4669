-- ===== src/Fat/Write.antt =====
-- kernel/fs/FAT.c: `writeFile` changes the size and the bytes of one file, and no other file.
use skhuos.Common.{
  ℕ, ◌+◌, ◌*◌, ◌%◌, ◌^◌, ◌<◌, ◌≤◌, ◌≡◌, ◌≢◌, ◌⊎◌, inl, inr, refl, sym, ap, ◌∙◌, true, some, List,
  ◌==◌, if◌then◌else◌, arith, Bool-cases, if_true, if_false,
}
use mathlib.Core.Path.{ap₂}
use skhuos.Sectors.{Buffer, get_dword, put_dword, save, Device, Works}
use skhuos.Sectors.Dword.{
  get-put_dword, get-put_dword_ne, put_dword_outside, put_dword-cong, save_inside, save_outside,
}
use skhuos.Fat.{Fs, read_cluster, write_cluster, cluster_of, size_of, is_file}
use skhuos.Fat.Files.{write_file, write_entry}
use skhuos.Fat.Io
use skhuos.Fat.Io.{
  first_from-same, first_from-some, get_dword-Agree, is_file-Agree, start, InRange, dir,
}
use skhuos.Fat.Store.{FitsEntry, lookup, Mounted, loaded, lookup_loaded, entry_loaded}

-- No cluster belongs to two entries of the directory.
abbrev pub Distinct : Buffer → Type 0
Distinct d =
    (i j : ℕ) → i < 128 → j < 128 → cluster_of d i ≢ 0 → cluster_of d i ≡ cluster_of d j → i ≡ j

module _ {D : Type 0} {dev : Device D} {bytes : D → Buffer} (w : Works dev bytes) (s : Fs D)
    (m : Mounted s) where
  -- The state behind a successful `writeFile` at the entry `i`.
  abbrev pub written : ℕ → Buffer → ℕ → Fs D
  written i buffer size =
      let s₁ = read_cluster dev 0 s in
      let s₂ = write_cluster dev (cluster_of s₁.buffer4096 i) buffer s₁ in
      let s₃ = record s₂ { buffer4096 = put_dword s₂.buffer4096 (32 * i + 24) size } in
      write_cluster dev 0 s₃.buffer4096 s₃

  pub write_file_run :
      (name : List ℕ) (i : ℕ) (buffer : Buffer) (size : ℕ)
      → FitsEntry name
      → lookup bytes s name ≡ some i
      → write_file dev name buffer size s ≡ (written i buffer size, true)
  unfolding write_file write_entry
  write_file_run name i buffer size fits found =
      if_true s.is_mounted _ _ m.mounted
      ∙ ap (λ o. write_entry dev o buffer size (read_cluster dev 0 s))
          (lookup_loaded w s m name fits ∙ found)

  module _ (i : ℕ) (buffer : Buffer) (size : ℕ) (h : i < 128)
      (range : InRange s (cluster_of (dir bytes s) i)) where
    pub infor-written : (written i buffer size).fat_infor ≡ s.fat_infor
    unfolding write_cluster read_cluster
    infor-written = refl

    pub mounted-written : (written i buffer size).is_mounted ≡ s.is_mounted
    unfolding write_cluster read_cluster
    mounted-written = refl

    -- The bytes of the disk: the file's cluster, and then the directory.
    disk-written :
        bytes (written i buffer size).disk
        ≡ save
            (save (bytes s.disk) (start s (cluster_of (dir bytes s) i)) 4096 buffer)
            (start s 0)
            4096
            (put_dword (read_cluster dev 0 s).buffer4096 (32 * i + 24) size)
    unfolding write_cluster read_cluster
    disk-written =
        let s₁ = read_cluster dev 0 s in
        let c = cluster_of s₁.buffer4096 i in
        let same_cluster = (entry_loaded w s m i h).0 in
        let s₂ = write_cluster dev c buffer s₁ in
        let s₃ = record s₂ { buffer4096 = put_dword s₂.buffer4096 (32 * i + 24) size } in
        Io.disk-write_cluster w 0 s₃.buffer4096 s₃ m.root
        ∙ ap (λ d. save d (start s 0) 4096 s₃.buffer4096)
            (Io.disk-write_cluster w c buffer s₁ (omega (arith, same_cluster))
              ∙ ap₂ (λ d n. save d (start s n) 4096 buffer) (Io.disk-read_cluster w 0 s)
                  same_cluster)

    byte-written :
        (a : ℕ)
        → bytes (written i buffer size).disk a
          ≡ save
              (save (bytes s.disk) (start s (cluster_of (dir bytes s) i)) 4096 buffer)
              (start s 0)
              4096
              (put_dword (read_cluster dev 0 s).buffer4096 (32 * i + 24) size)
              a
    byte-written a = ap (λ d. d a) disk-written

    abbrev filed : Buffer
    filed = save (bytes s.disk) (start s (cluster_of (dir bytes s) i)) 4096 buffer

    abbrev new_dir : Buffer
    new_dir = put_dword (read_cluster dev 0 s).buffer4096 (32 * i + 24) size

    pub start-written : (c : ℕ) → start (written i buffer size) c ≡ start s c
    start-written c = ap (λ f. 512 * (f.data_address + c * 8)) infor-written

    -- The directory has a new size in one entry.
    pub dir-written :
        (j : ℕ)
        → j < 4096
        → dir bytes (written i buffer size) j ≡ put_dword (dir bytes s) (32 * i + 24) size j
    dir-written j l =
        ap (λ o. bytes (written i buffer size).disk (o + j)) (start-written 0)
        ∙ byte-written (start s 0 + j)
        ∙ save_inside filed (start s 0) 4096 new_dir j l
        ∙ put_dword-cong (read_cluster dev 0 s).buffer4096 (dir bytes s) (32 * i + 24) size j
            (loaded w s m j l)

    apart :
        (c d k : ℕ)
        → c ≢ d
        → k < 4096
        → (start s c + k < start s d) ⊎ (start s d + 4096 ≤ start s c + k)
    apart c d k ne l = omega (arith, ne)

    -- The other clusters hold what they held, but for the file's, which holds the buffer.
    pub cluster-written :
        (c k : ℕ)
        → c ≢ 0
        → k < 4096
        → bytes (written i buffer size).disk (start (written i buffer size) c + k)
          ≡ (if c == cluster_of (dir bytes s) i then buffer k else bytes s.disk (start s c + k))
    cluster-written c k nz l =
        ap (λ o. bytes (written i buffer size).disk (o + k)) (start-written c)
        ∙ byte-written (start s c + k)
        ∙ save_outside filed (start s 0) 4096 new_dir (start s c + k) (inr (omega arith))
        ∙ elim (Bool-cases (c == cluster_of (dir bytes s) i)) [
          | inl same ↦
              let e : c ≡ cluster_of (dir bytes s) i = ground arith in
              ap
                (λ n.
                  save (bytes s.disk) (start s (cluster_of (dir bytes s) i)) 4096 buffer
                    (start s n + k))
                e
              ∙ save_inside (bytes s.disk) (start s (cluster_of (dir bytes s) i)) 4096 buffer k l
              ∙ sym (if_true _ _ _ same)
          | inr other ↦
              let ne : c ≢ cluster_of (dir bytes s) i = λ e. ground arith in
              save_outside (bytes s.disk) (start s (cluster_of (dir bytes s) i)) 4096 buffer
                (start s c + k) (apart c (cluster_of (dir bytes s) i) k ne l)
              ∙ sym (if_false _ _ _ other)
        ]

    -- Names and clusters of the directory are as before, and the size of the entry is the new one.
    pub clusters-written :
        (e : ℕ)
        → e < 128
        → cluster_of (dir bytes (written i buffer size)) e ≡ cluster_of (dir bytes s) e
    clusters-written e l =
        get_dword-Agree (dir bytes (written i buffer size))
          (put_dword (dir bytes s) (32 * i + 24) size) (32 * e + 28) (omega arith) dir-written
        ∙ get-put_dword_ne (dir bytes s) (32 * i + 24) size (32 * e + 28) (omega arith)

    pub sizes-written :
        (e : ℕ)
        → e < 128
        → size_of (dir bytes (written i buffer size)) e
          ≡ (if e == i then size % 2 ^ 32 else size_of (dir bytes s) e)
    sizes-written e l =
        get_dword-Agree (dir bytes (written i buffer size))
          (put_dword (dir bytes s) (32 * i + 24) size) (32 * e + 24) (omega arith) dir-written
        ∙ elim (Bool-cases (e == i)) [
          | inl same ↦
              let at : e ≡ i = ground arith in
              ap (λ n. get_dword (put_dword (dir bytes s) (32 * i + 24) size) (32 * n + 24)) at
              ∙ get-put_dword (dir bytes s) (32 * i + 24) size
              ∙ sym (if_true (e == i) (size % 2 ^ 32) (size_of (dir bytes s) e) same)
          | inr other ↦
              let ne : e ≢ i = λ x. ground arith in
              get-put_dword_ne (dir bytes s) (32 * i + 24) size (32 * e + 24) (omega (arith, ne))
              ∙ sym (if_false (e == i) (size % 2 ^ 32) (size_of (dir bytes s) e) other)
        ]

    pub lookup-written :
        (name : List ℕ)
        → FitsEntry name
        → lookup bytes (written i buffer size) name ≡ lookup bytes s name
    lookup-written name (t, short) =
        first_from-same (is_file (dir bytes (written i buffer size)) name)
          (is_file (dir bytes s) name) 0 128
          (λ e a b.
            is_file-Agree (dir bytes (written i buffer size)) (dir bytes s) name e t short b
              (λ j c d.
                dir-written j (omega arith)
                ∙ put_dword_outside (dir bytes s) (32 * i + 24) size j (omega arith))
              (clusters-written e b))

    pub InRange-written : (c : ℕ) → InRange s c → InRange (written i buffer size) c
    InRange-written c r = omega (arith, ap (λ f. f.data_address) infor-written)
