-- ===== src/Fat/Fresh.antt =====
-- kernel/fs/FAT.c: formatting a disk, and mounting it then: an empty directory.
use skhuos.Common.{
  ℕ, zero, suc, ◌+◌, ◌-◌, ◌*◌, ◌/◌, ◌%◌, ◌^◌, ◌<◌, ◌≤◌, ◌≡◌, ◌⊎◌, inl, inr, refl, ap, ◌∙◌, Bool,
  true, false, ◌&&◌, none, List, ◌==◌, if◌then◌else◌, leb, ltb, arith, Bool-cases, eq→==, if_true,
  if_false,
}
use skhuos.Sectors.{Buffer, get_dword, put_dword, save, Device, Works}
use skhuos.Fat.{
  Fs, read512, write512, cluster_of, is_file, zeroed, signature_at, fat_signature,
  free_cluster_count_at, link_sector_count_at, link_sector_address_at, data_address_at,
}
use skhuos.Fat.Format.{
  clear_sectors, mark_root, format, mount, mount_boot, boot_sector, link_sectors,
}
use skhuos.Fat.Io.{first_from-none, start, dir}
use skhuos.Fat.Store.{lookup, Mounted}

-- The fields of the boot sector that `format` writes.
boot_sector_lem :
    (b : Buffer) (clusters links : ℕ)
    → let boot = boot_sector b clusters links in
      (get_dword boot signature_at ≡ fat_signature)
      × (get_dword boot free_cluster_count_at ≡ clusters % 2 ^ 32)
      × (get_dword boot link_sector_count_at ≡ links % 2 ^ 32)
      × (get_dword boot link_sector_address_at ≡ 1)
      × (get_dword boot data_address_at ≡ (1 + links) % 2 ^ 32)
unfolding boot_sector put_dword
boot_sector_lem b clusters links = (omega arith, omega arith, omega arith, omega arith, omega arith)

-- How many sectors a round of the clearing loop writes.
abbrev round_count : ℕ → ℕ → ℕ
round_count i init = if ltb 8 (init - i) then 8 else init - i

round_count_lem :
    (i init : ℕ)
    → i < init
    → let n = round_count i init in (0 < n) × (n ≤ 8) × (i + n ≤ init) × ((n ≡ 8) ⊎ (i + n ≡ init))
round_count_lem i init h = elim (Bool-cases (ltb 8 (init - i))) [
  | inl more ↦ rw more (omega arith, omega arith, ground arith, inl refl)
  | inr last ↦ rw last (omega arith, ground arith, ground arith, inr (omega arith))
]

-- The bytes behind a round, and behind the rest of the rounds.
round_byte :
    (i init n a v old : ℕ)
    → n ≤ 8
    → i + n ≤ init
    → (n ≡ 8) ⊎ (i + n ≡ init)
    → (a - 512 * (1 + i) < 4096 → v ≡ 0)
    → (if leb (512 * (1 + (i + 8))) a && ltb a (512 * (1 + init))
        then 0
        else if leb (512 * (1 + i)) a && ltb a (512 * (1 + i) + 512 * n)
        then v
        else old)
      ≡ (if leb (512 * (1 + i)) a && ltb a (512 * (1 + init)) then 0 else old)
round_byte i init n a v old p q r z = ground arith

-- The byte at an address of a new disk: the boot sector, the used link of the root directory, and zeros.
abbrev fresh : Buffer → ℕ → ℕ
fresh boot a = if ltb a 512 then boot a else if ltb a 516 then 255 else 0

fresh-link :
    (boot : Buffer) (c : ℕ)
    → get_dword (fresh boot) (512 + 4 * c) ≡ (if c == 0 then 0xffffffff else 0)
fresh-link boot c = ground arith

pub no_cluster :
    (b : Buffer) (name : List ℕ) (i : ℕ) → cluster_of b i ≡ 0 → is_file b name i ≡ false
unfolding is_file
no_cluster b name i e = rw e refl

module _ {D : Type 0} {dev : Device D} {bytes : D → Buffer} (w : Works dev bytes) where
  clear_sectors_lem :
      (k i init : ℕ) (s : Fs D)
      → ((j : ℕ) → j < 4096 → s.buffer4096 j ≡ 0)
      → init ≤ i + 8 * k
      → i + 8 * k < init + 8
      → 1 + init ≤ 2 ^ 28
      → let (s', done) = clear_sectors dev k i init s in
        (done ≡ true)
        × ((a : ℕ)
            → bytes s'.disk a
              ≡ (if leb (512 * (1 + i)) a && ltb a (512 * (1 + init)) then 0 else bytes s.disk a))
  unfolding clear_sectors
  clear_sectors_lem zero i init s z p q r = (refl, λ a. ground arith)
  clear_sectors_lem (suc k) i init s z p q r =
      let n = round_count i init in
      let (some_left, small, inside, last) = round_count_lem i init (omega arith) in
      let count = w.write_count n (1 + i) s.buffer4096 s.disk some_left small (omega arith) in
      let put = w.write_bytes n (1 + i) s.buffer4096 s.disk some_left small (omega arith) in
      let s₁ = record s { disk = (dev.write_sector n (1 + i) s.buffer4096 s.disk).1 } in
      let (done, cleared) = clear_sectors_lem k (i + 8) init s₁ z (omega arith) (omega arith) r in
      let run : clear_sectors dev (suc k) i init s ≡ clear_sectors dev k (i + 8) init s₁ =
        if_true ((dev.write_sector n (1 + i) s.buffer4096 s.disk).0 == n) _ _ (eq→== _ n count) in
      rw run (
        done,
        λ a.
            cleared a
            ∙ ap (λ d. if leb (512 * (1 + (i + 8))) a && ltb a (512 * (1 + init)) then 0 else d a)
                put
            ∙ round_byte i init n a (s.buffer4096 (a - 512 * (1 + i))) (bytes s.disk a) small inside
                last (z (a - 512 * (1 + i))),
      )

  mark_root_lem :
      (r : Fs D × Bool)
      → r.1 ≡ true
      → let (s', done) = mark_root dev r in
        (done ≡ true)
        × (bytes s'.disk
            ≡ save (bytes r.0.disk) 512 512 (put_dword (zeroed 512 r.0.buffer512) 0 0xffffffff))
  unfolding mark_root write512
  mark_root_lem (s, false) e = absurd (cc)
  mark_root_lem (s, true) e = (
    refl,
    w.write_bytes 1 1 (put_dword (zeroed 512 s.buffer512) 0 0xffffffff) s.disk (omega arith)
        (omega arith) (omega arith),
  )

  fresh_byte :
      (boot buffer old : Buffer) (links a : ℕ)
      → a < 512 * (1 + (links + 8))
      → (if leb 512 a && ltb a (512 + 512)
          then put_dword (zeroed 512 buffer) 0 0xffffffff (a - 512)
          else if leb (512 * (1 + 0)) a && ltb a (512 * (1 + (links + 8)))
          then 0
          else save old 0 512 boot a)
        ≡ fresh boot a
  unfolding put_dword
  fresh_byte boot buffer old links a h = let e : a - 0 ≡ a = omega arith in ground arith

  format_lem :
      (s : Fs D)
      → let links = link_sectors (dev.total_sector s.disk) in
        1 + (links + 8) ≤ 2 ^ 28
        → let (s', done) = format dev s in
          (done ≡ true)
          × ((a : ℕ)
              → a < 512 * (1 + (links + 8))
              → bytes s'.disk a
                ≡ fresh (boot_sector s.buffer512 (dev.total_sector s.disk / 8) links) a)
  unfolding format write512
  format_lem s h =
      let links = link_sectors (dev.total_sector s.disk) in
      let init = links + 8 in
      let boot = boot_sector s.buffer512 (dev.total_sector s.disk / 8) links in
      let s₁ = record s { buffer512 = boot } in
      let (n, s₂) = write512 dev 0 s₁ in
      let s₃ = record s₂ { buffer4096 = zeroed 4096 s₂.buffer4096 } in
      let rounds = (init + 7) / 8 in
      let count = w.write_count 1 0 boot s.disk (omega arith) (omega arith) (omega arith) in
      let booted = w.write_bytes 1 0 boot s.disk (omega arith) (omega arith) (omega arith) in
      let (cleared, zeros) =
        clear_sectors_lem rounds 0 init s₃ (λ j k. ground arith) (omega arith) (omega arith) h in
      let r = clear_sectors dev rounds 0 init s₃ in
      let (done, marked) = mark_root_lem r cleared in
      let run : format dev s ≡ mark_root dev r = if_false (n == 0) _ _ (ground (arith, count)) in
      let boot_mark = put_dword (zeroed 512 r.0.buffer512) 0 0xffffffff in
      rw run (
        done,
        λ a k.
            ap (λ d. d a) marked
            ∙ ap (λ v. if leb 512 a && ltb a (512 + 512) then boot_mark (a - 512) else v)
                (zeros a
                  ∙ ap (λ d. if leb (512 * (1 + 0)) a && ltb a (512 * (1 + init)) then 0 else d a)
                      booted)
            ∙ fresh_byte boot r.0.buffer512 (bytes s.disk) links a k,
      )

  -- The DWORDs of a new disk.
  get-fresh :
      (boot b : Buffer) (o limit : ℕ)
      → o + 4 ≤ limit
      → ((a : ℕ) → a < limit → b a ≡ fresh boot a)
      → get_dword b o ≡ get_dword (fresh boot) o
  get-fresh boot b o limit h e = omega (
    arith,
    e o (omega arith),
    e (o + 1) (omega arith),
    e (o + 2) (omega arith),
    e (o + 3) (omega arith),
  )

  -- `mount` of a disk with the signature.
  mount_lem :
      (s : Fs D)
      → get_dword (bytes s.disk) signature_at ≡ fat_signature
      → let (s', done) = mount dev s in
        (done ≡ true)
        × (s'.fat_infor.free_cluster_count ≡ get_dword (bytes s.disk) free_cluster_count_at)
        × (s'.fat_infor.link_sector_count ≡ get_dword (bytes s.disk) link_sector_count_at)
        × (s'.fat_infor.link_sector_address ≡ get_dword (bytes s.disk) link_sector_address_at)
        × (s'.fat_infor.data_address ≡ get_dword (bytes s.disk) data_address_at)
        × (s'.is_mounted ≡ true)
        × (bytes s'.disk ≡ bytes s.disk)
  unfolding mount mount_boot read512
  mount_lem s signed =
      let s₁ = record s {
        buffer512 = zeroed 512 s.buffer512;
        buffer4096 = zeroed 4096 s.buffer4096;
      } in
      let (n, s₂) = read512 dev 0 s₁ in
      let count = w.read_count 1 0 s₁.buffer512 s₁.disk (omega arith) (omega arith) (omega arith) in
      let put = w.read_bytes 1 0 s₁.buffer512 s₁.disk (omega arith) (omega arith) (omega arith) in
      let boot_byte : (j : ℕ) → j < 512 → s₂.buffer512 j ≡ bytes s.disk j =
        λ j h. ap (λ b. b j) put ∙ ground arith in
      let field : (o : ℕ) → o + 4 ≤ 512 → get_dword s₂.buffer512 o ≡ get_dword (bytes s.disk) o =
        λ o h. omega (
          arith,
          boot_byte o (omega arith),
          boot_byte (o + 1) (omega arith),
          boot_byte (o + 2) (omega arith),
          boot_byte (o + 3) (omega arith),
        ) in
      let run : mount dev s ≡ mount_boot dev s₂ = if_false (n == 0) _ _ (ground (arith, count)) in
      rw
        (
          run,
          eq→== (get_dword s₂.buffer512 signature_at) fat_signature
              (field signature_at (omega arith) ∙ signed),
        )
        (
          refl,
          field free_cluster_count_at (omega arith),
          field link_sector_count_at (omega arith),
          field link_sector_address_at (omega arith),
          field data_address_at (omega arith),
          refl,
          w.read_keeps 1 0 s₁.buffer512 s₁.disk,
        )

  -- On a disk whose transfers are complete (`Works`), `format` and then `mount`, with room below sector 2^28 for the FAT, which is not empty, and the root
  -- directory: both succeed. The file system has the counts and addresses that `format` chose, every cluster
  -- with a link is free but for the root directory's, and no name is found.
  pub mount-format :
      (s : Fs D)
      → 0 < link_sectors (dev.total_sector s.disk)
      → link_sectors (dev.total_sector s.disk) + 9 ≤ 2 ^ 28
      → let links = link_sectors (dev.total_sector s.disk) in
        let (s₁, formatted) = format dev s in
        let (s₂, done) = mount dev s₁ in
        (formatted ≡ true)
        × (done ≡ true)
        × (s₂.fat_infor.free_cluster_count ≡ dev.total_sector s.disk / 8 % 2 ^ 32)
        × (s₂.fat_infor.link_sector_count ≡ links)
        × (s₂.fat_infor.link_sector_address ≡ 1)
        × (s₂.fat_infor.data_address ≡ 1 + links)
        × Mounted s₂
        × ((c : ℕ)
            → c < 128 * links
            → get_dword (bytes s₂.disk) (512 + 4 * c) ≡ (if c == 0 then 0xffffffff else 0))
        × ((name : List ℕ) → lookup bytes s₂ name ≡ none)
  mount-format s p h =
      let links = link_sectors (dev.total_sector s.disk) in
      let boot = boot_sector s.buffer512 (dev.total_sector s.disk / 8) links in
      let (formatted, disk) = format_lem s (omega arith) in
      let s₁ = (format dev s).0 in
      let s₂ = (mount dev s₁).0 in
      let (signature, clusters, link_count, address, start_at) =
        boot_sector_lem s.buffer512 (dev.total_sector s.disk / 8) links in
      let field : (o : ℕ) → o + 4 ≤ 512 → get_dword (bytes s₁.disk) o ≡ get_dword (fresh boot) o =
        λ o k. get-fresh boot (bytes s₁.disk) o (512 * (1 + (links + 8))) (omega arith) disk in
      let (done, free, count, from, base, on, kept) =
        mount_lem s₁ (field signature_at (omega arith) ∙ signature) in
      let data_at : s₂.fat_infor.data_address ≡ 1 + links =
        base ∙ field data_address_at (omega arith) ∙ start_at ∙ omega arith in
      let zero_at : (o : ℕ) → o < 4096 → dir bytes s₂ o ≡ 0 = λ o k.
        ap (λ d. d (start s₂ 0 + o)) kept ∙ disk (start s₂ 0 + o) (omega arith) ∙ ground arith in
      (
        formatted,
        done,
        free ∙ field free_cluster_count_at (omega arith) ∙ clusters,
        count ∙ field link_sector_count_at (omega arith) ∙ link_count ∙ omega arith,
        from ∙ field link_sector_address_at (omega arith) ∙ address,
        data_at,
        record { mounted = on; root = omega arith },
        λ c k.
            ap (λ d. get_dword d (512 + 4 * c)) kept
            ∙ get-fresh boot (bytes s₁.disk) (512 + 4 * c) (512 * (1 + (links + 8))) (omega arith)
                disk
            ∙ fresh-link boot c,
        λ name. first_from-none (is_file (dir bytes s₂) name) 0 128 (λ i a b.
            no_cluster (dir bytes s₂) name i (
              ground (
                arith,
                zero_at (32 * i + 28) (omega arith),
                zero_at (32 * i + 29) (omega arith),
                zero_at (32 * i + 30) (omega arith),
                zero_at (32 * i + 31) (omega arith),
              ))),
      )
