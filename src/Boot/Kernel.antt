-- ===== src/Boot/Kernel.antt =====
-- tools/imagemaker/ImageMaker.c, loader/32bit.c: the kernel's file comes to stand in memory.
use skhuos.Common.{
  ℕ, ◌+◌, ◌-◌, ◌*◌, ◌/◌, ◌<◌, ◌≤◌, ◌≡◌, inl, inr, refl, sym, ap, ◌∙◌, ◌||◌, none, some, List, ◌∷◌,
  ◌++◌, if◌then◌else◌, length, take, drop, replicate, get_or, arith, Bool-cases, if_true, if_false,
  take-append, drop-append, length-append, length-replicate, append_nil, get_or-append_left,
  get_or-append_right,
}
use mathlib.Core.Option.{some-injective}
use mathlib.Core.Path.{ap₂}
use skhuos.Boot.{places, padding, sector_count, write_boot_info, find_boot_info, read_short}
use skhuos.Boot.Info.{find_from-same, find-write_boot_info, length-write_boot_info, padding_lem}
use skhuos.Boot.Image.{Host, make_image, image_main, is_same_file}
use skhuos.Boot.Load.{PhysicalMemory, bytes_from, copy_ints, copy_with, copy_ia32_mode_image}
use skhuos.Boot.Startup.{Contains, padded, joined, Made, make_image-Made}
use skhuos.Boot.Copy.{get_or-bytes_from, copy_ints_lem}

length-padded : (file : List ℕ) → length (padded file) ≡ sector_count (length file) * 512
length-padded file =
    length-append file (replicate (padding (length file)) 0)
    ∙ ap (λ k. length file + k) (length-replicate (padding (length file)) 0)
    ∙ sym (padding_lem (length file)).1

module _ {Name : Type 0} (host : Host Name) where
  -- A file has one content.
  Contains-unique :
      (name : Name) (a b : List ℕ) → Contains host name a → Contains host name b → a ≡ b
  Contains-unique name a b (p, op, ja) (q, oq, jb) =
      let same = some-injective _ _ (sym op ∙ oq) in sym ja ∙ ap joined same ∙ jb

  image_main-Made :
      (boot loader kernel output : Name) (others : List Name) (image : List ℕ)
      → image_main host (boot ∷ loader ∷ kernel ∷ output ∷ others) ≡ some image
      → Made host boot loader kernel image
  unfolding image_main
  image_main-Made boot loader kernel output others image e =
      let input =
        is_same_file host boot output
        || is_same_file host loader output
        || is_same_file host kernel output in
      let made =
        if host.open_write output then make_image host boot loader kernel output else none in
      elim (Bool-cases input) [
        | inl y ↦ let no = sym (if_true input none made y) ∙ e in absurd (cc)
        | inr m ↦
            let run = sym (if_false input none made m) ∙ e in
            elim (Bool-cases (host.open_write output)) [
              | inl opened ↦ make_image-Made host boot loader kernel output image (
                  sym (
                    if_true (host.open_write output) (make_image host boot loader kernel output)
                      none opened)
                  ∙ run)
              | inr failed ↦
                  let no =
                    sym (
                      if_false (host.open_write output) (make_image host boot loader kernel output)
                        none failed)
                    ∙ run in
                  absurd (cc)
            ]
      ]

-- An image lies in memory behind the start of the machine: the BIOS put its first sector to 0x7c00, and the boot
-- sector's code read the sectors behind it to 0x10000. Both programs have run since, and may have changed their
-- data: what is left is the first sector up to the end of the block of the boot information, and the sectors
-- behind the loader's.
abbrev pub InMemory : PhysicalMemory → List ℕ → Type 0
InMemory mem image =
    let sector = take 512 image in
    (o : ℕ) × (find_boot_info sector ≡ some o)
    × ((i : ℕ) → i < o + 12 → mem (0x7c00 + i) ≡ get_or image i 0)
    × ((i : ℕ)
        → 512 * read_short sector (o + 10) ≤ i
        → 512 + i < length image
        → mem (0x10000 + i) ≡ get_or image (512 + i) 0)

-- The copy, for a sector in which the boot information is found.
copy_ia32_mode_image-some :
    (mem : PhysicalMemory) (o total loader : ℕ)
    → let sector = bytes_from mem 0x7c00 512 in
      find_boot_info sector ≡ some o
      → read_short sector (o + 8) ≡ total
      → read_short sector (o + 10) ≡ loader
      → copy_ia32_mode_image mem
        ≡ some (copy_ints (512 * (total - loader) / 4) 0x600000 (0x10000 + loader * 512) mem)
unfolding copy_ia32_mode_image
copy_ia32_mode_image-some mem o total loader f t l =
    let sector = bytes_from mem 0x7c00 512 in
    ap (copy_with mem sector) f
    ∙ ap
        (λ n. some (
          copy_ints (512 * (n - read_short sector (o + 10)) / 4) 0x600000
            (0x10000 + read_short sector (o + 10) * 512) mem))
        t
    ∙ ap (λ n. some (copy_ints (512 * (total - n) / 4) 0x600000 (0x10000 + n * 512) mem)) l

-- The block ends inside the sector.
info_end : (sector : List ℕ) (o : ℕ) → find_boot_info sector ≡ some o → o + 12 ≤ 512
unfolding find_boot_info
info_end sector o f =
    let low = (find_from-same sector sector 0 places o f (λ j k. refl)).1 in omega (arith, low)

-- A sector in memory with the bytes of another up to the end of its block has the same boot information.
same_info :
    (mem : PhysicalMemory) (sector : List ℕ) (o : ℕ)
    → find_boot_info sector ≡ some o
    → ((i : ℕ) → i < o + 12 → mem (0x7c00 + i) ≡ get_or sector i 0)
    → let found = bytes_from mem 0x7c00 512 in
      (find_boot_info found ≡ some o)
      × (read_short found (o + 8) ≡ read_short sector (o + 8))
      × (read_short found (o + 10) ≡ read_short sector (o + 10))
unfolding find_boot_info
same_info mem sector o f same =
    let found = bytes_from mem 0x7c00 512 in
    let low = info_end sector o f in
    let at : (i : ℕ) → i < o + 12 → get_or found i 0 ≡ get_or sector i 0 =
      λ i k. get_or-bytes_from mem 0x7c00 512 i (omega (arith, low)) ∙ same i k in
    (
      (find_from-same sector found 0 places o f (λ j k. sym (at j (omega arith)))).0,
      ap₂ (λ x y. x + 256 * y) (at (o + 8) (omega arith)) (at (o + 8 + 1) (omega arith)),
      ap₂ (λ x y. x + 256 * y) (at (o + 10) (omega arith)) (at (o + 10 + 1) (omega arith)),
    )

-- A boot sector of 512 bytes needs no padding, and is the first sector of the image.
padded-boot : (boot : List ℕ) → length boot ≡ 512 → padded boot ≡ boot
padded-boot boot h =
    let none_left : padding (length boot) ≡ 0 = ap padding h ∙ (unfold padding in refl) in
    ap (λ n. boot ++ replicate n 0) none_left ∙ append_nil boot

take-boot : (boot rest : List ℕ) → length boot ≡ 512 → take 512 (padded boot ++ rest) ≡ boot
take-boot boot rest h =
    ap (λ l. take 512 (l ++ rest)) (padded-boot boot h)
    ∙ ap (λ n. take n (boot ++ rest)) (sym h)
    ∙ take-append boot rest

drop-boot : (boot rest : List ℕ) → length boot ≡ 512 → drop 512 (padded boot ++ rest) ≡ rest
drop-boot boot rest h =
    ap (λ l. drop 512 (l ++ rest)) (padded-boot boot h)
    ∙ ap (λ n. drop n (boot ++ rest)) (sym h)
    ∙ drop-append boot rest

-- The image that a complete run makes of a boot sector.
record Laid (boot loader kernel image : List ℕ) : Type 0 where
  sector : List ℕ
  written :
      write_boot_info boot
        (sector_count (length loader) + sector_count (length kernel))
        (sector_count (length loader))
      ≡ some sector
  layout : image ≡ sector ++ (padded loader ++ padded kernel)

Made-Laid :
    {Name : Type 0} (host : Host Name) (boot loader kernel : Name) (image : List ℕ)
    (made : Made host boot loader kernel image)
    → length made.boot_file ≡ 512
    → Laid made.boot_file made.loader_file made.kernel_file image
Made-Laid host boot loader kernel image made h =
    let rest = padded made.loader_file ++ padded made.kernel_file in
    let nl = sector_count (length made.loader_file) in
    let nk = sector_count (length made.kernel_file) in
    record {
      sector = made.sector;
      written =
          ap (λ s. write_boot_info s (nl + nk) nl) (sym (take-boot made.boot_file rest h))
          ∙ made.written;
      layout = made.layout ∙ ap (λ r. made.sector ++ r) (drop-boot made.boot_file rest h);
    }

-- A byte of the kernel in the image: behind the sector and the loader.
get_or-Laid :
    (boot loader kernel image : List ℕ) (laid : Laid boot loader kernel image) (i : ℕ)
    → length laid.sector ≡ 512
    → i < length kernel
    → (get_or image (512 + (sector_count (length loader) * 512 + i)) 0 ≡ get_or kernel i 0)
      × (512 + (sector_count (length loader) * 512 + i) < length image)
get_or-Laid boot loader kernel image laid i h l =
    let at = 512 + (sector_count (length loader) * 512 + i) in
    let rest = padded loader ++ padded kernel in
    let pl = length-padded loader in
    let i0 : at - length laid.sector ≡ sector_count (length loader) * 512 + i = omega arith in
    let i1 : (sector_count (length loader) * 512 + i) - length (padded loader) ≡ i = omega arith in
    (
      ap (λ m. get_or m at 0) laid.layout
          ∙ get_or-append_right laid.sector rest at 0 (omega arith)
          ∙ ap (λ n. get_or rest n 0) i0
          ∙ get_or-append_right (padded loader) (padded kernel)
              (sector_count (length loader) * 512 + i) 0 (omega arith)
          ∙ ap (λ n. get_or (padded kernel) n 0) i1
          ∙ get_or-append_left kernel (replicate (padding (length kernel)) 0) i 0 l,
      omega (
        arith,
        ap length laid.layout,
        length-append laid.sector rest,
        length-append (padded loader) (padded kernel),
        length-append kernel (replicate (padding (length kernel)) 0),
      ),
    )

-- The first sector of the image.
take-Laid :
    (boot loader kernel image : List ℕ) (laid : Laid boot loader kernel image)
    → length laid.sector ≡ 512
    → take 512 image ≡ laid.sector
take-Laid boot loader kernel image laid h =
    let rest = padded loader ++ padded kernel in
    ap₂ take (sym h) laid.layout ∙ take-append laid.sector rest

-- The loader's copy of an image that is laid out so.
copy-Laid :
    (boot loader kernel image : List ℕ) (mem : PhysicalMemory)
    → length boot ≡ 512
    → sector_count (length loader) + sector_count (length kernel) ≤ 1920
    → Laid boot loader kernel image
    → InMemory mem image
    → (mem' : PhysicalMemory) × (copy_ia32_mode_image mem ≡ some mem')
      × ((i : ℕ) → i < length kernel → mem' (0x600000 + i) ≡ get_or kernel i 0)
copy-Laid boot loader kernel image mem h small laid (o, found, at_boot, behind) =
    let nl = sector_count (length loader) in
    let nk = sector_count (length kernel) in
    let l512 = length-write_boot_info boot (nl + nk) nl laid.sector laid.written ∙ h in
    let first_sector = take-Laid boot loader kernel image laid l512 in
    let (o', found', total, first) =
      find-write_boot_info boot (nl + nk) nl laid.sector h (omega arith) (omega arith)
        laid.written in
    let at : o' ≡ o =
      some-injective _ _ (sym found' ∙ ap find_boot_info (sym first_sector) ∙ found) in
    let first' : read_short (take 512 image) (o + 10) ≡ nl =
      ap₂ (λ x n. read_short x (n + 10)) first_sector (sym at) ∙ first in
    let (f, t, l) =
      same_info mem laid.sector o (ap find_boot_info (sym first_sector) ∙ found) (λ i k.
        at_boot i k
        ∙ ap (λ m. get_or m i 0) laid.layout
        ∙ get_or-append_left laid.sector (padded loader ++ padded kernel) i 0
            (omega (arith, l512, info_end laid.sector o' found', at, k))) in
    let n = 512 * ((nl + nk) - nl) / 4 in
    let four : 4 * n ≡ 512 * nk = omega arith in
    (
      copy_ints n 0x600000 (0x10000 + nl * 512) mem,
      copy_ia32_mode_image-some mem o (nl + nk) nl f
          (t ∙ ap (λ x. read_short laid.sector (x + 8)) (sym at) ∙ total)
          (l ∙ ap (λ x. read_short laid.sector (x + 10)) (sym at) ∙ first),
      λ i k.
          let (same, inside) = get_or-Laid boot loader kernel image laid i l512 k in
          let from : (0x10000 + nl * 512) + i ≡ 0x10000 + (nl * 512 + i) = omega arith in
          copy_ints_lem n 0x600000 (0x10000 + nl * 512) mem i (omega arith)
            (omega (arith, (padding_lem (length kernel)).1))
          ∙ ap mem from
          ∙ behind (nl * 512 + i) (omega (arith, first')) inside
          ∙ same,
    )

module _ {Name : Type 0} (host : Host Name) where
  -- If the image maker completes on a boot sector, a loader and a kernel, the loader and the kernel together have at most
  -- 1920 sectors, and the image lies in memory behind the start of the machine, where the first sector behind the
  -- boot information and the loader's sectors may have changed, then the loader's copy completes, and the bytes of the kernel's file stand from 0x600000 on, in order.
  pub kernel_loaded :
      (boot loader kernel output : Name) (others : List Name)
      (image boot_file loader_file kernel_file : List ℕ) (mem : PhysicalMemory)
      → Contains host boot boot_file
      → Contains host loader loader_file
      → Contains host kernel kernel_file
      → length boot_file ≡ 512
      → sector_count (length loader_file) + sector_count (length kernel_file) ≤ 1920
      → image_main host (boot ∷ loader ∷ kernel ∷ output ∷ others) ≡ some image
      → InMemory mem image
      → (mem' : PhysicalMemory) × (copy_ia32_mode_image mem ≡ some mem')
        × ((i : ℕ) → i < length kernel_file → mem' (0x600000 + i) ≡ get_or kernel_file i 0)
  kernel_loaded boot loader kernel output others image bf lf kf mem cb cl ck l512 small e loaded =
      let made = image_main-Made host boot loader kernel output others image e in
      let b = Contains-unique host boot made.boot_file bf made.boot_contains cb in
      let l = Contains-unique host loader made.loader_file lf made.loader_contains cl in
      let k = Contains-unique host kernel made.kernel_file kf made.kernel_contains ck in
      let laid = Made-Laid host boot loader kernel image made (ap length b ∙ l512) in
      copy-Laid bf lf kf image mem l512 small (rw (← b, ← l, ← k) laid) loaded
