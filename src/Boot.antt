-- ===== src/Boot.antt =====
-- loader/32bit.c and tools/imagemaker/ImageMaker.c: the block of boot information in the boot sector. The
-- image maker writes the sector counts behind a signature, the loader finds them by the signature. A sector
-- is the list of its 512 bytes.
pub mod Info
pub mod Image
pub mod Load
pub mod Startup
pub mod Copy
pub mod Kernel
use skhuos.Common.{
  ℕ, zero, suc, ◌+◌, ◌-◌, ◌*◌, ◌/◌, ◌%◌, Bool, true, false, ◌&&◌, Option, none, some, List, [], ◌∷◌,
  ◌==◌, if◌then◌else◌, get_or, set,
}

-- `BOOT_INFO_SIGNATURE`, "SKHUBOOT"
abbrev pub signature : List ℕ
signature = 83 ∷ 75 ∷ 72 ∷ 85 ∷ 66 ∷ 79 ∷ 79 ∷ 84 ∷ []

-- `sizeof(BootInfo)`, and the number of indices `i` with `i + sizeof(BootInfo) <= BOOT_SECTOR_SIZE`.
abbrev pub boot_info_size : ℕ
boot_info_size = 12

abbrev pub places : ℕ
places = 512 - boot_info_size + 1

-- The inner loop of `findBootInfo`, and `memcmp` in `writeBootInfo`: whether the bytes from `i` on are those
-- of the signature.
unfoldable pub matches_at : List ℕ → List ℕ → ℕ → Bool
matches_at sector [] i = true
matches_at sector (c ∷ cs) i = (get_or sector i 0 == c) && matches_at sector cs (i + 1)

-- The loop of `findBootInfo` from `i` on, with the indices that are left; `none` is NULL.
unfoldable pub find_from : List ℕ → ℕ → ℕ → Option ℕ
find_from sector i zero = none
find_from sector i (suc n) =
    let rest = find_from sector (i + 1) n in if matches_at sector signature i then some i else rest

unfoldable pub find_boot_info : List ℕ → Option ℕ
find_boot_info sector = find_from sector 0 places

-- An `unsigned short` at an offset, low byte first.
abbrev pub read_short : List ℕ → ℕ → ℕ
read_short sector o = get_or sector o 0 + 256 * get_or sector (o + 1) 0

abbrev pub write_short : List ℕ → ℕ → ℕ → List ℕ
write_short sector o v = set (set sector o (v % 256)) (o + 1) (v / 256 % 256)

-- The loop of `writeBootInfo` from `i` on: `none` if a second signature is found, else the offset of the
-- first one, `some none` if there is none.
unfoldable pub scan_from : List ℕ → ℕ → ℕ → Option ℕ → Option (Option ℕ)
scan_from sector i zero offset = some offset
scan_from sector i (suc n) none =
    let rest = scan_from sector (i + 1) n none in
    let taken = scan_from sector (i + 1) n (some i) in
    if matches_at sector signature i then taken else rest
scan_from sector i (suc n) (some o) =
    let rest = scan_from sector (i + 1) n (some o) in
    if matches_at sector signature i then none else rest

-- `writeBootInfo` on the boot sector of the image behind the scan: `none` if it exits with an error.
unfoldable pub write_at : Option (Option ℕ) → List ℕ → ℕ → ℕ → Option (List ℕ)
write_at none sector total loader = none
write_at (some none) sector total loader = none
write_at (some (some o)) sector total loader =
    some (write_short (write_short sector (o + 8) total) (o + 10) loader)

unfoldable pub write_boot_info : List ℕ → ℕ → ℕ → Option (List ℕ)
write_boot_info sector total loader = write_at (scan_from sector 0 places none) sector total loader

-- The padding of `appendFile` and the sector count that it returns, for a file of `size` bytes.
unfoldable pub padding : ℕ → ℕ
padding size = (512 - size % 512) % 512

unfoldable pub sector_count : ℕ → ℕ
sector_count size = (size + padding size) / 512
