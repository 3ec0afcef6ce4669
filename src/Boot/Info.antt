-- ===== src/Boot/Info.antt =====
-- loader/32bit.c reads the boot information that tools/imagemaker/ImageMaker.c writes.
use skhuos.Common.{
  ℕ, zero, suc, ◌+◌, ◌*◌, ◌/◌, ◌%◌, ◌<◌, ◌≤◌, ◌≡◌, ◌⊎◌, inl, inr, refl, sym, ◌∙◌, ap, Option, none,
  some, List, [], ◌∷◌, arith, Bool-cases, length, get_or, set, length-set, get_or-set_ne,
}
use mathlib.Core.Option.{some-injective}
use skhuos.CString.Blocks.{get_or-set}
use skhuos.Boot.{
  signature, places, matches_at, find_from, find_boot_info, read_short, write_short, scan_from,
  write_at, write_boot_info, padding, sector_count,
}

-- A match depends on the bytes of the window alone.
matches_at-same :
    (s t cs : List ℕ) (i : ℕ)
    → ((j : ℕ) → j < i + length cs → get_or s j 0 ≡ get_or t j 0)
    → matches_at s cs i ≡ matches_at t cs i
unfolding matches_at
matches_at-same s t [] i h = refl
matches_at-same s t (c ∷ cs) i h =
    rw (h i (omega arith), matches_at-same s t cs (i + 1) (λ j k. h j (omega arith))) refl

-- A scan that has an offset already keeps it.
scan_some : (s : List ℕ) (i n o p : ℕ) → scan_from s i n (some o) ≡ some (some p) → o ≡ p
unfolding scan_from
scan_some s i zero o p e = cc
scan_some s i (suc n) o p e = elim (Bool-cases (matches_at s signature i)) [
  | inl y ↦ absurd (ground arith)
  | inr m ↦ scan_some s (i + 1) n o p (ground arith)
]

-- The offset that the scan gives is the first match, also in a sector that differs behind the signature.
scan-find :
    (s t : List ℕ) (i n o : ℕ)
    → scan_from s i n none ≡ some (some o)
    → ((j : ℕ) → j < o + 8 → get_or s j 0 ≡ get_or t j 0)
    → (find_from t i n ≡ some o) × (i ≤ o) × (o < i + n)
unfolding scan_from find_from
scan-find s t i zero o e h = absurd (ground arith)
scan-find s t i (suc n) o e h = elim (Bool-cases (matches_at s signature i)) [
  | inl y ↦
      let at : i ≡ o = scan_some s (i + 1) n i o (ground arith) in
      let same = matches_at-same s t signature i (λ j k. h j (omega arith)) in
      rw (sym same ∙ y) (ap some at, omega arith, omega arith)
  | inr m ↦
      let (found, low, high) = scan-find s t (i + 1) n o (ground arith) h in
      let same = matches_at-same s t signature i (λ j k. h j (omega arith)) in
      rw (sym same ∙ m) (found, omega arith, omega arith)
]

-- The block is found at a place that was searched.
find_from-least : (s : List ℕ) (i n o : ℕ) → find_from s i n ≡ some o → i ≤ o
unfolding find_from
find_from-least s i zero o e = absurd (ground arith)
find_from-least s i (suc n) o e = elim (Bool-cases (matches_at s signature i)) [
  | inl y ↦ ground arith
  | inr m ↦ let low = find_from-least s (i + 1) n o (ground arith) in omega arith
]

-- A block that is found stands where it is found in a sector with the same bytes up to the block's end.
pub find_from-same :
    (s t : List ℕ) (i n o : ℕ)
    → find_from s i n ≡ some o
    → ((j : ℕ) → j < o + 8 → get_or s j 0 ≡ get_or t j 0)
    → (find_from t i n ≡ some o) × (o < i + n)
unfolding find_from
find_from-same s t i zero o e h = absurd (ground arith)
find_from-same s t i (suc n) o e h = elim (Bool-cases (matches_at s signature i)) [
  | inl y ↦
      let at : i ≡ o = ground arith in
      let same = matches_at-same s t signature i (λ j k. h j (omega arith)) in
      rw (sym same ∙ y) (ap some at, omega arith)
  | inr m ↦
      let (found, high) = find_from-same s t (i + 1) n o (ground arith) h in
      let below : i < o + 8 = omega (arith, find_from-least s (i + 1) n o (ground arith)) in
      let same =
        matches_at-same s t signature i
          (λ j k. h j (omega (arith, find_from-least s (i + 1) n o (ground arith)))) in
      rw (sym same ∙ m) (found, omega arith)
]

-- Two bytes written at an offset of the sector are read back, and the bytes before it stay.
read-write_short :
    (s : List ℕ) (o v : ℕ) → o + 2 ≤ length s → v < 65536 → read_short (write_short s o v) o ≡ v
read-write_short s o v h b = ground (
  arith,
  get_or-set s o o (v % 256),
  get_or-set (set s o (v % 256)) (o + 1) o (v / 256 % 256),
  get_or-set (set s o (v % 256)) (o + 1) (o + 1) (v / 256 % 256),
  length-set s o (v % 256),
)

write_short-before :
    (s : List ℕ) (o v j : ℕ) → (j < o) ⊎ (o + 2 ≤ j) → get_or (write_short s o v) j 0 ≡ get_or s j 0
write_short-before s o v j h =
    get_or-set_ne (set s o (v % 256)) (o + 1) j (v / 256 % 256) 0 (λ e. omega arith)
    ∙ get_or-set_ne s o j (v % 256) 0 (λ e. omega arith)

length-write_short : (s : List ℕ) (o v : ℕ) → length (write_short s o v) ≡ length s
length-write_short s o v =
    length-set (set s o (v % 256)) (o + 1) (v / 256 % 256) ∙ length-set s o (v % 256)

-- If the image maker accepts a boot sector of 512 bytes, it leaves one in which the loader finds the block,
-- and reads back the two counts, if these fit 16 bits.
pub find-write_boot_info :
    (sector : List ℕ) (total loader : ℕ) (written : List ℕ)
    → length sector ≡ 512
    → total < 65536
    → loader < 65536
    → write_boot_info sector total loader ≡ some written
    → (o : ℕ) × (find_boot_info written ≡ some o)
      × (read_short written (o + 8) ≡ total)
      × (read_short written (o + 10) ≡ loader)
unfolding write_boot_info write_at find_boot_info
find-write_boot_info sector total loader written l ht hl e =
    go (scan_from sector 0 places none) refl e
  where
    go :
        (r : Option (Option ℕ))
        → scan_from sector 0 places none ≡ r
        → write_at r sector total loader ≡ some written
        → (o : ℕ) × (find_from written 0 places ≡ some o)
          × (read_short written (o + 8) ≡ total)
          × (read_short written (o + 10) ≡ loader)
    go none s w = absurd (cc)
    go (some none) s w = absurd (cc)
    go (some (some o)) s w =
        let mid = write_short sector (o + 8) total in
        let result = write_short mid (o + 10) loader in
        let (found, low, high) = scan-find sector result 0 501 o s (λ j k. sym (
          write_short-before mid (o + 10) loader j (inl (omega arith))
          ∙ write_short-before sector (o + 8) total j (inl (omega arith)))) in
        let is_result : result ≡ written = some-injective _ _ w in
        let low_byte = write_short-before mid (o + 10) loader (o + 8) (inl (omega arith)) in
        let high_byte = write_short-before mid (o + 10) loader (o + 8 + 1) (inl (omega arith)) in
        rw (← is_result) (
          o,
          found,
          rw (low_byte, high_byte) (read-write_short sector (o + 8) total (omega arith) ht),
          read-write_short mid (o + 10) loader
              (omega (arith, length-write_short sector (o + 8) total)) hl,
        )

-- The boot sector keeps its length.
pub length-write_boot_info :
    (sector : List ℕ) (total loader : ℕ) (written : List ℕ)
    → write_boot_info sector total loader ≡ some written
    → length written ≡ length sector
unfolding write_boot_info write_at
length-write_boot_info sector total loader written e = go (scan_from sector 0 places none) e
  where
    go :
        (r : Option (Option ℕ))
        → write_at r sector total loader ≡ some written
        → length written ≡ length sector
    go none w = absurd (cc)
    go (some none) w = absurd (cc)
    go (some (some o)) w =
        ap length (sym (some-injective _ _ w))
        ∙ length-write_short (write_short sector (o + 8) total) (o + 10) loader
        ∙ length-write_short sector (o + 8) total

-- The image maker pads each file to whole sectors: the padding is less than a sector, and the sectors that
-- it counts hold the file and its padding exactly.
pub padding_lem :
    (size : ℕ) → (padding size < 512) × (sector_count size * 512 ≡ size + padding size)
unfolding padding sector_count
padding_lem size = omega arith
