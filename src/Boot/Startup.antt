-- ===== src/Boot/Startup.antt =====
-- tools/imagemaker/ImageMaker.c and loader/32bit.c: the kernel's file comes to stand in memory.
use skhuos.Common.{
  ℕ, ◌+◌, ◌≡◌, inl, inr, refl, sym, ap, ◌∙◌, not, ◌&&◌, Option, none, some, List, [], ◌∷◌, ◌++◌,
  ◌==◌, if◌then◌else◌, ltb, length, take, drop, replicate, arith, Bool-cases, bind_some, if_true,
  if_false, length-append, append_assoc, append_nil,
}
use mathlib.Core.Option.{some-injective}
use skhuos.Boot.{padding, sector_count, write_boot_info}
use skhuos.Boot.Image.{Host, append_blocks, append_file, change_image, make_image, pad_file}

-- The bytes of a file whose blocks are read in turn: a block of no bytes is its end.
abbrev pub joined : List (List ℕ) → List ℕ
joined [] = []
joined (block ∷ blocks) = if length block == 0 then [] else block ++ joined blocks

abbrev pub Contains : {Name : Type 0} → Host Name → Name → List ℕ → Type 0
Contains host name file =
    (blocks : List (List ℕ)) × (host.open_read name ≡ some blocks) × (joined blocks ≡ file)

-- A file with the zeros behind it that make its sectors whole.
abbrev pub padded : List ℕ → List ℕ
padded file = file ++ replicate (padding (length file)) 0

module _ {Name : Type 0} (host : Host Name) where
  append_blocks_lem :
      (blocks : List (List ℕ)) (image image' : List ℕ) (size size' : ℕ)
      → append_blocks host blocks image size ≡ some (image', size')
      → (image' ≡ image ++ joined blocks) × (size' ≡ size + length (joined blocks))
  unfolding append_blocks
  append_blocks_lem [] image image' size size' e =
      let same = some-injective _ _ e in
      (sym (ap (λ p. p.0) same) ∙ sym (append_nil image), sym (ap (λ p. p.1) same) ∙ omega arith)
  append_blocks_lem (block ∷ blocks) image image' size size' e =
      elim (Bool-cases (length block == 0)) [
        | inl empty ↦
            let same =
              some-injective (image, size) (image', size')
                (sym (if_true (length block == 0) _ _ empty) ∙ e) in
            rw empty (
              sym (ap (λ p. p.0) same) ∙ sym (append_nil image),
              sym (ap (λ p. p.1) same) ∙ omega arith,
            )
        | inr more ↦
            let loop = sym (if_false (length block == 0) (some (image, size)) _ more) ∙ e in
            elim (Bool-cases (host.write_count image block == length block)) [
              | inl whole ↦
                  let (i, l) =
                    append_blocks_lem blocks (image ++ block) image' (size + length block) size' (
                      sym (if_true (host.write_count image block == length block) _ none whole)
                      ∙ loop) in
                  let bytes = length-append block (joined blocks) in
                  rw more (i ∙ append_assoc image block (joined blocks), l ∙ omega (arith, bytes))
              | inr short ↦
                  let failed =
                    sym (if_false (host.write_count image block == length block) _ none short)
                    ∙ loop in
                  absurd (cc)
            ]
      ]

  pad_file-some :
      (o : Option (List ℕ × ℕ)) (n : ℕ) (image' : List ℕ)
      → pad_file host o ≡ some (n, image')
      → (image : List ℕ) × (size : ℕ) × (o ≡ some (image, size))
        × (n ≡ sector_count size)
        × (image' ≡ image ++ replicate (padding size) 0)
  pad_file-some none n image' e = absurd (cc)
  pad_file-some (some (image, size)) n image' e =
      let same = some-injective _ _ e in
      (image, size, refl, sym (ap (λ p. p.0) same), sym (ap (λ p. p.1) same))

  append_file_lem :
      (name : Name) (image image' : List ℕ) (n : ℕ)
      → append_file host name image ≡ some (n, image')
      → (file : List ℕ) × Contains host name file
        × (image' ≡ image ++ padded file)
        × (n ≡ sector_count (length file))
  unfolding append_file
  append_file_lem name image image' n e =
      let (blocks, opened, rest) =
        bind_some (host.open_read name) (λ b. pad_file host (append_blocks host b image 0))
          (n, image') e in
      let (grown, size, loop, count, padded_to) =
        pad_file-some (append_blocks host blocks image 0) n image' rest in
      let (bytes, total) = append_blocks_lem blocks image grown 0 size loop in
      let exact : size ≡ length (joined blocks) = omega (arith, total) in
      (
        joined blocks,
        (blocks, opened, refl),
        padded_to
            ∙ ap (λ l. l ++ replicate (padding size) 0) bytes
            ∙ append_assoc image (joined blocks) (replicate (padding size) 0)
            ∙ ap (λ k. image ++ (joined blocks ++ replicate (padding k) 0)) exact,
        count ∙ ap sector_count exact,
      )

  -- What a complete run of the tool has made.
  pub record Made (boot loader kernel : Name) (image : List ℕ) : Type 0 where
    pub boot_file : List ℕ
    pub loader_file : List ℕ
    pub kernel_file : List ℕ
    pub boot_contains : Contains host boot boot_file
    pub loader_contains : Contains host loader loader_file
    pub kernel_contains : Contains host kernel kernel_file
    pub sector : List ℕ
    pub written :
        write_boot_info
          (take 512 (padded boot_file ++ (padded loader_file ++ padded kernel_file)))
          (sector_count (length loader_file) + sector_count (length kernel_file))
          (sector_count (length loader_file))
        ≡ some sector
    pub layout :
        image ≡ sector ++ drop 512 (padded boot_file ++ (padded loader_file ++ padded kernel_file))

  change_image-some :
      (output : Name) (image image' : List ℕ) (total loader : ℕ)
      → change_image host output image total loader ≡ some image'
      → (sector : List ℕ) × (write_boot_info (take 512 image) total loader ≡ some sector)
        × (image' ≡ sector ++ drop 512 image)
  unfolding change_image
  change_image-some output image image' total loader e =
      elim (Bool-cases (host.open_change output && not (ltb (length image) 512))) [
        | inl opened ↦
            let (sector, written, result) =
              bind_some (write_boot_info (take 512 image) total loader)
                (λ s. some (s ++ drop 512 image)) image'
                (sym (
                    if_true (host.open_change output && not (ltb (length image) 512)) _ none opened)
                  ∙ e) in
            (sector, written, sym (some-injective _ _ result))
        | inr failed ↦
            let no =
              sym (if_false (host.open_change output && not (ltb (length image) 512)) _ none failed)
              ∙ e in
            absurd (cc)
      ]

  pub make_image-Made :
      (boot loader kernel output : Name) (image : List ℕ)
      → make_image host boot loader kernel output ≡ some image
      → Made boot loader kernel image
  unfolding make_image
  make_image-Made boot loader kernel output image e =
      let ((nb, ib), eb, rest) = bind_some (append_file host boot []) _ image e in
      let ((nl, il), el, rest') = bind_some (append_file host loader ib) _ image rest in
      let ((nk, ik), ek, rest'') = bind_some (append_file host kernel il) _ image rest' in
      let (fb, cb, lb, sb) = append_file_lem boot [] ib nb eb in
      let (fl, cl, ll, sl) = append_file_lem loader ib il nl el in
      let (fk, ck, lk, sk) = append_file_lem kernel il ik nk ek in
      let (sector, written, layout) = change_image-some output ik image (nl + nk) nl rest'' in
      let whole : ik ≡ padded fb ++ (padded fl ++ padded fk) =
        lk
        ∙ ap (λ l. l ++ padded fk) ll
        ∙ ap (λ l. (l ++ padded fl) ++ padded fk) lb
        ∙ append_assoc (padded fb) (padded fl) (padded fk) in
      record {
        boot_file = fb;
        loader_file = fl;
        kernel_file = fk;
        boot_contains = cb;
        loader_contains = cl;
        kernel_contains = ck;
        sector = sector;
        written =
            ap
              (λ l.
                write_boot_info (take 512 l) (sector_count (length fl) + sector_count (length fk))
                  (sector_count (length fl)))
              (sym whole)
            ∙ ap (λ a. write_boot_info (take 512 ik) (a + sector_count (length fk)) a) (sym sl)
            ∙ ap (λ b. write_boot_info (take 512 ik) (nl + b) nl) (sym sk)
            ∙ written;
        layout = layout ∙ ap (λ l. sector ++ drop 512 l) whole;
      }
