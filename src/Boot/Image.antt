-- ===== src/Boot/Image.antt =====
-- tools/imagemaker/ImageMaker.c: the image that is made of the boot sector, the loader and the kernel. A file
-- is the list of its bytes. What is printed is left out; `none` is an exit with an error.
use skhuos.Common.{
  ℕ, ◌+◌, Bool, not, ◌&&◌, ◌||◌, Option, none, some, List, [], ◌∷◌, ◌++◌, ◌==◌, if◌then◌else◌, ltb,
  length, take, drop, replicate,
}
use skhuos.Boot.{padding, sector_count, write_boot_info}

-- The C library of the host, for the names that the tool is called with: `stat` with the device and the inode of a file,
-- `strcmp` that gives 0, `fopen` for reading with the blocks that `fread` gives then, one after the other, `fopen` for
-- writing and for changing, and the number of bytes that `fwrite` writes to an image.
pub record Host (Name : Type 0) : Type 0 where
  pub stat : Name → Option (ℕ × ℕ)
  pub same_text : Name → Name → Bool
  pub open_read : Name → Option (List (List ℕ))
  pub open_write : Name → Bool
  pub open_change : Name → Bool
  pub write_count : List ℕ → List ℕ → ℕ

-- `isSameFile` for what `stat` gave.
abbrev pub same_inode : Option (ℕ × ℕ) → Option (ℕ × ℕ) → Bool → Bool
same_inode (some (d, i)) (some (e, j)) text = (d == e) && (i == j)
same_inode (some a) none text = text
same_inode none b text = text

module _ {Name : Type 0} (host : Host Name) where
  unfoldable pub is_same_file : Name → Name → Bool
  is_same_file a b = same_inode (host.stat a) (host.stat b) (host.same_text a b)

  -- The loop of `appendFile`, with the blocks that are left: the image and the size of the file.
  unfoldable pub append_blocks : List (List ℕ) → List ℕ → ℕ → Option (List ℕ × ℕ)
  append_blocks [] image size = some (image, size)
  append_blocks (block ∷ blocks) image size =
      let rest = append_blocks blocks (image ++ block) (size + length block) in
      if length block == 0
      then some (image, size)
      else if host.write_count image block == length block
      then rest
      else none

  -- `appendFile` behind its loop: the sectors, and the image with the padding.
  abbrev pub pad_file : Option (List ℕ × ℕ) → Option (ℕ × List ℕ)
  pad_file none = none
  pad_file (some (image, size)) = some (sector_count size, image ++ replicate (padding size) 0)

  unfoldable pub append_file : Name → List ℕ → Option (ℕ × List ℕ)
  append_file name image = elim (host.open_read name) [
    | none ↦ none
    | some blocks ↦ pad_file (append_blocks blocks image 0)
  ]

  -- `writeBootInfo` on the image that lies in a file.
  unfoldable pub change_image : Name → List ℕ → ℕ → ℕ → Option (List ℕ)
  change_image name image total loader =
      if host.open_change name && not (ltb (length image) 512)
      then elim (write_boot_info (take 512 image) total loader) [
        | none ↦ none
        | some sector ↦ some (sector ++ drop 512 image)
      ]
      else none

  -- `main` behind its checks: the three files are appended in turn.
  unfoldable pub make_image : Name → Name → Name → Name → Option (List ℕ)
  make_image boot loader kernel output = elim (append_file boot []) [
    | none ↦ none
    | some (boot_count, image) ↦ elim (append_file loader image) [
      | none ↦ none
      | some (loader_count, image') ↦ elim (append_file kernel image') [
        | none ↦ none
        | some (kernel_count, image'') ↦
            change_image output image'' (loader_count + kernel_count) loader_count
      ]
    ]
  ]

  -- `main`, with the arguments behind the program's name.
  unfoldable pub image_main : List Name → Option (List ℕ)
  image_main (boot ∷ loader ∷ kernel ∷ output ∷ others) =
      if is_same_file boot output || is_same_file loader output || is_same_file kernel output
      then none
      else if host.open_write output
      then make_image boot loader kernel output
      else none
  image_main (boot ∷ loader ∷ kernel ∷ []) = none
  image_main (boot ∷ loader ∷ []) = none
  image_main (boot ∷ []) = none
  image_main [] = none
