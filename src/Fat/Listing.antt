-- ===== src/Fat/Listing.antt =====
-- kernel/fs/FAT.c: what `showDir` prints.
use skhuos.Common.{
  ℕ, zero, suc, ◌+◌, ◌-◌, ◌*◌, ◌%◌, ◌<◌, ◌≤◌, ◌≡◌, ◌⊎◌, inl, inr, refl, sym, ap, ◌∙◌, Bool, true,
  false, none, some, List, [], ◌∷◌, ◌==◌, length, arith, Bool-cases, if_true,
}
use mathlib.Core.Path.{subst}
use skhuos.CString.Compare.{IsText, same}
use skhuos.Sectors.{Buffer, Device, Works}
use skhuos.Fat.{Fs, read_cluster, cluster_of, size_of, has_name, is_file, print, not_mounted}
use skhuos.Fat.Files.{text_of, list_from, show_dir}
use skhuos.Fat.Io.{has_name_lem, first_from-some, dir, disk-read_cluster}
use skhuos.Fat.Store.{FitsEntry, Stores, Mounted, lookup, lookup_loaded, entry_loaded}

-- The text of bytes that are the same as a name is the name.
text_of-same :
    (k : ℕ) (s : ℕ → ℕ) (name : List ℕ)
    → IsText name
    → length name < k
    → same s name ≡ true
    → text_of k s ≡ name
unfolding text_of
text_of-same zero s name t h e = absurd (omega arith)
text_of-same (suc k) s [] t h e =
    let stop : (s 0 % 256 == 0) ≡ true = ground arith in if_true (s 0 % 256 == 0) [] _ stop
text_of-same (suc k) s (c ∷ cs) (nz, b, t) h e =
    let same_char : s 0 % 256 ≡ c = ground arith in
    let goes : (s 0 % 256 == 0) ≡ false = ground arith in
    let rest = text_of-same k (λ j. s (suc j)) cs t (omega arith) (ground arith) in
    rw goes (rw (same_char, rest) refl)

-- A file stands in what is printed.
abbrev pub Listed : List ℕ → ℕ → List (List ℕ × ℕ) → Type 0
Listed name size [] = ◌≡◌ {A = Bool} false true
Listed name size ((n, k) ∷ files) = ((n ≡ name) × (k ≡ size)) ⊎ Listed name size files

list_from-Listed :
    (n i slot : ℕ) (b : Buffer) (name : List ℕ) (size : ℕ)
    → i ≤ slot
    → slot < i + n
    → (cluster_of b slot == 0) ≡ false
    → text_of (4096 - 32 * slot) (λ j. b (32 * slot + j)) ≡ name
    → size_of b slot ≡ size
    → Listed name size (list_from n i b)
unfolding list_from
list_from-Listed zero i slot b name size low high live named sized = absurd (omega arith)
list_from-Listed (suc n) i slot b name size low high live named sized =
    elim (Bool-cases (i == slot)) [
      | inl here ↦
          let at : i ≡ slot = ground arith in
          let live_here : (cluster_of b i == 0) ≡ false = ap (λ x. cluster_of b x == 0) at ∙ live in
          rw live_here (
            inl (
              ap (λ x. text_of (4096 - 32 * x) (λ j. b (32 * x + j))) at ∙ named,
              ap (size_of b) at ∙ sized,
            ))
      | inr later ↦
          let rest =
            list_from-Listed n (i + 1) slot b name size (ground arith) (omega arith) live named
              sized in
          elim (Bool-cases (cluster_of b i == 0)) [
            | inl empty ↦ rw empty rest
            | inr other ↦ rw other (inr rest)
          ]
    ]

module _ {D : Type 0} {dev : Device D} {bytes : D → Buffer} (w : Works dev bytes) (s : Fs D)
    (m : Mounted s) where
  -- The entry of a stored file, in the buffer that `showDir` reads the directory to.
  entry-Listed :
      (name : List ℕ) (slot : ℕ)
      → FitsEntry name
      → lookup bytes s name ≡ some slot
      → Listed name (size_of (dir bytes s) slot) (list_from 128 0 (read_cluster dev 0 s).buffer4096)
  unfolding is_file
  entry-Listed name slot (t, short) e =
      let b = (read_cluster dev 0 s).buffer4096 in
      let (low, high, file) =
        first_from-some (is_file b name) 0 128 slot (lookup_loaded w s m name (t, short) ∙ e) in
      let live : (cluster_of b slot == 0) ≡ false = ground (arith, file) in
      let named : has_name b name slot ≡ true = ground (arith, file) in
      let text =
        text_of-same (4096 - 32 * slot) (λ j. b (32 * slot + j)) name t (omega arith)
          (sym (has_name_lem b name slot t) ∙ named) in
      list_from-Listed 128 0 slot b name (size_of (dir bytes s) slot) low high live text
        (entry_loaded w s m slot high).1

  show_dir_run :
      show_dir dev s
      ≡ (some (list_from 128 0 (read_cluster dev 0 s).buffer4096), read_cluster dev 0 s)
  unfolding show_dir
  show_dir_run = if_true s.is_mounted _ (none, print not_mounted s) m.mounted

  -- On a disk whose transfers are complete (`Works`), mounted, `showDir` prints the name and the size of every stored file
  -- whose name has at most 23 characters, and leaves the disk
  -- as it is.
  pub show_dir-Stores :
      (name : List ℕ) (size : ℕ) (content : Buffer)
      → FitsEntry name
      → Stores bytes s name size content
      → (files : List (List ℕ × ℕ)) × ((show_dir dev s).0 ≡ some files)
        × Listed name size files
        × (bytes (show_dir dev s).1.disk ≡ bytes s.disk)
  show_dir-Stores name size content fits st =
      let b = (read_cluster dev 0 s).buffer4096 in
      (
        list_from 128 0 b,
        ap (λ x. x.0) show_dir_run,
        subst (λ k. Listed name k (list_from 128 0 b)) st.sized
            (entry-Listed name st.slot fits st.found),
        ap (λ x. bytes x.1.disk) show_dir_run ∙ disk-read_cluster w 0 s,
      )
