-- ===== src/Fat/Fail.antt =====
-- kernel/fs/FAT.c: the operations that fail, and what they leave of the disk.
use skhuos.Common.{ℕ, ◌≡◌, refl, ap, ◌∙◌, false, none, some, List, [], ◌∷◌, ◌++◌, if_true}
use skhuos.Sectors.{Buffer, Device, Works}
use skhuos.Fat.{Fs, Message, not_mounted, not_found, already_exists, read_cluster}
use skhuos.Fat.Files.{create_file, add_unless, read_file, read_entry, write_file, write_entry}
use skhuos.Fat.Io.{disk-read_cluster}
use skhuos.Fat.Store.{FitsEntry, lookup, Mounted, lookup_loaded}

-- Why a file is not there: no disk is mounted, or the directory of the mounted one has no live entry of its name.
pub data NotThere {D : Type 0} (bytes : D → Buffer) (s : Fs D) (name : List ℕ) : Type 0 where
  unmounted : s.is_mounted ≡ false → NotThere bytes s name
  not_listed : Mounted s → lookup bytes s name ≡ none → NotThere bytes s name

-- The message that is printed then.
abbrev pub why :
    {D : Type 0} {bytes : D → Buffer} {s : Fs D} {name : List ℕ} → NotThere bytes s name → Message
why (unmounted u) = not_mounted
why (not_listed m gone) = not_found

module _ {D : Type 0} {dev : Device D} {bytes : D → Buffer} (w : Works dev bytes) (s : Fs D)
    (name : List ℕ) where
  read_missing :
      (out : Buffer) (gone : NotThere bytes s name)
      → FitsEntry name
      → let (r, b, s') = read_file dev name out s in
        (r ≡ none)
        × (b ≡ out)
        × (bytes s'.disk ≡ bytes s.disk)
        × (s'.printed ≡ s.printed ++ (why gone ∷ []))
  unfolding read_file read_entry read_cluster
  read_missing out (unmounted u) fits = rw u (refl, refl, refl, refl)
  read_missing out (not_listed mounted gone) fits =
      let run : read_file dev name out s ≡ read_entry dev none out (read_cluster dev 0 s) =
        if_true s.is_mounted _ _ mounted.mounted
        ∙ ap (λ o. read_entry dev o out (read_cluster dev 0 s))
            (lookup_loaded w s mounted name fits ∙ gone) in
      rw run (refl, refl, disk-read_cluster w 0 s, refl)

  write_missing :
      (buffer : Buffer) (size : ℕ) (gone : NotThere bytes s name)
      → FitsEntry name
      → let (s', done) = write_file dev name buffer size s in
        (done ≡ false)
        × (bytes s'.disk ≡ bytes s.disk)
        × (s'.printed ≡ s.printed ++ (why gone ∷ []))
  unfolding write_file write_entry read_cluster
  write_missing buffer size (unmounted u) fits = rw u (refl, refl, refl)
  write_missing buffer size (not_listed mounted gone) fits =
      let run : write_file dev name buffer size s
          ≡ write_entry dev none buffer size (read_cluster dev 0 s) =
        if_true s.is_mounted _ _ mounted.mounted
        ∙ ap (λ o. write_entry dev o buffer size (read_cluster dev 0 s))
            (lookup_loaded w s mounted name fits ∙ gone) in
      rw run (refl, disk-read_cluster w 0 s, refl)

  -- `readFile` and `writeFile` of a file that is not there fail with the message for the reason: the caller's
  -- buffer and every byte of the disk stay.
  pub missing_fails :
      (out buffer : Buffer) (size : ℕ) (gone : NotThere bytes s name)
      → FitsEntry name
      → let (r, b, s₁) = read_file dev name out s in
        let (s₂, done) = write_file dev name buffer size s in
        ((r ≡ none)
          × (b ≡ out)
          × (bytes s₁.disk ≡ bytes s.disk)
          × (s₁.printed ≡ s.printed ++ (why gone ∷ [])))
        × ((done ≡ false)
            × (bytes s₂.disk ≡ bytes s.disk)
            × (s₂.printed ≡ s.printed ++ (why gone ∷ [])))
  missing_fails out buffer size gone fits =
      (read_missing out gone fits, write_missing buffer size gone fits)

  -- `createFile` of a name that the mounted disk has a live entry of prints that, and every byte of the disk
  -- stays.
  create_existing :
      (i : ℕ)
      → FitsEntry name
      → Mounted s
      → lookup bytes s name ≡ some i
      → let s' = create_file dev name s in
        (bytes s'.disk ≡ bytes s.disk) × (s'.printed ≡ s.printed ++ (already_exists ∷ []))
  unfolding create_file add_unless read_cluster
  create_existing i fits mounted found =
      let run : create_file dev name s ≡ add_unless dev (some i) name (read_cluster dev 0 s) =
        if_true s.is_mounted _ _ mounted.mounted
        ∙ ap (λ o. add_unless dev o name (read_cluster dev 0 s))
            (lookup_loaded w s mounted name fits ∙ found) in
      rw run (disk-read_cluster w 0 s, refl)
