-- ===== src/Fat/Make.antt =====
-- kernel/fs/FAT.c: `createFile` with its searches for a free entry and a free cluster.
use skhuos.Common.{
  ℕ, zero, suc, ◌+◌, ◌*◌, ◌/◌, ◌%◌, ◌<◌, ◌≡◌, ◌≢◌, inl, inr, refl, ap, ◌∙◌, none, some, List, ◌==◌,
  arith, Bool-cases, Option-cases, if_true,
}
use mathlib.Core.Path.{ap₂, subst}
use skhuos.Sectors.{Buffer, Device, Works}
use skhuos.Fat.{Fs, read512, read_cluster, cluster_of, is_file, first_from}
use skhuos.Fat.Alloc.{scan_entries, scan_sector, scan_sectors, find_free_entry, find_free_cluster}
use skhuos.Fat.Files.{create_file, add_unless, add_in_entry, add_in_cluster, add_file}
use skhuos.Fat.Io.{start, InRange}
use skhuos.Fat.Store.{FitsEntry, lookup, Stores, Mounted, lookup_loaded}
use skhuos.Fat.Create.{add_file-Stores}

-- The search for an entry stays inside the directory.
scan_entries_bound :
    (n : ℕ) (b : Buffer) (best e : ℕ) → best < 128 → (scan_entries n b best).0 ≡ some e → e < 128
unfolding scan_entries
scan_entries_bound zero b best e h found = absurd (cc)
scan_entries_bound (suc n) b best e h found = elim (Bool-cases (cluster_of b best == 0)) [
  | inl free ↦ ground (arith, free)
  | inr taken ↦ scan_entries_bound n b ((best + 1) % 128) e (omega arith) (ground (arith, taken))
]

module _ {D : Type 0} {dev : Device D} {bytes : D → Buffer} (w : Works dev bytes) where
  -- What the searches leave as it is.
  record Searched (s s' : Fs D) : Type 0 where
    same_infor : s'.fat_infor ≡ s.fat_infor
    same_mounted : s'.is_mounted ≡ s.is_mounted
    same_disk : bytes s'.disk ≡ bytes s.disk

  Searched-trans : (s t u : Fs D) → Searched s t → Searched t u → Searched s u
  Searched-trans s t u p q = record {
    same_infor = q.same_infor ∙ p.same_infor;
    same_mounted = q.same_mounted ∙ p.same_mounted;
    same_disk = q.same_disk ∙ p.same_disk;
  }

  read_cluster-Searched : (s : Fs D) → Searched s (read_cluster dev 0 s)
  unfolding read_cluster
  read_cluster-Searched s = record {
    same_infor = refl;
    same_mounted = refl;
    same_disk = w.read_keeps 8 _ s.buffer4096 s.disk;
  }

  scan_sector-Searched : (s : Fs D) → Searched s (scan_sector dev s).1
  unfolding scan_sector read512
  scan_sector-Searched s = record {
    same_infor = refl;
    same_mounted = refl;
    same_disk = w.read_keeps 1 _ s.buffer512 s.disk;
  }

  scan_sectors-Searched : (k : ℕ) (s : Fs D) → Searched s (scan_sectors dev k s).1
  unfolding scan_sectors
  scan_sectors-Searched zero s = record { same_infor = refl; same_mounted = refl; same_disk = refl }
  scan_sectors-Searched (suc k) s =
      let one = scan_sector-Searched s in
      elim (Option-cases (scan_sector dev s).0) [
        | inl missing ↦
            rw (scan_sectors, missing)
              (Searched-trans s (scan_sector dev s).1 _ one
                (scan_sectors-Searched k (scan_sector dev s).1))
        | inr (c, found) ↦ rw (scan_sectors, found) one
      ]

  find_free_cluster-Searched : (s : Fs D) → Searched s (find_free_cluster dev s).1
  unfolding find_free_cluster
  find_free_cluster-Searched s = scan_sectors-Searched _ s

  find_free_entry-Searched : (s : Fs D) → Searched s (find_free_entry dev s).1
  unfolding find_free_entry
  find_free_entry-Searched s =
      let r = read_cluster-Searched s in
      record { same_infor = r.same_infor; same_mounted = r.same_mounted; same_disk = r.same_disk }

  find_free_entry_bound :
      (s : Fs D) (e : ℕ) → s.best_root_dir_idx < 128 → (find_free_entry dev s).0 ≡ some e → e < 128
  unfolding find_free_entry read_cluster
  find_free_entry_bound s e h found =
      scan_entries_bound 128 (read_cluster dev 0 s).buffer4096 s.best_root_dir_idx e h found

  module _ (s : Fs D) (m : Mounted s) (name : List ℕ) (fits : FitsEntry name) where
    abbrev opened : Fs D
    opened = read_cluster dev 0 s

    create_file_run :
        (e c : ℕ)
        → lookup bytes s name ≡ none
        → (find_free_entry dev opened).0 ≡ some e
        → (find_free_cluster dev (find_free_entry dev opened).1).0 ≡ some c
        → create_file dev name s
          ≡ add_file dev name e c (find_free_cluster dev (find_free_entry dev opened).1).1
    unfolding create_file add_unless add_in_entry add_in_cluster
    create_file_run e c gone entry cluster =
        let (o, s₂) = find_free_entry dev opened in
        if_true s.is_mounted _ _ m.mounted
        ∙ ap (λ x. add_unless dev x name opened) (lookup_loaded w s m name fits ∙ gone)
        ∙ ap (λ x. add_in_entry dev name (x, s₂)) entry
        ∙ ap (λ x. add_in_cluster dev name e (x, (find_free_cluster dev s₂).1)) cluster

    -- On a disk whose transfers are complete (`Works`), mounted, with the FAT in front of the directory: if no file of a name
    -- of at most 23 characters is found, and the searches for a free directory entry, from an index inside the directory on, and
    -- for a free cluster, other than the root directory's, succeed, then `createFile` leaves the file system mounted,
    -- and storing a file of the name, of size 0, in that cluster.
    pub create_file-Stores :
        (e c : ℕ)
        → lookup bytes s name ≡ none
        → s.best_root_dir_idx < 128
        → (find_free_entry dev (read_cluster dev 0 s)).0 ≡ some e
        → (find_free_cluster dev (find_free_entry dev (read_cluster dev 0 s)).1).0 ≡ some c
        → c ≢ 0
        → InRange s c
        → s.fat_infor.link_sector_address + c / 128 < s.fat_infor.data_address
        → let s' = create_file dev name s in
          Mounted s' × Stores bytes s' name 0 (λ k. bytes s.disk (start s c + k))
    unfolding read_cluster
    create_file-Stores e c gone best entry cluster live range front =
        let s₃ = (find_free_cluster dev (find_free_entry dev opened).1).1 in
        let kept = Searched-trans s opened s₃ (read_cluster-Searched s) (
          Searched-trans opened (find_free_entry dev opened).1 s₃ (find_free_entry-Searched opened)
            (find_free_cluster-Searched (find_free_entry dev opened).1)) in
        let infor = kept.same_infor in
        let address = ap (λ f. f.data_address) infor in
        let mounted : Mounted s₃ = record {
          mounted = kept.same_mounted ∙ m.mounted;
          root = omega (arith, m.root, address);
        } in
        let gone' : lookup bytes s₃ name ≡ none =
          ap₂ (λ d f. first_from (is_file (λ i. d (512 * (f.data_address + 0 * 8) + i)) name) 0 128)
            kept.same_disk infor
          ∙ gone in
        let made =
          add_file-Stores w s₃ mounted name fits e c (find_free_entry_bound opened e best entry)
            live (omega (arith, range, address))
            (omega (arith, front, address, ap (λ f. f.link_sector_address) infor)) gone' in
        let content : (λ k. bytes s₃.disk (start s₃ c + k)) ≡ (λ k. bytes s.disk (start s c + k)) =
          ap₂ (λ d f k. d (512 * (f.data_address + c * 8) + k)) kept.same_disk infor in
        rw (create_file_run e c gone entry cluster) (
          subst (λ b. let s' = add_file dev name e c s₃ in Mounted s' × Stores bytes s' name 0 b)
            content made)
