-- ===== src/Fat/Alloc.antt =====
-- kernel/fs/FAT.c: the search for a free cluster and for a free directory entry, and the links of clusters.
use skhuos.Common.{
  ℕ, zero, suc, ◌+◌, ◌*◌, ◌/◌, ◌%◌, ◌^◌, Option, none, some, ◌==◌, if◌then◌else◌, leb,
}
use skhuos.Sectors.{Buffer, get_dword, put_dword, Device}
use skhuos.Fat.{Fs, read512, write512, read_cluster, cluster_of, max_file_count}

-- The inner loop of `findFreeClusterAndUpdate` from the link `j` on: what it returns, and `bestIdx`.
unfoldable pub scan_links : ℕ → ℕ → Buffer → ℕ → Option ℕ × ℕ
scan_links zero j b best_idx = (none, best_idx)
scan_links (suc n) j b best_idx =
    let rest = scan_links n (j + 1) b (best_idx + 1) in
    if get_dword b (4 * j) == 0 then (some best_idx, best_idx + 1) else rest

-- The loop of `findFreeDirectoryEntryAndUpdate`, with the rounds that are left and `bestRootDirIdx`.
unfoldable pub scan_entries : ℕ → Buffer → ℕ → Option ℕ × ℕ
scan_entries zero b best = (none, best)
scan_entries (suc n) b best =
    let rest = scan_entries n b ((best + 1) % max_file_count) in
    if cluster_of b best == 0 then (some best, best) else rest

module _ {D : Type 0} where
  -- `fatInfor.clusterLinkSectorAddress + offset` for the link of a cluster.
  abbrev pub link_sector : Fs D → ℕ → ℕ
  link_sector s cluster = (s.fat_infor.link_sector_address + cluster / 128) % 2 ^ 32

module _ {D : Type 0} (dev : Device D) where
  -- A round of the outer loop.
  unfoldable pub scan_sector : Fs D → Option ℕ × Fs D
  scan_sector s =
      let (n, s₁) = read512 dev (link_sector s s.best_idx) s in
      let (found, best) = scan_links 128 0 s₁.buffer512 s₁.best_idx in
      (found, record s₁ { best_idx = best })

  unfoldable pub scan_sectors : ℕ → Fs D → Option ℕ × Fs D
  scan_sectors zero s = (none, s)
  scan_sectors (suc k) s =
      let (found, s₁) = scan_sector s in
      let rest = scan_sectors k s₁ in elim found [ none ↦ rest | some c ↦ (some c, s₁) ]

  -- `loopCount` is an `int`: a count from 2^31 on is negative.
  unfoldable pub find_free_cluster : Fs D → Option ℕ × Fs D
  find_free_cluster s =
      let count = s.fat_infor.link_sector_count in
      scan_sectors (if leb (2 ^ 31) count then 0 else count) s

  unfoldable pub find_free_entry : Fs D → Option ℕ × Fs D
  find_free_entry s =
      let s₁ = read_cluster dev 0 s in
      let (found, best) = scan_entries max_file_count s₁.buffer4096 s₁.best_root_dir_idx in
      (found, record s₁ { best_root_dir_idx = best })

  unfoldable pub set_cluster_link : ℕ → ℕ → Fs D → Fs D
  set_cluster_link idx value s =
      let sector = link_sector s idx in
      let (n, s₁) = read512 dev sector s in
      let s₂ = record s₁ { buffer512 = put_dword s₁.buffer512 (4 * (idx % 128)) value } in
      (write512 dev sector s₂).1
