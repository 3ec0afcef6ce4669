-- ===== src/Fat/Format.antt =====
-- kernel/fs/FAT.c: mounting and formatting.
use skhuos.Common.{
  ℕ, zero, suc, ◌+◌, ◌-◌, ◌/◌, ◌%◌, ◌^◌, Bool, true, false, ◌==◌, if◌then◌else◌, ltb,
}
use skhuos.Sectors.{Buffer, get_dword, put_dword, Device}
use skhuos.Fat.{
  Fs, print, read512, write512, zeroed, sector_size, cluster_size, fat_signature,
  bootloader_signature, signature_at, free_cluster_count_at, link_sector_count_at,
  link_sector_address_at, data_address_at, bootloader_signature_at, read_disk_fail, format_first,
}

-- The fields that `format` writes into the boot sector's buffer, for the two counts.
unfoldable pub boot_sector : Buffer → ℕ → ℕ → Buffer
boot_sector b cluster_count link_count =
    let b₁ = zeroed signature_at b in
    let b₂ : Buffer = λ i.
      if i == bootloader_signature_at
      then bootloader_signature % 2 ^ 8
      else if i == bootloader_signature_at + 1
      then bootloader_signature / 2 ^ 8
      else b₁ i in
    let b₃ = put_dword b₂ signature_at fat_signature in
    let b₄ = put_dword b₃ free_cluster_count_at cluster_count in
    let b₅ = put_dword b₄ link_sector_count_at link_count in
    let b₆ = put_dword b₅ link_sector_address_at 1 in put_dword b₆ data_address_at (1 + link_count)

-- The number of FAT sectors that `format` takes for a disk.
unfoldable pub link_sectors : ℕ → ℕ
link_sectors sector_count =
    let cluster_count = sector_count / 8 in
    let first_guess = (cluster_count + 128 - 1) / 128 in
    let data_sector_count = sector_count - 1 - first_guess in (data_sector_count + 128 - 1) / 128

module _ {D : Type 0} (dev : Device D) where
  -- `mount` behind the read of the boot sector.
  unfoldable pub mount_boot : Fs D → Fs D × Bool
  mount_boot s =
      let boot = s.buffer512 in
      if get_dword boot signature_at == fat_signature
      then (
        record s {
          fat_infor = record {
            free_cluster_count = get_dword boot free_cluster_count_at;
            link_sector_count = get_dword boot link_sector_count_at;
            link_sector_address = get_dword boot link_sector_address_at;
            data_address = get_dword boot data_address_at;
          };
          best_idx = 0;
          best_root_dir_idx = 0;
          is_mounted = true;
        },
        true,
      )
      else (print format_first s, false)

  unfoldable pub mount : Fs D → Fs D × Bool
  mount s =
      let s₁ = record s {
        buffer512 = zeroed sector_size s.buffer512;
        buffer4096 = zeroed cluster_size s.buffer4096;
      } in
      let (n, s₂) = read512 dev 0 s₁ in
      if n == 0 then (print read_disk_fail s₂, false) else mount_boot s₂

  -- The loop of `format` that clears the FAT and the root directory, from the sector `1 + i` on.
  unfoldable pub clear_sectors : ℕ → ℕ → ℕ → Fs D → Fs D × Bool
  clear_sectors zero i init_sector_count s = (s, true)
  clear_sectors (suc k) i init_sector_count s =
      let left = init_sector_count - i in
      let write_count = if ltb 8 left then 8 else left in
      let (n, d) = dev.write_sector write_count (1 + i) s.buffer4096 s.disk in
      let s₁ = record s { disk = d } in
      let rest = clear_sectors k (i + 8) init_sector_count s₁ in
      if n == write_count then rest else (s₁, false)

  -- The end of `format`: the root directory's cluster is marked as used.
  unfoldable pub mark_root : Fs D × Bool → Fs D × Bool
  mark_root (s, false) = (s, false)
  mark_root (s, true) =
      let s₁ = record s { buffer512 = put_dword (zeroed sector_size s.buffer512) 0 0xffffffff } in
      ((write512 dev 1 s₁).1, true)

  unfoldable pub format : Fs D → Fs D × Bool
  format s =
      let sector_count = dev.total_sector s.disk in
      let link_count = link_sectors sector_count in
      let s₁ = record s { buffer512 = boot_sector s.buffer512 (sector_count / 8) link_count } in
      let (n, s₂) = write512 dev 0 s₁ in
      let s₃ = record s₂ { buffer4096 = zeroed cluster_size s₂.buffer4096 } in
      let init_sector_count = link_count + 8 in
      if n == 0
      then (s₂, false)
      else mark_root (clear_sectors ((init_sector_count + 7) / 8) 0 init_sector_count s₃)
