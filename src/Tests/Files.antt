-- ===== src/Tests/Files.antt =====
-- The theorems on the file system at the driver with a small disk that keeps the ATA protocol.
use skhuos.Common.{
  Bool-cases, inl, inr, sym, ap, ◌∙◌, ℕ, ◌+◌, ◌*◌, ◌%◌, ◌<◌, ◌≡◌, refl, true, false, none, some, [],
  ◌∷◌, ◌==◌, if◌then◌else◌, ◌&&◌, ltb, leb, arith, List,
}
use mathlib.Core.Path.{ap₂}
use skhuos.CString.{strcmp}
use skhuos.Sectors.{Buffer, get_dword, load}
use skhuos.Disk.{Driver}
use skhuos.Disk.Transfer.{get_total_sector}
use skhuos.Disk.Ata.{Drive}
use skhuos.Disk.Ata.Device.{device, device-Works}
use skhuos.Fat.{first_from, is_file, has_name, cluster_of, Fs, read_cluster, read512}
use skhuos.Fat.Format.{format, mount, link_sectors}
use skhuos.Fat.Delete.{delete_file-lookup, delete_file-Stores}
use skhuos.Fat.Make.{create_file-Stores}
use skhuos.Fat.Alloc.{
  find_free_entry, find_free_cluster, scan_entries, scan_sectors, scan_sector, scan_links,
  link_sector,
}
use skhuos.Fat.Files.{show_dir}
use skhuos.Fat.Listing.{Listed, show_dir-Stores}
use skhuos.Fat.Fresh.{mount-format}
use skhuos.Fat.Files.{create_file, delete_file, read_file, write_file}
use skhuos.Fat.Store.{FitsEntry, Stores, Mounted, lookup}
use skhuos.Fat.Io.{dir, buffer-read_cluster, disk-read_cluster, infor-read_cluster}
use skhuos.Fat.Write.{Distinct}
use skhuos.Fat.Update.{read_file-write_file, write_file_others, is_file-true}

-- A mounted disk with the files "ab" in cluster 1 and "c" in cluster 3, in the entries 0 and 2.
abbrev two_files : Buffer
two_files a =
    if leb 5632 a
    then 7
    else if a == 1536
    then 97
    else if a == 1537
    then 98
    else if a == 1560
    then 5
    else if a == 1564
    then 1
    else if a == 1600
    then 99
    else if a == 1628
    then 3
    else if leb 512 a && ltb a 528
    then 0xff
    else 0

-- The driver of the disk, with a disk of 2000 sectors that keeps the ATA protocol.
abbrev ata_driver : Driver Drive
ata_driver = record {
  held = 0;
  information = λ i. if i == 60 then 2000 else 0;
  is_primary_interrupt_occur = false;
  is_secondary_interrupt_occur = false;
  disk_waiter = λ p. none;
  pic_state = true;
  machine = record { content = two_files; number = 0; lsb = 0; msb = 0; head = 0; cursor = 0 };
}

abbrev disk_bytes : Driver Drive → Buffer
disk_bytes s = s.machine.content

abbrev mounted_fs : Fs (Driver Drive)
mounted_fs = record {
  fat_infor = record {
    free_cluster_count = 200;
    link_sector_count = 2;
    link_sector_address = 1;
    data_address = 3;
  };
  best_idx = 0;
  best_root_dir_idx = 0;
  is_mounted = true;
  buffer512 = λ i. 0;
  buffer4096 = λ i. 0;
  disk = ata_driver;
  printed = [];
}

abbrev name_ab : List ℕ
name_ab = 97 ∷ 98 ∷ []

abbrev name_c : List ℕ
name_c = 99 ∷ []

name_ab-Fits : FitsEntry name_ab
name_ab-Fits = ((omega arith, omega arith, (omega arith, omega arith, tt)), omega arith)

name_c-Fits : FitsEntry name_c
name_c-Fits = ((omega arith, omega arith, tt), omega arith)

mounted_fs-Mounted : Mounted mounted_fs
mounted_fs-Mounted = record { mounted = refl; root = omega arith }

-- What stands in the two files.
abbrev sevens : Buffer
sevens k = 7

ab_stored : Stores disk_bytes mounted_fs name_ab 5 sevens
unfolding first_from is_file has_name strcmp
ab_stored = record {
  slot = 0;
  found = refl;
  sized = refl;
  in_range = omega arith;
  stored = λ k l. ground arith;
}

c_stored : Stores disk_bytes mounted_fs name_c 0 sevens
unfolding first_from is_file has_name strcmp
c_stored = record {
  slot = 2;
  found = refl;
  sized = refl;
  in_range = omega arith;
  stored = λ k l. ground arith;
}

abbrev typed_in : Buffer
typed_in k = 65 + k % 3

read_file-write_file_example :
    let (s', done) = write_file device name_ab typed_in 2000 mounted_fs in
    let (r, b, s'') = read_file device name_ab (λ i. 0) s' in
    (done ≡ true) × (r ≡ some 2000) × (b 4000 ≡ 66)
read_file-write_file_example =
    read_file-write_file device-Works mounted_fs mounted_fs-Mounted name_ab 5 sevens typed_in
      (λ i. 0) 2000 4000 name_ab-Fits ab_stored (omega arith)

clusters :
    (i : ℕ)
    → i < 128
    → cluster_of (dir disk_bytes mounted_fs) i ≡ (if i == 0 then 1 else if i == 2 then 3 else 0)
clusters i h = ground arith

two_files-Distinct : Distinct (dir disk_bytes mounted_fs)
two_files-Distinct i j h k nz e = ground (arith, clusters i h, clusters j k)

write_file_others_example :
    Stores disk_bytes (write_file device name_ab typed_in 2000 mounted_fs).0 name_c 0 sevens
write_file_others_example =
    write_file_others device-Works mounted_fs mounted_fs-Mounted name_ab name_c 5 0 sevens typed_in
      2000 sevens name_ab-Fits name_c-Fits (λ e. absurd (cc)) two_files-Distinct ab_stored c_stored

mount-format_example :
    let (s₁, formatted) = format device mounted_fs in
    let (s₂, done) = mount device s₁ in
    (formatted ≡ true)
    × (done ≡ true)
    × (s₂.fat_infor.free_cluster_count ≡ 250)
    × (s₂.fat_infor.link_sector_count ≡ 16)
    × (s₂.fat_infor.link_sector_address ≡ 1)
    × (s₂.fat_infor.data_address ≡ 17)
    × Mounted s₂
    × ((c : ℕ)
        → c < 128 * 16
        → get_dword (disk_bytes s₂.disk) (512 + 4 * c) ≡ (if c == 0 then 0xffffffff else 0))
    × ((name : List ℕ) → lookup disk_bytes s₂ name ≡ none)
unfolding link_sectors device get_total_sector
mount-format_example = mount-format device-Works mounted_fs (omega arith) (omega arith)

ab_first : first_from (has_name (dir disk_bytes mounted_fs) name_ab) 0 128 ≡ some 0
unfolding first_from has_name strcmp
ab_first = refl

c_is_not_ab : is_file (dir disk_bytes mounted_fs) name_ab 2 ≡ false
unfolding is_file has_name strcmp
c_is_not_ab = refl

ab_only : (e : ℕ) → e < 128 → is_file (dir disk_bytes mounted_fs) name_ab e ≡ true → e ≡ 0
ab_only e h live =
    let nz = (is_file-true (dir disk_bytes mounted_fs) name_ab e live).0 in
    elim (Bool-cases (e == 2)) [
      | inl two ↦
          let at : e ≡ 2 = ground arith in
          absurd (
            ground
              (arith, sym live ∙ ap (is_file (dir disk_bytes mounted_fs) name_ab) at ∙ c_is_not_ab))
      | inr other ↦ ground (arith, nz, clusters e h)
    ]

delete_file-lookup_example :
    let s' = delete_file device name_ab mounted_fs in
    Mounted s' × (lookup disk_bytes s' name_ab ≡ none)
delete_file-lookup_example =
    delete_file-lookup device-Works mounted_fs mounted_fs-Mounted name_ab name_ab-Fits 0 ab_first
      (omega arith) ab_only

delete_file-Stores_example :
    Stores disk_bytes (delete_file device name_ab mounted_fs) name_c 0 sevens
delete_file-Stores_example =
    delete_file-Stores device-Works mounted_fs mounted_fs-Mounted name_ab name_ab-Fits 0 ab_first
      (omega arith) name_c 0 sevens name_c-Fits (λ e. absurd (cc)) c_stored

no_d : lookup disk_bytes mounted_fs (100 ∷ []) ≡ none
unfolding first_from is_file has_name strcmp
no_d = refl

-- The searches find the entry 1 and the cluster 4.
entry_free : (find_free_entry device (read_cluster device 0 mounted_fs)).0 ≡ some 1
unfolding find_free_entry scan_entries read_cluster
entry_free =
    let s₁ = read_cluster device 0 mounted_fs in
    let infor = infor-read_cluster device 0 mounted_fs in
    ap (λ b. (scan_entries 128 b s₁.best_root_dir_idx).0)
      (buffer-read_cluster device-Works 0 s₁ (omega (arith, ap (λ f. f.data_address) infor)))
    ∙ ap₂
        (λ d f. (scan_entries 128 (load d (512 * (f.data_address + 0 * 8)) 4096 s₁.buffer4096) 0).0)
        (disk-read_cluster device-Works 0 mounted_fs) infor

cluster_free :
    (s : Fs (Driver Drive))
    → s.fat_infor ≡ mounted_fs.fat_infor
    → s.best_idx ≡ 0
    → disk_bytes s.disk ≡ two_files
    → (find_free_cluster device s).0 ≡ some 4
unfolding find_free_cluster scan_sectors scan_sector scan_links read512
cluster_free s infor best same =
    let sector : link_sector s s.best_idx ≡ 1 =
      omega (arith, best, ap (λ f. f.link_sector_address) infor) in
    let count = ap (λ f. f.link_sector_count) infor in
    let found : (scan_sector device s).0 ≡ some 4 =
      ap (λ k. (scan_links 128 0 (device.read_sector 1 k s.buffer512 s.disk).1 s.best_idx).0) sector
      ∙ ap₂ (λ b i. (scan_links 128 0 b i).0)
          (device-Works.read_bytes 1 1 s.buffer512 s.disk (omega arith) (omega arith) (omega arith))
          best
      ∙ ap (λ d. (scan_links 128 0 (load d 512 512 s.buffer512) 0).0) same in
    rw (count, scan_sectors, found) refl

searched_cluster :
    (find_free_cluster device (find_free_entry device (read_cluster device 0 mounted_fs)).1).0
    ≡ some 4
unfolding find_free_entry read_cluster
searched_cluster =
    cluster_free (find_free_entry device (read_cluster device 0 mounted_fs)).1 refl refl (
      disk-read_cluster device-Works 0 (read_cluster device 0 mounted_fs)
      ∙ disk-read_cluster device-Works 0 mounted_fs)

create_file-Stores_example :
    let s' = create_file device (100 ∷ []) mounted_fs in
    Mounted s' × Stores disk_bytes s' (100 ∷ []) 0 (λ k. two_files (512 * 35 + k))
create_file-Stores_example =
    create_file-Stores device-Works mounted_fs mounted_fs-Mounted (100 ∷ [])
      ((omega arith, omega arith, tt), omega arith) 1 4 no_d (omega arith) entry_free
      searched_cluster (λ e. absurd (omega arith)) (omega arith) (omega arith)

show_dir-Stores_example :
    (files : List (List ℕ × ℕ)) × ((show_dir device mounted_fs).0 ≡ some files)
    × Listed name_ab 5 files
    × (disk_bytes (show_dir device mounted_fs).1.disk ≡ two_files)
show_dir-Stores_example =
    show_dir-Stores device-Works mounted_fs mounted_fs-Mounted name_ab 5 sevens name_ab-Fits
      ab_stored
