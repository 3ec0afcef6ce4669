-- ===== src/Fat.antt =====
-- kernel/fs/FAT.c: the file system, on a disk that is read and written through an interface. The static
-- variables are the state; a function gives the state behind it, with what it returns. A name is the list of
-- its characters in front of the NUL; the messages of `puts` are kept in order.
pub mod Format
pub mod Alloc
pub mod Files
pub mod Io
pub mod Store
pub mod Write
pub mod Update
pub mod Fail
pub mod Fresh
pub mod Listing
pub mod Make
pub mod Delete
pub mod Create
use skhuos.Common.{
  ℕ, zero, suc, ◌+◌, ◌-◌, ◌*◌, ◌/◌, ◌%◌, ◌^◌, Bool, true, false, not, ◌&&◌, ◌||◌, Option, none,
  some, List, [], ◌∷◌, ◌++◌, ◌==◌, if◌then◌else◌, leb, ltb, length,
}
use skhuos.CString.{c_string, strcmp, is_zero}
use skhuos.Sectors.{Buffer, get_dword, put_dword, Device}

abbrev pub cluster_size : ℕ
cluster_size = 4096

abbrev pub sector_size : ℕ
sector_size = 512

abbrev pub link_size : ℕ
link_size = 4

abbrev pub fat_signature : ℕ
fat_signature = 0x19990125

abbrev pub bootloader_signature : ℕ
bootloader_signature = 0x55aa

abbrev pub max_file_count : ℕ
max_file_count = 128

abbrev pub max_filename : ℕ
max_filename = 24

-- The offsets of the fields of `BootSector`.
abbrev pub signature_at : ℕ
signature_at = 420

abbrev pub free_cluster_count_at : ℕ
free_cluster_count_at = 424

abbrev pub link_sector_count_at : ℕ
link_sector_count_at = 428

abbrev pub link_sector_address_at : ℕ
link_sector_address_at = 432

abbrev pub data_address_at : ℕ
data_address_at = 436

abbrev pub bootloader_signature_at : ℕ
bootloader_signature_at = 440

-- `FatInformation`
pub record FatInformation : Type 0 where
  pub free_cluster_count : ℕ
  pub link_sector_count : ℕ
  pub link_sector_address : ℕ
  pub data_address : ℕ

-- The messages that the functions print.
pub data Message : Type 0 where
  read_disk_fail format_first not_mounted not_found already_exists : Message

-- The static variables of FAT.c, the disk, and what has been printed.
pub record Fs (D : Type 0) : Type 0 where
  pub fat_infor : FatInformation
  pub best_idx : ℕ
  pub best_root_dir_idx : ℕ
  pub is_mounted : Bool
  pub buffer512 : Buffer
  pub buffer4096 : Buffer
  pub disk : D
  pub printed : List Message

-- `memsetZero` on a buffer.
abbrev pub zeroed : ℕ → Buffer → Buffer
zeroed n b i = if ltb i n then 0 else b i

-- Fields of the directory entry `i` of a buffer: an entry has a name of 24 bytes, a size and a cluster.
abbrev pub size_of : Buffer → ℕ → ℕ
size_of b i = get_dword b (32 * i + 24)

abbrev pub cluster_of : Buffer → ℕ → ℕ
cluster_of b i = get_dword b (32 * i + 28)

-- `strcmp(fileInfo[i].fileName, fileName)==0`
unfoldable pub has_name : Buffer → List ℕ → ℕ → Bool
has_name b name i = is_zero (strcmp (suc (length name)) (λ j. b (32 * i + j)) (c_string name))

-- `fileInfo[i].clusterIdx!=0 && strcmp(fileInfo[i].fileName, fileName)==0`
unfoldable pub is_file : Buffer → List ℕ → ℕ → Bool
is_file b name i = not (cluster_of b i == 0) && has_name b name i

-- A loop over the entries from `i` on that stops at the first one that a test accepts.
unfoldable pub first_from : (ℕ → Bool) → ℕ → ℕ → Option ℕ
first_from test i zero = none
first_from test i (suc n) = let rest = first_from test (i + 1) n in if test i then some i else rest

-- `memcpy(fileInfo.fileName, fileName, nameLen)` on a cleared entry, with the size 0 and the cluster.
unfoldable pub put_entry : Buffer → ℕ → List ℕ → ℕ → Buffer
put_entry b i name cluster j =
    let name_len = if ltb (max_filename - 1) (length name) then max_filename - 1 else length name in
    let bare : Buffer = λ a.
      if leb (32 * i) a && ltb a (32 * i + 32)
      then (if ltb (a - 32 * i) name_len then c_string name (a - 32 * i) else 0)
      else b a in
    put_dword bare (32 * i + 28) cluster j

module _ {D : Type 0} where
  abbrev pub print : Message → Fs D → Fs D
  print m s = record s { printed = s.printed ++ (m ∷ []) }

  -- The address of the first sector of a cluster; DWORD arithmetic.
  abbrev pub sector_of : Fs D → ℕ → ℕ
  sector_of s cluster = (s.fat_infor.data_address + cluster * 8) % 2 ^ 32

  unfoldable pub init_fat : Fs D → Fs D
  init_fat s = record s { is_mounted = false }

module _ {D : Type 0} (dev : Device D) where
  -- `readSector(FS_PRIMARY, FS_MASTER, …)` into one of the static buffers, and `writeSector` from one.
  unfoldable pub read512 : ℕ → Fs D → ℕ × Fs D
  read512 lba s =
      let (n, b, d) = dev.read_sector 1 lba s.buffer512 s.disk in
      (n, record s { buffer512 = b; disk = d })

  unfoldable pub write512 : ℕ → Fs D → ℕ × Fs D
  write512 lba s =
      let (n, d) = dev.write_sector 1 lba s.buffer512 s.disk in (n, record s { disk = d })

  -- `readCluster(offset, buffer4096)`, and with a buffer of the caller.
  unfoldable pub read_cluster : ℕ → Fs D → Fs D
  read_cluster cluster s =
      let (n, b, d) = dev.read_sector 8 (sector_of s cluster) s.buffer4096 s.disk in
      record s { buffer4096 = b; disk = d }

  unfoldable pub read_cluster_to : ℕ → Buffer → Fs D → Buffer × Fs D
  read_cluster_to cluster buffer s =
      let (n, b, d) = dev.read_sector 8 (sector_of s cluster) buffer s.disk in
      (b, record s { disk = d })

  unfoldable pub write_cluster : ℕ → Buffer → Fs D → Fs D
  write_cluster cluster buffer s =
      let (n, d) = dev.write_sector 8 (sector_of s cluster) buffer s.disk in record s { disk = d }
