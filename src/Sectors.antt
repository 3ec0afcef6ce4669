-- ===== src/Sectors.antt =====
-- The interface between kernel/drivers/Disk.c and kernel/fs/FAT.c: buffers, numbers in them, and a disk that
-- is read and written in sectors of 512 bytes.
pub mod Dword
use skhuos.Common.{
  ℕ, ◌+◌, ◌-◌, ◌*◌, ◌/◌, ◌%◌, ◌^◌, ◌<◌, ◌≤◌, ◌≡◌, Bool, ◌&&◌, ◌==◌, if◌then◌else◌, leb, ltb,
}

-- The bytes from the address of a buffer on.
abbrev pub Buffer : Type 0
Buffer = ℕ → ℕ

-- A DWORD in a buffer, low byte first.
abbrev pub get_dword : Buffer → ℕ → ℕ
get_dword b o = b o + 2 ^ 8 * b (o + 1) + 2 ^ 16 * b (o + 2) + 2 ^ 24 * b (o + 3)

unfoldable pub put_dword : Buffer → ℕ → ℕ → Buffer
put_dword b o v i =
    if i == o
    then v % 2 ^ 8
    else if i == o + 1
    then v / 2 ^ 8 % 2 ^ 8
    else if i == o + 2
    then v / 2 ^ 16 % 2 ^ 8
    else if i == o + 3
    then v / 2 ^ 24 % 2 ^ 8
    else b i

-- The buffer behind a read of `n` bytes of `source` from `offset` on.
abbrev pub load : Buffer → ℕ → ℕ → Buffer → Buffer
load source offset n b i = if ltb i n then source (offset + i) else b i

-- The bytes of a disk behind a write of the first `n` bytes of a buffer to `offset`.
abbrev pub save : Buffer → ℕ → ℕ → Buffer → Buffer
save bytes offset n b a = if leb offset a && ltb a (offset + n) then b (a - offset) else bytes a

-- `readSector` and `writeSector` on the disk of the file system, with the sector count, the sector's
-- address and the buffer: how many sectors were transferred, and what that leaves.
pub record Device (D : Type 0) : Type 0 where
  pub read_sector : ℕ → ℕ → Buffer → D → ℕ × Buffer × D
  pub write_sector : ℕ → ℕ → Buffer → D → ℕ × D
  pub total_sector : D → ℕ

-- What a device promises that works, as the driver on a disk that keeps the ATA protocol does (Disk.Ata.Device): `bytes` are the bytes of its disk, and transfers of up to 8 sectors
-- below sector 2^28 are complete.
pub record Works {D : Type 0} (dev : Device D) (bytes : D → Buffer) : Type 0 where
  pub read_count :
      (n lba : ℕ) (b : Buffer) (d : D)
      → 0 < n
      → n ≤ 8
      → lba + n ≤ 2 ^ 28
      → (dev.read_sector n lba b d).0 ≡ n
  pub read_bytes :
      (n lba : ℕ) (b : Buffer) (d : D)
      → 0 < n
      → n ≤ 8
      → lba + n ≤ 2 ^ 28
      → (dev.read_sector n lba b d).1 ≡ load (bytes d) (512 * lba) (512 * n) b
  pub read_keeps : (n lba : ℕ) (b : Buffer) (d : D) → bytes (dev.read_sector n lba b d).2 ≡ bytes d
  pub write_count :
      (n lba : ℕ) (b : Buffer) (d : D)
      → 0 < n
      → n ≤ 8
      → lba + n ≤ 2 ^ 28
      → (dev.write_sector n lba b d).0 ≡ n
  pub write_bytes :
      (n lba : ℕ) (b : Buffer) (d : D)
      → 0 < n
      → n ≤ 8
      → lba + n ≤ 2 ^ 28
      → bytes (dev.write_sector n lba b d).1 ≡ save (bytes d) (512 * lba) (512 * n) b
  pub total_keeps :
      (n lba : ℕ) (b : Buffer) (d : D)
      → dev.total_sector (dev.write_sector n lba b d).1 ≡ dev.total_sector d
