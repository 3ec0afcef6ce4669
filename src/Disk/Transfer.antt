-- ===== src/Disk/Transfer.antt =====
-- kernel/drivers/Disk.c: the commands for a disk: identifying it, reading and writing sectors.
use skhuos.Common.{
  ℕ, zero, suc, ◌+◌, ◌*◌, ◌/◌, ◌%◌, ◌^◌, Bool, true, false, ◌==◌, if◌then◌else◌, leb,
}
use skhuos.Machine.{Machine}
use skhuos.Sectors.{Buffer}
use skhuos.Disk
use skhuos.Disk.{
  Driver, Run, pure, modify, branch, ◌>>=◌, ◌>>◌, access, get_port, get_port_word, set_port,
  set_port_word, acquire_lock, release_lock, port_address, bit_of, status_err, command_read,
  command_write, command_drive_identify, driverhead_lba, driverhead_slave,
}
use skhuos.Disk.Wait.{
  wait_no_busy, wait_ready, wait_data_request, wait_interrupt, clear_disk_interrupt_flag,
}

unfoldable pub drive_flag : Bool → ℕ
drive_flag is_master = if is_master then driverhead_lba else driverhead_lba + driverhead_slave

-- The word `i` of a buffer, and a buffer with it changed.
abbrev pub get_word : Buffer → ℕ → ℕ × ℕ
get_word b i = (b (2 * i), b (2 * i + 1))

abbrev pub put_word : Buffer → ℕ → ℕ × ℕ → Buffer
put_word b i v a = if a == 2 * i then v.0 else if a == 2 * i + 1 then v.1 else b a

-- How often `for(int i=0; i<sectorCount; i++)` runs: the count is a `char`, which is negative from 128 on.
abbrev pub sector_rounds : ℕ → ℕ
sector_rounds count = if leb 128 count then 0 else count

module _ {H : Type 0} (m : Machine H) (rounds : ℕ) (is_primary : Bool) where
  unfoldable pub send_disk_command : Bool → ℕ → ℕ → ℕ → Run H Bool
  send_disk_command is_master count lba command = do
    idle ← wait_no_busy m rounds is_primary
    branch idle
        (do
          set_port m (port_address is_primary Disk.sector_count) (count % 2 ^ 8)
          set_port m (port_address is_primary Disk.sector_number) (lba % 2 ^ 8)
          set_port m (port_address is_primary Disk.cylinder_lsb) (lba / 2 ^ 8 % 2 ^ 8)
          set_port m (port_address is_primary Disk.cylinder_msb) (lba / 2 ^ 16 % 2 ^ 8)
          set_port m (port_address is_primary Disk.drive_and_header)
              (drive_flag is_master + lba / 2 ^ 24 % 2 ^ 4)
          ready ← wait_ready m rounds is_primary
          branch ready
              (do
                clear_disk_interrupt_flag m rounds is_primary
                set_port m (port_address is_primary Disk.command) command
                pure true)
              (pure false))
        (pure false)

  -- The loop that reads the words of `disk` from `i` on.
  unfoldable pub read_words : ℕ → ℕ → Run H (Unit {0})
  read_words zero i = pure tt
  read_words (suc k) i = do
    v ← get_port_word m (port_address is_primary Disk.data_port)
    modify
        (λ s. record s { information = λ j. if j == i then v.0 + 2 ^ 8 * v.1 else s.information j })
    read_words k (i + 1)

  unfoldable pub read_information : Bool → Run H Bool
  read_information is_master = do
    acquire_lock m
    idle ← wait_no_busy m rounds is_primary
    branch idle
        (do
          set_port m (port_address is_primary Disk.drive_and_header) (drive_flag is_master)
          ready ← wait_ready m rounds is_primary
          branch ready
              (do
                clear_disk_interrupt_flag m rounds is_primary
                set_port m (port_address is_primary Disk.command) command_drive_identify
                requested ← wait_data_request m rounds is_primary
                branch requested (do read_words 256 0; release_lock m; pure true)
                    (do release_lock m; pure false))
              (do release_lock m; pure false))
        (do release_lock m; pure false)

  -- The loop that reads a sector into a buffer from its word `j` on, and the one that writes it.
  unfoldable pub receive_words : ℕ → ℕ → Buffer → Run H Buffer
  receive_words zero j buffer = pure buffer
  receive_words (suc k) j buffer = do
    v ← get_port_word m (port_address is_primary Disk.data_port)
    receive_words k (j + 1) (put_word buffer j v)

  unfoldable pub transmit_words : ℕ → ℕ → Buffer → Run H (Unit {0})
  transmit_words zero j buffer = pure tt
  transmit_words (suc k) j buffer = do
    set_port_word m (port_address is_primary Disk.data_port) (get_word buffer j)
    transmit_words k (j + 1) buffer

  -- The loop of `readSector` from the sector `i` on: what it returns, and the buffer.
  unfoldable pub receive_sectors : ℕ → ℕ → ℕ → Buffer → Run H (ℕ × Buffer)
  receive_sectors zero i count buffer = do release_lock m; pure (count, buffer)
  receive_sectors (suc k) i count buffer = do
    occurred ← wait_interrupt m rounds is_primary
    branch occurred
        (do
          clear_disk_interrupt_flag m rounds is_primary
          v ← get_port m (port_address is_primary Disk.status)
          branch (bit_of v status_err == 0)
              (do
                filled ← receive_words 256 (i * 256) buffer
                receive_sectors k (i + 1) count filled)
              (do release_lock m; pure (i, buffer)))
        (do release_lock m; pure (i, buffer))

  unfoldable pub read_sector : Bool → ℕ → ℕ → Buffer → Run H (ℕ × Buffer)
  read_sector is_master count lba buffer = do
    acquire_lock m
    sent ← send_disk_command is_master count lba command_read
    branch sent (receive_sectors (sector_rounds count) 0 count buffer)
        (do release_lock m; pure (0, buffer))

  unfoldable pub transmit_sectors : ℕ → ℕ → ℕ → Buffer → Run H ℕ
  transmit_sectors zero i count buffer = do release_lock m; pure count
  transmit_sectors (suc k) i count buffer = do
    clear_disk_interrupt_flag m rounds is_primary
    transmit_words 256 (i * 256) buffer
    occurred ← wait_interrupt m rounds is_primary
    branch occurred
        (do
          v ← get_port m (port_address is_primary Disk.status)
          branch (bit_of v status_err == 0) (transmit_sectors k (i + 1) count buffer)
              (do release_lock m; pure i))
        (do release_lock m; pure i)

  unfoldable pub write_sector : Bool → ℕ → ℕ → Buffer → Run H ℕ
  write_sector is_master count lba buffer = do
    acquire_lock m
    sent ← send_disk_command is_master count lba command_write
    branch sent
        (do
          requested ← wait_data_request m rounds is_primary
          branch requested (transmit_sectors (sector_rounds count) 0 count buffer)
              (do release_lock m; pure 0))
        (do release_lock m; pure 0)

-- `initDisk` behind the registration of the two handlers: whether the file system's disk answers. Without an answer,
-- it prints a message.
unfoldable pub init_disk : {H : Type 0} → Machine H → ℕ → Run H Bool
init_disk m rounds = do
  modify (λ s. record s {
    held = 0;
    is_primary_interrupt_occur = false;
    is_secondary_interrupt_occur = false;
  })
  set_port m (port_address true Disk.digital_output) 0
  set_port m (port_address false Disk.digital_output) 0
  read_information m rounds true false

-- `getTotalSector`: the words 60 and 61 of `disk`.
unfoldable pub get_total_sector : {H : Type 0} → Driver H → ℕ
get_total_sector s = s.information 60 + 2 ^ 16 * s.information 61
