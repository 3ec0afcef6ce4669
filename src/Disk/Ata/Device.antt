-- ===== src/Disk/Ata/Device.antt =====
-- kernel/drivers/Disk.c on a disk that keeps the ATA protocol: it is the device that kernel/fs/FAT.c needs.
use skhuos.Common.{
  ℕ, ◌*◌, ◌^◌, ◌<◌, ◌≤◌, ◌≡◌, refl, ap, ◌∙◌, Bool, true, false, Option, none, some, arith,
}
use mathlib.Core.Path.{fun_ext}
use skhuos.Sectors.{Buffer, load, save, Device, Works}
use skhuos.Disk.{
  Driver, Run, pure, branch, ◌>>=◌, ◌>>◌, access, settle, primary_disk_interrupt_handler,
  secondary_disk_interrupt_handler, acquire_lock, release_lock, port_address, command_read,
  command_write,
}
use skhuos.Pic.{send_eoi}
use skhuos.Disk.Wait.{poll, wait_data_request, latched_counter}
use skhuos.Disk.Transfer.{
  receive_sectors, transmit_sectors, read_sector, write_sector, sector_rounds, get_total_sector,
}
use skhuos.Disk.Ata.{
  Drive, ata, driver, commanded, advanced, fill_sectors, fill_sectors_lem, send_lem, sectors_lem,
}
use skhuos.Disk.Ata.Write.{stores, stores_lem, transmitted, writes_lem}

module _ (info : ℕ → ℕ) (waiter : Bool → Option ℕ) (other : Bool) where
  abbrev at : ℕ → Bool → Drive → Driver Drive
  at n occur h = driver n info waiter occur other h

  read_lem :
      (n lba : ℕ) (b : Buffer) (occur : Bool) (h : Drive)
      → read_sector ata 1 true false n lba b (at 0 occur h)
        ≡ some (
          (n, fill_sectors (sector_rounds n) 0 b (commanded lba h)),
          at 0 true (advanced (512 * sector_rounds n) (commanded lba h)),
        )
  unfolding read_sector acquire_lock settle primary_disk_interrupt_handler
      secondary_disk_interrupt_handler send_eoi
  read_lem n lba b occur h =
      ap
        (λ (o : Option (Bool × Driver Drive)). elim o [
          | none ↦ none
          | some (sent, s) ↦
              branch sent (receive_sectors ata 1 true (sector_rounds n) 0 n b)
                (do release_lock ata; pure (0, b)) s
        ])
        (send_lem info waiter other n lba command_read true h)
      ∙ sectors_lem info waiter other (sector_rounds n) 0 n b (commanded lba h)

  -- What `writeSector` does behind its command.
  abbrev behind_command : ℕ → Buffer → Bool → Run Drive ℕ
  behind_command n b sent =
      branch sent
        (do
          requested ← wait_data_request ata 1 true
          branch requested (transmit_sectors ata 1 true (sector_rounds n) 0 n b)
              (do release_lock ata; pure 0))
        (do release_lock ata; pure 0)

  requested :
      (n : ℕ) (b : Buffer) (h : Drive)
      → behind_command n b true (at 1 true h)
        ≡ transmit_sectors ata 1 true (sector_rounds n) 0 n b (at 1 true h)
  unfolding wait_data_request latched_counter poll access settle primary_disk_interrupt_handler
      secondary_disk_interrupt_handler send_eoi port_address
  requested n b h = refl

  write_lem :
      (n lba : ℕ) (b : Buffer) (occur : Bool) (h : Drive)
      → write_sector ata 1 true false n lba b (at 0 occur h)
        ≡ some (n, at 0 true (transmitted (sector_rounds n) 0 b (commanded lba h)))
  unfolding write_sector acquire_lock settle primary_disk_interrupt_handler
      secondary_disk_interrupt_handler send_eoi
  write_lem n lba b occur h =
      ap
        (λ (o : Option (Bool × Driver Drive)). elim o [
          | none ↦ none
          | some (sent, s) ↦ behind_command n b sent s
        ])
        (send_lem info waiter other n lba command_write true h)
      ∙ requested n b (commanded lba h)
      ∙ writes_lem info waiter other (sector_rounds n) 0 n b (commanded lba h)

-- The driver with its mutex free, behind `initializePIC`.
abbrev ready : Driver Drive → Driver Drive
ready s = record s { held = 0; pic_state = true }

-- `readSector` and `writeSector` as `FAT.c` calls them, on the slave of the primary channel.
unfoldable pub device : Device (Driver Drive)
device = record {
  read_sector = λ n lba b s. elim (read_sector ata 1 true false n lba b (ready s)) [
    | none ↦ (0, b, s)
    | some ((count, b'), s') ↦ (count, b', s')
  ];
  write_sector = λ n lba b s. elim (write_sector ata 1 true false n lba b (ready s)) [
    | none ↦ (0, s)
    | some (count, s') ↦ (count, s')
  ];
  total_sector = get_total_sector;
}

cursor_lem : (lba : ℕ) (h : Drive) → lba < 2 ^ 28 → (commanded lba h).cursor ≡ 512 * lba
cursor_lem lba h p = omega arith

rounds_lem : (n : ℕ) → n ≤ 8 → sector_rounds n ≡ n
rounds_lem n p = ground arith

read_device :
    (n lba : ℕ) (b : Buffer) (s : Driver Drive)
    → let h = s.machine in
      device.read_sector n lba b s ≡ (
        n,
        fill_sectors (sector_rounds n) 0 b (commanded lba h),
        driver 0 s.information s.disk_waiter true s.is_secondary_interrupt_occur
            (advanced (512 * sector_rounds n) (commanded lba h)),
      )
unfolding device
read_device n lba b s =
    ap
      (λ (o : Option ((ℕ × Buffer) × Driver Drive)). elim o [
        | none ↦ (0, b, s)
        | some ((count, b'), s') ↦ (count, b', s')
      ])
      (read_lem s.information s.disk_waiter s.is_secondary_interrupt_occur n lba b
        s.is_primary_interrupt_occur s.machine)

write_device :
    (n lba : ℕ) (b : Buffer) (s : Driver Drive)
    → let h = s.machine in
      device.write_sector n lba b s ≡ (
        n,
        driver 0 s.information s.disk_waiter true s.is_secondary_interrupt_occur
            (transmitted (sector_rounds n) 0 b (commanded lba h)),
      )
unfolding device
write_device n lba b s =
    ap
      (λ (o : Option (ℕ × Driver Drive)). elim o [ none ↦ (0, s) | some (count, s') ↦ (count, s') ])
      (write_lem s.information s.disk_waiter s.is_secondary_interrupt_occur n lba b
        s.is_primary_interrupt_occur s.machine)

read_load :
    (n lba : ℕ) (b : Buffer) (h : Drive)
    → n ≤ 8
    → lba < 2 ^ 28
    → fill_sectors (sector_rounds n) 0 b (commanded lba h) ≡ load h.content (512 * lba) (512 * n) b
read_load n lba b h p q =
    ap (λ k. fill_sectors k 0 b (commanded lba h)) (rounds_lem n p)
    ∙ fun_ext (λ a.
      let at : (commanded lba h).cursor ≡ 512 * lba = cursor_lem lba h q in
      fill_sectors_lem n 0 b (commanded lba h) a ∙ ground (arith, at))

write_save :
    (n lba : ℕ) (b : Buffer) (h : Drive)
    → n ≤ 8
    → lba < 2 ^ 28
    → (transmitted (sector_rounds n) 0 b (commanded lba h)).content
      ≡ save h.content (512 * lba) (512 * n) b
write_save n lba b h p q =
    ap (λ k. stores k 0 b (commanded lba h).cursor h.content) (rounds_lem n p)
    ∙ ap (λ c. stores n 0 b c h.content) (cursor_lem lba h q)
    ∙ fun_ext (λ a. stores_lem n 0 b (512 * lba) h.content a ∙ ground arith)

pub device-Works : Works device (λ s. s.machine.content)
unfolding device get_total_sector
device-Works = record {
  read_count = λ n lba b s p q r. ap (λ o. o.0) (read_device n lba b s);
  read_bytes = λ n lba b s p q r.
      ap (λ o. o.1) (read_device n lba b s) ∙ read_load n lba b s.machine q (omega arith);
  read_keeps = λ n lba b s. ap (λ o. o.2.machine.content) (read_device n lba b s);
  write_count = λ n lba b s p q r. ap (λ o. o.0) (write_device n lba b s);
  write_bytes = λ n lba b s p q r.
      ap (λ o. o.1.machine.content) (write_device n lba b s)
      ∙ write_save n lba b s.machine q (omega arith);
  total_keeps = λ n lba b s. ap (λ o. get_total_sector o.1) (write_device n lba b s);
}
