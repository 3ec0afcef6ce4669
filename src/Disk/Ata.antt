-- ===== src/Disk/Ata.antt =====
-- kernel/drivers/Disk.c on a disk that keeps the ATA protocol: what a transfer does to its bytes.
pub mod Write
pub mod Device
use skhuos.Common.{
  ℕ, zero, suc, ◌+◌, ◌-◌, ◌*◌, ◌/◌, ◌%◌, ◌^◌, ◌<◌, ◌≤◌, ◌≡◌, refl, sym, ap, ◌∙◌, Bool, true, false,
  Option, none, some, ◌==◌, if◌then◌else◌, ◌&&◌, leb, ltb, arith,
}
use mathlib.Core.Path.{fun_ext}
use skhuos.Machine.{Machine}
use skhuos.Sectors.{Buffer, load, save}
use skhuos.Disk
use skhuos.Disk.{
  Driver, Run, pure, branch, ◌>>=◌, ◌>>◌, get_port, bit_of, status_err, access, settle,
  primary_disk_interrupt_handler, secondary_disk_interrupt_handler, acquire_lock, release_lock,
  port_address, command_read, command_write,
}
use skhuos.Pic.{send_eoi}
use skhuos.Disk.Wait.{
  poll, wait_status, wait_data_request, wait_interrupt, latched_counter, sleep_until_occur,
  clear_disk_interrupt_flag,
}
use skhuos.Disk.Transfer.{
  send_disk_command, receive_words, receive_sectors, transmit_words, transmit_sectors, read_sector,
  write_sector, drive_flag, get_word, put_word, sector_rounds, get_total_sector,
}

-- A disk on the primary channel: its bytes, the registers of the address, and the position of the next word.
pub record Drive : Type 0 where
  pub content : Buffer
  pub number : ℕ
  pub lsb : ℕ
  pub msb : ℕ
  pub head : ℕ
  pub cursor : ℕ

abbrev pub first_byte : Drive → ℕ
first_byte h = 512 * (h.number + 2 ^ 8 * h.lsb + 2 ^ 16 * h.msb + 2 ^ 24 * (h.head % 2 ^ 4))

abbrev set_register : ℕ → ℕ → Drive → Drive
set_register p v h =
    if p == 0x1f3
    then record h { number = v }
    else if p == 0x1f4
    then record h { lsb = v }
    else if p == 0x1f5
    then record h { msb = v }
    else if p == 0x1f6
    then record h { head = v }
    else if p == 0x1f7
    then record h { cursor = first_byte h }
    else h

abbrev pub store_word : Buffer → ℕ → ℕ × ℕ → Buffer
store_word bytes c v a = if a == c then v.0 else if a == c + 1 then v.1 else bytes a

-- The machine: the disk is ready with data, reports no error, and interrupts behind each access.
abbrev pub ata : Machine Drive
ata = record {
  get_port = λ p h. (if p == 0x1f7 then 0x48 else 0, h);
  set_port = set_register;
  get_port_word =
      λ p h. ((h.content h.cursor, h.content (h.cursor + 1)), record h { cursor = h.cursor + 2 });
  set_port_word =
      λ p v h. record h { content = store_word h.content h.cursor v; cursor = h.cursor + 2 };
  set_if = λ on h. (true, h);
  arrive = λ h. ((true, false), h);
  counter0_reload = 0x10000;
  get_tick_count = λ h. 0;
  get_running_process = λ h. 0;
  sleep_until_tick = λ t h. h;
  wakeup_process_in_interrupt = λ p h. h;
}

-- The driver at rest: nobody holds the mutex, and the interrupt controllers are initialised. `n` is the depth of the mutex.
abbrev pub driver : ℕ → (ℕ → ℕ) → (Bool → Option ℕ) → Bool → Bool → Drive → Driver Drive
driver n info waiter occur other h = record {
  held = n;
  information = info;
  is_primary_interrupt_occur = occur;
  is_secondary_interrupt_occur = other;
  disk_waiter = waiter;
  pic_state = true;
  machine = h;
}

-- The disk with the registers that a command for a sector leaves, and behind a number of bytes.
abbrev pub commanded : ℕ → Drive → Drive
commanded lba h = record {
  content = h.content;
  number = lba % 2 ^ 8;
  lsb = lba / 2 ^ 8 % 2 ^ 8;
  msb = lba / 2 ^ 16 % 2 ^ 8;
  head = 0xe0 + 0x10 + lba / 2 ^ 24 % 2 ^ 4;
  cursor =
      512
      * (lba % 2 ^ 8
          + 2 ^ 8 * (lba / 2 ^ 8 % 2 ^ 8)
          + 2 ^ 16 * (lba / 2 ^ 16 % 2 ^ 8)
          + 2 ^ 24 * ((0xe0 + 0x10 + lba / 2 ^ 24 % 2 ^ 4) % 2 ^ 4));
}

abbrev pub advanced : ℕ → Drive → Drive
advanced n h = record h { cursor = h.cursor + n }

-- The buffer that `k` words, or `k` sectors, are read to from the word `j` or the sector `i` on.
unfoldable pub fill_words : ℕ → ℕ → Buffer → Drive → Buffer
fill_words zero j b h = b
fill_words (suc k) j b h =
    fill_words k (j + 1) (put_word b j (h.content h.cursor, h.content (h.cursor + 1)))
      (advanced 2 h)

unfoldable pub fill_sectors : ℕ → ℕ → Buffer → Drive → Buffer
fill_sectors zero i b h = b
fill_sectors (suc k) i b h = fill_sectors k (i + 1) (fill_words 256 (i * 256) b h) (advanced 512 h)

fill_words_lem :
    (k j : ℕ) (b : Buffer) (h : Drive) (a : ℕ)
    → fill_words k j b h a
      ≡ (if leb (2 * j) a && ltb a (2 * (j + k)) then h.content (h.cursor + (a - 2 * j)) else b a)
unfolding fill_words
fill_words_lem zero j b h a = ground arith
fill_words_lem (suc k) j b h a =
    fill_words_lem k (j + 1) (put_word b j (h.content h.cursor, h.content (h.cursor + 1)))
      (advanced 2 h) a
    ∙ ground arith

pub fill_sectors_lem :
    (k i : ℕ) (b : Buffer) (h : Drive) (a : ℕ)
    → fill_sectors k i b h a ≡ (
        if leb (512 * i) a && ltb a (512 * (i + k))
        then h.content (h.cursor + (a - 512 * i))
        else b a)
unfolding fill_sectors
fill_sectors_lem zero i b h a = ground arith
fill_sectors_lem (suc k) i b h a =
    fill_sectors_lem k (i + 1) (fill_words 256 (i * 256) b h) (advanced 512 h) a
    ∙ ground (arith, fill_words_lem 256 (i * 256) b h a)

module _ (info : ℕ → ℕ) (waiter : Bool → Option ℕ) (other : Bool) where
  abbrev pub at : ℕ → Bool → Drive → Driver Drive
  at n occur h = driver n info waiter occur other h

  pub send_lem :
      (count lba c : ℕ) (occur : Bool) (h : Drive)
      → send_disk_command ata 1 true false count lba c (at 1 occur h)
        ≡ some (true, at 1 true (commanded lba h))
  unfolding send_disk_command wait_status latched_counter poll access settle
      primary_disk_interrupt_handler secondary_disk_interrupt_handler send_eoi port_address
      clear_disk_interrupt_flag drive_flag
  send_lem count lba c occur h = refl

  receive_lem :
      (k j n : ℕ) (b : Buffer) (h : Drive)
      → receive_words ata 1 true k j b (at n true h)
        ≡ some (fill_words k j b h, at n true (advanced (2 * k) h))
  unfolding receive_words access settle primary_disk_interrupt_handler
      secondary_disk_interrupt_handler send_eoi port_address fill_words
  receive_lem zero j n b h = ap (λ c. some (b, at n true (record h { cursor = c }))) (omega arith)
  receive_lem (suc k) j n b h =
      receive_lem k (j + 1) n (put_word b j (h.content h.cursor, h.content (h.cursor + 1)))
        (advanced 2 h)
      ∙ ap
          (λ c. some (
            fill_words k (j + 1) (put_word b j (h.content h.cursor, h.content (h.cursor + 1)))
                (advanced 2 h),
            at n true (record h { cursor = c }),
          ))
          (omega arith)

  pub sectors_lem :
      (k i count : ℕ) (b : Buffer) (h : Drive)
      → receive_sectors ata 1 true k i count b (at 1 true h)
        ≡ some ((count, fill_sectors k i b h), at 0 true (advanced (512 * k) h))
  unfolding receive_sectors wait_interrupt sleep_until_occur access settle
      primary_disk_interrupt_handler secondary_disk_interrupt_handler send_eoi port_address
      clear_disk_interrupt_flag release_lock fill_sectors
  sectors_lem zero i count b h =
      ap (λ c. some ((count, b), at 0 true (record h { cursor = c }))) (omega arith)
  sectors_lem (suc k) i count b h =
      ap
        (λ (o : Option (Buffer × Driver Drive)). elim o [
          | none ↦ none
          | some (filled, s) ↦ receive_sectors ata 1 true k (i + 1) count filled s
        ])
        (receive_lem 256 (i * 256) 1 b h)
      ∙ sectors_lem k (i + 1) count (fill_words 256 (i * 256) b h) (advanced 512 h)
      ∙ ap
          (λ c. some (
            (count, fill_sectors k (i + 1) (fill_words 256 (i * 256) b h) (advanced 512 h)),
            at 0 true (record h { cursor = c }),
          ))
          (omega arith)
