-- ===== src/Disk/Ata/Write.antt =====
-- kernel/drivers/Disk.c: a write on a disk that keeps the ATA protocol.
use skhuos.Common.{
  ℕ, zero, suc, ◌+◌, ◌-◌, ◌*◌, ◌≡◌, refl, ap, ◌∙◌, Bool, true, false, Option, none, some, ◌==◌,
  if◌then◌else◌, ◌&&◌, leb, ltb, arith,
}
use skhuos.Sectors.{Buffer}
use skhuos.Disk
use skhuos.Disk.{
  Driver, Run, pure, branch, ◌>>=◌, ◌>>◌, get_port, bit_of, status_err, access, settle,
  primary_disk_interrupt_handler, secondary_disk_interrupt_handler, acquire_lock, release_lock,
  port_address, command_read, command_write,
}
use skhuos.Pic.{send_eoi}
use skhuos.Disk.Wait.{wait_interrupt, sleep_until_occur, clear_disk_interrupt_flag}
use skhuos.Disk.Transfer.{transmit_words, transmit_sectors, get_word}
use skhuos.Disk.Ata.{Drive, ata, driver, store_word}

-- The store behind a write of `k` words from the word `j` of a buffer on.
stored : ℕ → ℕ → Buffer → ℕ → Buffer → Buffer
stored zero j b c bytes = bytes
stored (suc k) j b c bytes = stored k (j + 1) b (c + 2) (store_word bytes c (get_word b j))

stored_lem :
    (k j : ℕ) (b : Buffer) (c : ℕ) (bytes : Buffer) (a : ℕ)
    → stored k j b c bytes a
      ≡ (if leb c a && ltb a (c + 2 * k) then b (2 * j + (a - c)) else bytes a)
unfolding stored
stored_lem zero j b c bytes a = ground arith
stored_lem (suc k) j b c bytes a =
    stored_lem k (j + 1) b (c + 2) (store_word bytes c (get_word b j)) a ∙ ground arith

pub stores : ℕ → ℕ → Buffer → ℕ → Buffer → Buffer
stores zero i b c bytes = bytes
stores (suc k) i b c bytes = stores k (i + 1) b (c + 512) (stored 256 (i * 256) b c bytes)

pub stores_lem :
    (k i : ℕ) (b : Buffer) (c : ℕ) (bytes : Buffer) (a : ℕ)
    → stores k i b c bytes a
      ≡ (if leb c a && ltb a (c + 512 * k) then b (512 * i + (a - c)) else bytes a)
unfolding stores
stores_lem zero i b c bytes a = ground arith
stores_lem (suc k) i b c bytes a =
    stores_lem k (i + 1) b (c + 512) (stored 256 (i * 256) b c bytes) a
    ∙ ground (arith, stored_lem 256 (i * 256) b c bytes a)

-- The disk behind a write of `k` sectors from the sector `i` of a buffer on.
abbrev pub transmitted : (k i : ℕ) → (b : Buffer) → Drive → Drive
transmitted k i b h = record h {
  content = stores k i b h.cursor h.content;
  cursor = h.cursor + 512 * k;
}

module _ (info : ℕ → ℕ) (waiter : Bool → Option ℕ) (other : Bool) where
  abbrev at : ℕ → Bool → Drive → Driver Drive
  at n occur h = driver n info waiter occur other h

  abbrev written : ℕ → ℕ → Buffer → Drive → Drive
  written k j b h = record h {
    content = stored k j b h.cursor h.content;
    cursor = h.cursor + 2 * k;
  }

  transmit_lem :
      (k j n : ℕ) (b : Buffer) (h : Drive)
      → transmit_words ata 1 true k j b (at n true h) ≡ some (tt, at n true (written k j b h))
  unfolding transmit_words access settle primary_disk_interrupt_handler
      secondary_disk_interrupt_handler send_eoi port_address stored
  transmit_lem zero j n b h = ap (λ c. some (tt, at n true (record h { cursor = c }))) (omega arith)
  transmit_lem (suc k) j n b h =
      let h₁ = record h {
        content = store_word h.content h.cursor (get_word b j);
        cursor = h.cursor + 2;
      } in
      transmit_lem k (j + 1) n b h₁
      ∙ ap
          (λ c. some (
            tt,
            at n true
                (record h { content = stored k (j + 1) b (h.cursor + 2) h₁.content; cursor = c }),
          ))
          (omega arith)

  transmit_first :
      (k j n : ℕ) (b : Buffer) (h : Drive)
      → transmit_words ata 1 true (suc k) j b (at n false h)
        ≡ transmit_words ata 1 true (suc k) j b (at n true h)
  unfolding transmit_words access settle primary_disk_interrupt_handler
      secondary_disk_interrupt_handler send_eoi port_address
  transmit_first k j n b h = refl

  -- What `writeSector` does behind the words of a sector.
  abbrev behind_words : ℕ → ℕ → ℕ → Buffer → Run Drive ℕ
  behind_words k i count b = do
    occurred ← wait_interrupt ata 1 true
    branch occurred
        (do
          v ← get_port ata (port_address true Disk.status)
          branch (bit_of v status_err == 0) (transmit_sectors ata 1 true k (i + 1) count b)
              (do release_lock ata; pure i))
        (do release_lock ata; pure i)

  pub writes_lem :
      (k i count : ℕ) (b : Buffer) (h : Drive)
      → transmit_sectors ata 1 true k i count b (at 1 true h)
        ≡ some (count, at 0 true (transmitted k i b h))
  unfolding transmit_sectors wait_interrupt sleep_until_occur access settle
      primary_disk_interrupt_handler secondary_disk_interrupt_handler send_eoi port_address
      clear_disk_interrupt_flag release_lock stores
  writes_lem zero i count b h =
      ap (λ c. some (count, at 0 true (record h { cursor = c }))) (omega arith)
  writes_lem (suc k) i count b h =
      let h₁ = written 256 (i * 256) b h in
      ap
        (λ (o : Option (Unit {0} × Driver Drive)). elim o [
          | none ↦ none
          | some (u, s) ↦ behind_words k i count b s
        ])
        (transmit_first 255 (i * 256) 1 b h ∙ transmit_lem 256 (i * 256) 1 b h)
      ∙ writes_lem k (i + 1) count b h₁
      ∙ ap
          (λ c. some (
            count,
            at 0 true
                (record h { content = stores k (i + 1) b (h.cursor + 512) h₁.content; cursor = c }),
          ))
          (omega arith)
