-- ===== src/Disk/Count.antt =====
-- kernel/drivers/Disk.c: reading and writing sectors returns, gives the mutex back on every path, and transfers as many sectors as it says.
use skhuos.Common.{
  ℕ, zero, suc, ◌+◌, ◌*◌, ◌^◌, ◌<◌, ◌≤◌, ◌≡◌, refl, ap, ◌∙◌, Bool, true, false, Option, none, some,
  ◌==◌, if◌then◌else◌, arith,
}
use skhuos.Machine.{Machine}
use skhuos.Sectors.{Buffer}
use skhuos.Disk.{
  Driver, Run, pure, gets, modify, branch, ◌>>=◌, ◌>>◌, access, settle, get_port, get_port_word,
  set_port, set_port_word, acquire_lock, release_lock, bit_of, status_err, port_address, data_port,
  command_read, command_write, command_drive_identify,
}
use skhuos.Disk
use skhuos.Disk.Wait.{
  wait_interrupt, wait_status, wait_no_busy, wait_ready, wait_data_request,
  clear_disk_interrupt_flag,
}
use skhuos.Disk.Keeps.{
  Keeps, held-settle, Keeps-wait_interrupt, Keeps-wait_status, Keeps-wait_data_request, Keeps-clear,
}
use skhuos.Disk.Transfer.{
  receive_words, transmit_words, receive_sectors, transmit_sectors, send_disk_command, read_words,
  read_information, read_sector, write_sector, sector_rounds, put_word, drive_flag,
}

-- A run returns, and what it returns, with the state behind it, has a property.
abbrev pub Ends : {H A : Type 0} → (A → Driver H → Type 0) → Option (A × Driver H) → Type 0
Ends P none = ⊥
Ends P (some (a, s)) = P a s

-- Polling for the status, for data and for an interrupt ends: the clock of PIT.c runs, so that a loop times out
-- within `rounds` rounds if the disk gives no answer.
pub record Prompt {H : Type 0} (m : Machine H) (rounds : ℕ) (is_primary : Bool) : Type 0 where
  pub idle_ends :
      (s : Driver H) → Ends (λ b s'. Unit {0}) (wait_status m rounds is_primary 0x80 0 s)
  pub ready_ends :
      (s : Driver H) → Ends (λ b s'. Unit {0}) (wait_status m rounds is_primary 0x40 0x40 s)
  pub request_ends :
      (s : Driver H) → Ends (λ b s'. Unit {0}) (wait_data_request m rounds is_primary s)
  pub interrupt_ends :
      (s : Driver H) → Ends (λ b s'. Unit {0}) (wait_interrupt m rounds is_primary s)

-- From a state in which the caller holds the mutex `h` times, a run returns a value with a property, in a
-- state in which the caller holds it `h'` times.
abbrev pub Runs : {H A : Type 0} → ℕ → Run H A → ℕ → (A → Type 0) → Type 0
Runs {H} {A} h r h' V = (s : Driver H) → s.held ≡ h → Ends (λ a s'. (s'.held ≡ h') × V a) (r s)

abbrev Anything : {A : Type 0} → A → Type 0
Anything a = Unit {0}

Runs-bind :
    {H A B : Type 0} (h h₁ h₂ : ℕ) (V : A → Type 0) (W : B → Type 0) (r : Run H A) (f : A → Run H B)
    → Runs h r h₁ V
    → ((a : A) → V a → Runs h₁ (f a) h₂ W)
    → Runs h (r >>= f) h₂ W
Runs-bind h h₁ h₂ V W r f x y s own = go h₁ h₂ V W f (r s) (x s own) y
  where
    go :
        {H A B : Type 0} (h₁ h₂ : ℕ) (V : A → Type 0) (W : B → Type 0) (f : A → Run H B)
        (o : Option (A × Driver H))
        → Ends (λ a s'. (s'.held ≡ h₁) × V a) o
        → ((a : A) → V a → Runs h₁ (f a) h₂ W)
        → Ends (λ b s'. (s'.held ≡ h₂) × W b) (elim o [ none ↦ none | some (a, s') ↦ f a s' ])
    go h₁ h₂ V W f none e y = e
    go h₁ h₂ V W f (some (a, s')) (e, v) y = y a v s' e

Runs-branch :
    {H A : Type 0} (h h' : ℕ) (V : A → Type 0) (b : Bool) (p q : Run H A)
    → Runs h p h' V
    → Runs h q h' V
    → Runs h (branch b p q) h' V
Runs-branch h h' V true p q x y = x
Runs-branch h h' V false p q x y = y

Runs-pure : {H A : Type 0} (h : ℕ) (V : A → Type 0) (a : A) → V a → Runs {H = H} h (pure a) h V
Runs-pure h V a v s own = (own, v)

Ends-Keeps :
    {H A : Type 0} (o : Option (A × Driver H)) (h : ℕ)
    → ((a : A) (s' : Driver H) → o ≡ some (a, s') → s'.held ≡ h)
    → Ends (λ a s'. Unit {0}) o
    → Ends (λ a s'. (s'.held ≡ h) × Anything a) o
Ends-Keeps none h k e = e
Ends-Keeps (some (a, s')) h k e = (k a s' refl, tt)

-- What keeps the mutex and returns.
Runs-Keeps :
    {H A : Type 0} (h : ℕ) (r : Run H A)
    → Keeps r
    → ((s : Driver H) → Ends (λ a s'. Unit {0}) (r s))
    → Runs h r h Anything
Runs-Keeps h r k e s own = Ends-Keeps (r s) h (λ a s' x. k s a s' x ∙ own) (e s)

module _ {H : Type 0} (m : Machine H) where
  Runs-access : {A : Type 0} (h : ℕ) (f : H → A × H) → Runs h (access m f) h Anything
  unfolding access
  Runs-access h f s own =
      let (a, x) = f s.machine in (held-settle m (record s { machine = x }) ∙ own, tt)

  Runs-acquire : (h : ℕ) → Runs h (acquire_lock m) (h + 1) Anything
  unfolding acquire_lock
  Runs-acquire h s own = (held-settle m (record s { held = s.held + 1 }) ∙ ap (λ n. n + 1) own, tt)

  -- `releaseLock` and `return`.
  Runs-return :
      {A : Type 0} (h : ℕ) (V : A → Type 0) (a : A)
      → V a
      → Runs (h + 1) (release_lock m >> pure a) h V
  unfolding release_lock
  Runs-return h V a v s own = (omega arith, v)

module _ {H : Type 0} {m : Machine H} {rounds : ℕ} {is_primary : Bool}
    (p : Prompt m rounds is_primary) (h : ℕ) where
  wait_no_busy-Runs : Runs h (wait_no_busy m rounds is_primary) h Anything
  wait_no_busy-Runs =
      Runs-Keeps h (wait_no_busy m rounds is_primary) (Keeps-wait_status m rounds is_primary 0x80 0)
        p.idle_ends

  wait_ready-Runs : Runs h (wait_ready m rounds is_primary) h Anything
  wait_ready-Runs =
      Runs-Keeps h (wait_ready m rounds is_primary)
        (Keeps-wait_status m rounds is_primary 0x40 0x40) p.ready_ends

  wait_data_request-Runs : Runs h (wait_data_request m rounds is_primary) h Anything
  wait_data_request-Runs =
      Runs-Keeps h (wait_data_request m rounds is_primary)
        (Keeps-wait_data_request m rounds is_primary) p.request_ends

  wait_interrupt-Runs : Runs h (wait_interrupt m rounds is_primary) h Anything
  wait_interrupt-Runs =
      Runs-Keeps h (wait_interrupt m rounds is_primary) (Keeps-wait_interrupt m rounds is_primary)
        p.interrupt_ends

  clear-Runs : Runs h (clear_disk_interrupt_flag m rounds is_primary) h Anything
  unfolding clear_disk_interrupt_flag
  clear-Runs s own = (Keeps-clear m rounds is_primary s tt _ refl ∙ own, tt)

  -- A buffer that is another one from an address on.
  abbrev Same : ℕ → Buffer → Buffer → Type 0
  Same from b c = (a : ℕ) → from ≤ a → c a ≡ b a

  receive_words-Runs :
      (k j limit : ℕ) (b c : Buffer)
      → 2 * (j + k) ≤ limit
      → Same limit b c
      → Runs h (receive_words m rounds is_primary k j c) h (Same limit b)
  unfolding receive_words
  receive_words-Runs zero j limit b c inside kept = Runs-pure h (Same limit b) c kept
  receive_words-Runs (suc k) j limit b c inside kept =
      Runs-bind h h h Anything (Same limit b) _ _
        (Runs-access m h (m.get_port_word (port_address is_primary data_port)))
        (λ v u.
          receive_words-Runs k (j + 1) limit b (put_word c j v) (omega arith)
            (λ a l. ground (arith, kept a l)))

  transmit_words-Runs :
      (k j : ℕ) (b : Buffer) → Runs h (transmit_words m rounds is_primary k j b) h Anything
  unfolding transmit_words
  transmit_words-Runs zero j b = Runs-pure h Anything tt tt
  transmit_words-Runs (suc k) j b =
      Runs-bind h h h Anything Anything _ _ (Runs-access m h _)
        (λ v u. transmit_words-Runs k (j + 1) b)

  abbrev pub AtMost : ℕ → ℕ → Type 0
  AtMost count n = n ≤ count

  -- What `readSector` gives back: no more sectors than asked for, and nothing written behind them.
  abbrev pub Received : ℕ → Buffer → ℕ × Buffer → Type 0
  Received count b (n, c) = (n ≤ count) × ((a : ℕ) → 512 * n ≤ a → c a ≡ b a)

  accessed :
      (f : H → Unit {0} × H) (k : Run H Bool)
      → Runs h k h Anything
      → Runs h (access m f >> k) h Anything
  accessed f k x = Runs-bind h h h Anything Anything (access m f) _ (Runs-access m h f) (λ v u. x)

  send_disk_command-Runs :
      (is_master : Bool) (count lba command : ℕ)
      → Runs h (send_disk_command m rounds is_primary is_master count lba command) h Anything
  unfolding send_disk_command
  send_disk_command-Runs is_master count lba command =
      Runs-bind h h h Anything Anything _ _ wait_no_busy-Runs (λ idle u.
        Runs-branch h h Anything idle _ _
          (accessed _ _ (
            accessed _ _ (
              accessed _ _ (
                accessed _ _ (
                  accessed _ _ (
                    Runs-bind h h h Anything Anything _ _ wait_ready-Runs (λ ready v.
                      Runs-branch h h Anything ready _ _
                        (Runs-bind h h h Anything Anything
                          (clear_disk_interrupt_flag m rounds is_primary) _ clear-Runs
                          (λ x y. accessed _ _ (Runs-pure h Anything true tt)))
                        (Runs-pure h Anything false tt))))))))
          (Runs-pure h Anything false tt))

module _ {H : Type 0} {m : Machine H} {rounds : ℕ} {is_primary : Bool}
    (p : Prompt m rounds is_primary) where
  receive_sectors-Runs :
      (k i count : ℕ) (b c : Buffer) (h : ℕ)
      → i + k ≡ count
      → Same p h (512 * i) b c
      → Runs (h + 1) (receive_sectors m rounds is_primary k i count c) h (Received p h count b)
  unfolding receive_sectors
  receive_sectors-Runs zero i count b c h at kept =
      Runs-return m h (Received p h count b) (count, c) (omega arith, λ a l. kept a (omega arith))
  receive_sectors-Runs (suc k) i count b c h at kept =
      let g = h + 1 in
      let V = Received p h count b in
      let back = Runs-return m h V (i, c) (omega arith, kept) in
      Runs-bind g g h Anything V _ _ (wait_interrupt-Runs p g) (λ occurred u.
        Runs-branch g h V occurred _ _
          (Runs-bind g g h Anything V _ _ (clear-Runs p g) (λ x y.
            Runs-bind g g h Anything V _ _ (Runs-access m g _) (λ v w.
              Runs-branch g h V (bit_of v status_err == 0) _ _
                (Runs-bind g g h (Same p g (512 * (i + 1)) b) V _ _
                  (receive_words-Runs p g 256 (i * 256) (512 * (i + 1)) b c (omega arith)
                    (λ a l. kept a (omega arith)))
                  (λ d kept'. receive_sectors-Runs k (i + 1) count b d h (omega arith) kept'))
                back)))
          back)

  transmit_sectors-Runs :
      (k i count : ℕ) (b : Buffer) (h : ℕ)
      → i + k ≡ count
      → Runs (h + 1) (transmit_sectors m rounds is_primary k i count b) h (AtMost p h count)
  unfolding transmit_sectors
  transmit_sectors-Runs zero i count b h at = Runs-return m h (AtMost p h count) count (omega arith)
  transmit_sectors-Runs (suc k) i count b h at =
      let g = h + 1 in
      let V = AtMost p h count in
      let back = Runs-return m h V i (omega arith) in
      Runs-bind g g h Anything V _ _ (clear-Runs p g) (λ x y.
        Runs-bind g g h Anything V _ _ (transmit_words-Runs p g 256 (i * 256) b) (λ z w.
          Runs-bind g g h Anything V _ _ (wait_interrupt-Runs p g) (λ occurred u.
            Runs-branch g h V occurred _ _
              (Runs-bind g g h Anything V _ _ (Runs-access m g _) (λ v q.
                Runs-branch g h V (bit_of v status_err == 0) _ _
                  (transmit_sectors-Runs k (i + 1) count b h (omega arith)) back))
              back)))

  -- `readSector` of fewer than 128 sectors, on a machine on which polling ends, returns: it reports at most as
  -- many sectors as asked for, leaves the buffer behind these as it was, and gives the mutex back as the
  -- caller held it, whether or not the disk fails.
  pub read_sector-Runs :
      (is_master : Bool) (count lba : ℕ) (buffer : Buffer) (h : ℕ)
      → count < 128
      → Runs h
          (read_sector m rounds is_primary is_master count lba buffer)
          h
          (Received p h count buffer)
  unfolding read_sector
  read_sector-Runs is_master count lba buffer h few =
      let g = h + 1 in
      let V = Received p h count buffer in
      Runs-bind h g h Anything V (acquire_lock m) _ (Runs-acquire m h) (λ u v.
        Runs-bind g g h Anything V _ _ (send_disk_command-Runs p g is_master count lba command_read)
          (λ sent w.
            Runs-branch g h V sent _ _
              (receive_sectors-Runs (sector_rounds count) 0 count buffer buffer h (ground arith)
                (λ a l. refl))
              (Runs-return m h V (0, buffer) (omega arith, λ a l. refl))))

  -- `writeSector` of fewer than 128 sectors, on a machine on which polling ends, returns: it reports at most as
  -- many sectors as asked for, and gives the mutex back as the caller held it, whether or not the disk fails.
  write_sector-Runs :
      (is_master : Bool) (count lba : ℕ) (buffer : Buffer) (h : ℕ)
      → count < 128
      → Runs h (write_sector m rounds is_primary is_master count lba buffer) h (AtMost p h count)
  unfolding write_sector
  write_sector-Runs is_master count lba buffer h few =
      let g = h + 1 in
      let V = AtMost p h count in
      Runs-bind h g h Anything V (acquire_lock m) _ (Runs-acquire m h) (λ u v.
        Runs-bind g g h Anything V _ _
          (send_disk_command-Runs p g is_master count lba command_write)
          (λ sent w.
            Runs-branch g h V sent _ _
              (Runs-bind g g h Anything V _ _ (wait_data_request-Runs p g) (λ requested x.
                Runs-branch g h V requested _ _
                  (transmit_sectors-Runs (sector_rounds count) 0 count buffer h (ground arith))
                  (Runs-return m h V 0 (omega arith))))
              (Runs-return m h V 0 (omega arith))))

  read_words-Runs : (k i h : ℕ) → Runs h (read_words m rounds is_primary k i) h Anything
  unfolding read_words
  read_words-Runs zero i h = Runs-pure h Anything tt tt
  read_words-Runs (suc k) i h =
      Runs-bind h h h Anything Anything _ _
        (Runs-access m h (m.get_port_word (port_address is_primary data_port)))
        (λ v u.
          Runs-bind h h h Anything Anything
            (modify (λ s. record s {
              information = λ j. if j == i then v.0 + 2 ^ 8 * v.1 else s.information j;
            }))
            _ (λ s own. (own, tt)) (λ x y. read_words-Runs k (i + 1) h))

  -- `readInformation`, on a machine on which polling ends, returns, and gives the mutex back as the caller held
  -- it, whether or not the disk fails.
  read_information-Runs :
      (is_master : Bool) (h : ℕ)
      → Runs h (read_information m rounds is_primary is_master) h Anything
  unfolding read_information
  read_information-Runs is_master h =
      let g = h + 1 in
      let back : (b : Bool) → Runs g (release_lock m >> pure b) h Anything =
        λ b. Runs-return m h Anything b tt in
      Runs-bind h g h Anything Anything (acquire_lock m) _ (Runs-acquire m h) (λ u v.
        Runs-bind g g h Anything Anything _ _ (wait_no_busy-Runs p g) (λ idle w.
          Runs-branch g h Anything idle _ _
            (Runs-bind g g h Anything Anything _ _
              (Runs-access m g (λ x. (
                tt,
                m.set_port (port_address is_primary Disk.drive_and_header) (drive_flag is_master) x,
              )))
              (λ a b. Runs-bind g g h Anything Anything _ _ (wait_ready-Runs p g) (λ ready c.
                Runs-branch g h Anything ready _ _
                  (Runs-bind g g h Anything Anything (clear_disk_interrupt_flag m rounds is_primary)
                    _ (clear-Runs p g)
                    (λ d e.
                      Runs-bind g g h Anything Anything _ _
                        (Runs-access m g (λ x. (
                          tt,
                          m.set_port (port_address is_primary Disk.command) command_drive_identify
                              x,
                        )))
                        (λ i j.
                          Runs-bind g g h Anything Anything _ _ (wait_data_request-Runs p g)
                            (λ requested k.
                              Runs-branch g h Anything requested _ _
                                (Runs-bind g g h Anything Anything _ _ (read_words-Runs 256 0 g)
                                  (λ x y. back true))
                                (back false)))))
                  (back false))))
            (back false)))
