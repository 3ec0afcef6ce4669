-- ===== src/Fat/Io.antt =====
-- kernel/fs/FAT.c: what reading and writing a cluster does on a disk that works, and how a directory is read.
use skhuos.Common.{
  ℕ, zero, suc, ◌+◌, ◌*◌, ◌^◌, ◌<◌, ◌≤◌, ◌≡◌, ◌≢◌, inl, inr, refl, sym, ◌∙◌, Bool, true, false, not,
  ◌&&◌, none, some, List, ◌==◌, if◌then◌else◌, length, arith, Bool-cases,
}
use mathlib.Core.Path.{ap₂}
use skhuos.CString.Compare.{IsText, same, same-window, strcmp_lem}
use skhuos.Sectors.{Buffer, get_dword, load, save, Device, Works}
use skhuos.Fat.{
  Fs, read_cluster, read_cluster_to, write_cluster, sector_of, cluster_of, has_name, is_file,
  first_from,
}

-- The bytes of two buffers agree on a cluster.
abbrev pub Agree : Buffer → Buffer → Type 0
Agree b c = (j : ℕ) → j < 4096 → b j ≡ c j

pub get_dword-Agree :
    (b c : Buffer) (o : ℕ) → o + 3 < 4096 → Agree b c → get_dword b o ≡ get_dword c o
get_dword-Agree b c o h e = omega (
  arith,
  e o (omega arith),
  e (o + 1) (omega arith),
  e (o + 2) (omega arith),
  e (o + 3) (omega arith),
)

pub has_name_lem :
    (b : Buffer) (name : List ℕ) (i : ℕ)
    → IsText name
    → has_name b name i ≡ same (λ j. b (32 * i + j)) name
unfolding has_name
has_name_lem b name i t = strcmp_lem (λ j. b (32 * i + j)) name t

pub has_name-Agree :
    (b c : Buffer) (name : List ℕ) (i : ℕ)
    → IsText name
    → length name ≤ 23
    → i < 128
    → ((j : ℕ) → 32 * i ≤ j → j < 32 * i + 24 → b j ≡ c j)
    → has_name b name i ≡ has_name c name i
has_name-Agree b c name i t l h e =
    has_name_lem b name i t
    ∙ same-window (λ j. b (32 * i + j)) (λ j. c (32 * i + j)) name
        (λ j k. e (32 * i + j) (omega arith) (omega arith))
    ∙ sym (has_name_lem c name i t)

pub is_file-Agree :
    (b c : Buffer) (name : List ℕ) (i : ℕ)
    → IsText name
    → length name ≤ 23
    → i < 128
    → ((j : ℕ) → 32 * i ≤ j → j < 32 * i + 24 → b j ≡ c j)
    → cluster_of b i ≡ cluster_of c i
    → is_file b name i ≡ is_file c name i
unfolding is_file
is_file-Agree b c name i t l h e k =
    ap₂ (λ x y. not (x == 0) && y) k (has_name-Agree b c name i t l h e)

pub first_from-same :
    (p q : ℕ → Bool) (i n : ℕ)
    → ((j : ℕ) → i ≤ j → j < i + n → p j ≡ q j)
    → first_from p i n ≡ first_from q i n
unfolding first_from
first_from-same p q i zero h = refl
first_from-same p q i (suc n) h =
    ap₂ (λ t r. if t then some i else r) (h i (omega arith) (omega arith))
      (first_from-same p q (i + 1) n (λ j a b. h j (omega arith) (omega arith)))

-- The index that a search gives passes the test, and none before it does.
pub first_from-some :
    (p : ℕ → Bool) (i n k : ℕ) → first_from p i n ≡ some k → (i ≤ k) × (k < i + n) × (p k ≡ true)
unfolding first_from
first_from-some p i zero k e = absurd (ground arith)
first_from-some p i (suc n) k e = elim (Bool-cases (p i)) [
  | inl y ↦ let at : i ≡ k = ground arith in (omega arith, omega arith, rw (← at) y)
  | inr m ↦ let r = first_from-some p (i + 1) n k (ground arith) in (omega arith, omega arith, r.2)
]

pub first_from-none :
    (p : ℕ → Bool) (i n : ℕ) → ((j : ℕ) → i ≤ j → j < i + n → p j ≡ false) → first_from p i n ≡ none
unfolding first_from
first_from-none p i zero h = refl
first_from-none p i (suc n) h =
    rw (h i (omega arith) (omega arith))
      (first_from-none p (i + 1) n (λ j a b. h j (omega arith) (omega arith)))

-- If just one index passes, it is found.
pub first_from-only :
    (p : ℕ → Bool) (i n k : ℕ)
    → i ≤ k
    → k < i + n
    → p k ≡ true
    → ((j : ℕ) → i ≤ j → j < i + n → p j ≡ true → j ≡ k)
    → first_from p i n ≡ some k
unfolding first_from
first_from-only p i zero k a b y u = absurd (omega arith)
first_from-only p i (suc n) k a b y u = elim (Bool-cases (p i)) [
  | inl t ↦ let at = u i (omega arith) (omega arith) t in rw (t, at) refl
  | inr f ↦
      let ne : i ≢ k = λ e. ground arith in
      rw f (
        first_from-only p (i + 1) n k (omega (arith, ne)) (omega arith) y
          (λ j c d t. u j (omega arith) (omega arith) t))
]

-- The byte of the disk at which a cluster begins, and the clusters whose sectors have addresses.
abbrev pub start : {D : Type 0} → Fs D → ℕ → ℕ
start s c = 512 * (s.fat_infor.data_address + c * 8)

abbrev pub InRange : {D : Type 0} → Fs D → ℕ → Type 0
InRange s c = s.fat_infor.data_address + c * 8 + 8 ≤ 2 ^ 28

sector_of_lem :
    {D : Type 0} (s : Fs D) (c : ℕ) → InRange s c → sector_of s c ≡ s.fat_infor.data_address + c * 8
sector_of_lem s c h = omega arith

module _ {D : Type 0} {dev : Device D} {bytes : D → Buffer} (w : Works dev bytes) where
  -- The buffer after `readCluster`, and the disk after `writeCluster`.
  pub buffer-read_cluster :
      (c : ℕ) (s : Fs D)
      → InRange s c
      → (read_cluster dev c s).buffer4096 ≡ load (bytes s.disk) (start s c) 4096 s.buffer4096
  unfolding read_cluster
  buffer-read_cluster c s h = rw (sector_of_lem s c h) (
      w.read_bytes 8 (s.fat_infor.data_address + c * 8) s.buffer4096 s.disk (omega arith)
        (omega arith) h)

  pub buffer-read_cluster_to :
      (c : ℕ) (b : Buffer) (s : Fs D)
      → InRange s c
      → (read_cluster_to dev c b s).0 ≡ load (bytes s.disk) (start s c) 4096 b
  unfolding read_cluster_to
  buffer-read_cluster_to c b s h =
      rw (sector_of_lem s c h)
        (w.read_bytes 8 (s.fat_infor.data_address + c * 8) b s.disk (omega arith) (omega arith) h)

  pub disk-read_cluster : (c : ℕ) (s : Fs D) → bytes (read_cluster dev c s).disk ≡ bytes s.disk
  unfolding read_cluster
  disk-read_cluster c s = w.read_keeps 8 (sector_of s c) s.buffer4096 s.disk

  pub disk-read_cluster_to :
      (c : ℕ) (b : Buffer) (s : Fs D) → bytes (read_cluster_to dev c b s).1.disk ≡ bytes s.disk
  unfolding read_cluster_to
  disk-read_cluster_to c b s = w.read_keeps 8 (sector_of s c) b s.disk

  pub disk-write_cluster :
      (c : ℕ) (b : Buffer) (s : Fs D)
      → InRange s c
      → bytes (write_cluster dev c b s).disk ≡ save (bytes s.disk) (start s c) 4096 b
  unfolding write_cluster
  disk-write_cluster c b s h =
      rw (sector_of_lem s c h)
        (w.write_bytes 8 (s.fat_infor.data_address + c * 8) b s.disk (omega arith) (omega arith) h)

-- Reading and writing clusters changes nothing else.
module _ {D : Type 0} (dev : Device D) (c : ℕ) (s : Fs D) where
  pub infor-read_cluster : (read_cluster dev c s).fat_infor ≡ s.fat_infor
  unfolding read_cluster
  infor-read_cluster = refl

  pub infor-write_cluster : (b : Buffer) → (write_cluster dev c b s).fat_infor ≡ s.fat_infor
  unfolding write_cluster
  infor-write_cluster b = refl

  pub mounted-write_cluster : (b : Buffer) → (write_cluster dev c b s).is_mounted ≡ s.is_mounted
  unfolding write_cluster
  mounted-write_cluster b = refl

  pub mounted-read_cluster : (read_cluster dev c s).is_mounted ≡ s.is_mounted
  unfolding read_cluster
  mounted-read_cluster = refl

  pub buffer-write_cluster : (b : Buffer) → (write_cluster dev c b s).buffer4096 ≡ s.buffer4096
  unfolding write_cluster
  buffer-write_cluster b = refl

  pub buffer4096-read_cluster_to :
      (b : Buffer) → (read_cluster_to dev c b s).1.buffer4096 ≡ s.buffer4096
  unfolding read_cluster_to
  buffer4096-read_cluster_to b = refl

-- The root directory, as it stands on the disk.
abbrev pub dir : {D : Type 0} → (D → Buffer) → Fs D → Buffer
dir bytes s i = bytes s.disk (start s 0 + i)
