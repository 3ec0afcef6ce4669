-- ===== src/Fat/Update.antt =====
-- kernel/fs/FAT.c: `writeFile` stores a file under its name, and leaves the others.
use skhuos.Common.{
  ℕ, ◌+◌, ◌*◌, ◌%◌, ◌^◌, ◌<◌, ◌≡◌, ◌≢◌, refl, sym, ap, ◌∙◌, true, some, List, ◌==◌, arith, if_false,
}
use skhuos.CString.Compare.{same_unique}
use skhuos.Sectors.{Buffer, Device, Works}
use skhuos.Fat.{Fs, cluster_of, size_of, has_name, is_file}
use skhuos.Fat.Files.{write_file, read_file}
use skhuos.Fat.Io.{first_from-some, has_name_lem, start, dir}
use skhuos.Fat.Store.{FitsEntry, Stores, Mounted, read_file-Stores}
use skhuos.Fat.Write.{
  Distinct, written, write_file_run, mounted-written, cluster-written, clusters-written,
  sizes-written, lookup-written, InRange-written,
}

-- What `is_file` says of an entry.
pub is_file-true :
    (b : Buffer) (name : List ℕ) (i : ℕ)
    → is_file b name i ≡ true
    → (cluster_of b i ≢ 0) × (has_name b name i ≡ true)
unfolding is_file
is_file-true b name i e = (λ z. ground arith, ground arith)

-- Two names found at one entry are the same name.
pub name_unique :
    (b : Buffer) (x y : List ℕ) (i : ℕ)
    → FitsEntry x
    → FitsEntry y
    → is_file b x i ≡ true
    → is_file b y i ≡ true
    → x ≡ y
name_unique b x y i (t, l) (u, m) e f =
    same_unique (λ j. b (32 * i + j)) x y t u
      (sym (has_name_lem b x i t) ∙ (is_file-true b x i e).1)
      (sym (has_name_lem b y i u) ∙ (is_file-true b y i f).1)

module _ {D : Type 0} {dev : Device D} {bytes : D → Buffer} (w : Works dev bytes) (s : Fs D)
    (m : Mounted s) where
  -- `writeFile` to a stored file succeeds and stores the buffer's cluster and the size, modulo 2^32, under its
  -- name; the file system stays mounted.
  write_file-Stores :
      (name : List ℕ) (old : ℕ) (content buffer : Buffer) (size : ℕ)
      → FitsEntry name
      → Stores bytes s name old content
      → let (s', done) = write_file dev name buffer size s in
        (done ≡ true) × Mounted s' × Stores bytes s' name (size % 2 ^ 32) buffer
  write_file-Stores name old content buffer size fits st =
      let i = st.slot in
      let (low, h, is) = first_from-some (is_file (dir bytes s) name) 0 128 i st.found in
      let live = (is_file-true (dir bytes s) name i is).0 in
      let same_cluster = clusters-written w s m i buffer size h st.in_range i h in
      rw (write_file_run w s m name i buffer size fits st.found) (
        refl,
        record {
          mounted = mounted-written w s m i buffer size h st.in_range ∙ m.mounted;
          root = InRange-written w s m i buffer size h st.in_range 0 m.root;
        },
        record {
          slot = i;
          found = lookup-written w s m i buffer size h st.in_range name fits ∙ st.found;
          sized = sizes-written w s m i buffer size h st.in_range i h ∙ ground arith;
          in_range = omega (
            arith,
            same_cluster,
            InRange-written w s m i buffer size h st.in_range _ st.in_range,
          );
          stored = λ k l.
              ap
                (λ c.
                  bytes (written w s m i buffer size).disk
                    (start (written w s m i buffer size) c + k))
                same_cluster
              ∙ cluster-written w s m i buffer size h st.in_range (cluster_of (dir bytes s) i) k
                  live l
              ∙ ground arith;
        },
      )

  -- On a disk whose transfers are complete (`Works`), mounted: `readFile` after `writeFile` to a stored file
  -- with a name of at most 23 characters returns the written size, modulo 2^32, and the bytes that were written, whatever the caller's buffer held.
  pub read_file-write_file :
      (name : List ℕ) (old : ℕ) (content buffer out : Buffer) (size k : ℕ)
      → FitsEntry name
      → Stores bytes s name old content
      → k < 4096
      → let (s', done) = write_file dev name buffer size s in
        let (r, b, s'') = read_file dev name out s' in
        (done ≡ true) × (r ≡ some (size % 2 ^ 32)) × (b k ≡ buffer k)
  read_file-write_file name old content buffer out size k fits st l =
      let (done, m', st') = write_file-Stores name old content buffer size fits st in
      let (r, b, d) =
        read_file-Stores w (write_file dev name buffer size s).0 m' name (size % 2 ^ 32) buffer out
          fits st' in
      (done, r, b k l)

  -- On a disk whose transfers are complete (`Works`), mounted, and for names of at most 23 characters:
  -- `writeFile` to a stored file leaves every other stored file as it is, if no cluster belongs to two
  -- entries of the directory.
  pub write_file_others :
      (name other : List ℕ) (old size : ℕ) (content buffer : Buffer) (new_size : ℕ) (kept : Buffer)
      → FitsEntry name
      → FitsEntry other
      → other ≢ name
      → Distinct (dir bytes s)
      → Stores bytes s name old content
      → Stores bytes s other size kept
      → Stores bytes (write_file dev name buffer new_size s).0 other size kept
  write_file_others name other old size content buffer new_size kept fits fits' ne apart st so =
      let i = st.slot in
      let e = so.slot in
      let (low, h, is) = first_from-some (is_file (dir bytes s) name) 0 128 i st.found in
      let (low', h', is') = first_from-some (is_file (dir bytes s) other) 0 128 e so.found in
      let live = (is_file-true (dir bytes s) other e is').0 in
      let other_entry : e ≢ i = λ at. ne (
        name_unique (dir bytes s) other name i fits' fits
          (ap (is_file (dir bytes s) other) (sym at) ∙ is') is) in
      let other_cluster : cluster_of (dir bytes s) e ≢ cluster_of (dir bytes s) i =
        λ z. other_entry (apart e i h' h live z) in
      let same_cluster = clusters-written w s m i buffer new_size h st.in_range e h' in
      rw (write_file_run w s m name i buffer new_size fits st.found) (record {
        slot = e;
        found = lookup-written w s m i buffer new_size h st.in_range other fits' ∙ so.found;
        sized =
            sizes-written w s m i buffer new_size h st.in_range e h'
            ∙ if_false (e == i) (new_size % 2 ^ 32) (size_of (dir bytes s) e)
                (ground (arith, other_entry))
            ∙ so.sized;
        in_range = omega (
          arith,
          same_cluster,
          InRange-written w s m i buffer new_size h st.in_range _ so.in_range,
        );
        stored = λ k l.
            ap
              (λ c.
                bytes (written w s m i buffer new_size).disk
                  (start (written w s m i buffer new_size) c + k))
              same_cluster
            ∙ cluster-written w s m i buffer new_size h st.in_range (cluster_of (dir bytes s) e) k
                live l
            ∙ if_false (cluster_of (dir bytes s) e == cluster_of (dir bytes s) i) (buffer k)
                (bytes s.disk (start s (cluster_of (dir bytes s) e) + k))
                (ground (arith, other_cluster))
            ∙ so.stored k l;
      })
