-- ===== src/Recovery/Scan.antt =====
-- src/recovery.rs `scan_data_file`: what it makes of a file that the store wrote.
use yabiir.Base.{
  ℕ, suc, ◌≡◌, refl, ap, ◌∙◌, Option, some, List, [], ◌∷◌, ◌++◌, Bytes, length, All, arith,
}
use yabiir.Base.Map
use yabiir.Base.Map.{nat_eq}
use yabiir.Crc32.{Crc32}
use yabiir.Error.{ok}
use yabiir.Io.{Exec, Outcome, full, part, fail, ◌>>=◌}
use yabiir.Io.Read.{Reader}
use yabiir.Io.Read.Laws.{NoFault}
use yabiir.Io.Disk.{World, syscall, open_data, reading}
use yabiir.Keydir
use yabiir.Keydir.{Keydir, KeydirEntry}
use yabiir.Recovery.{scan_loop, scan_data_file}
use yabiir.Recovery.Parsed.{Gives, apply_all, entries, scan_loop-entries}
use yabiir.Recovery.Newest.{newest, get-apply_all}
use yabiir.Recovery.Log.{Item, ItemFits, IsTail, file_bytes, file_entries, entries-file}

-- The action returns `a` and changes no file, and no call to come fails.
pub record Settles {A : Type 0} (m : Exec World A) (w : World) (a : A) : Type 0 where
  pub result : (m w).0 ≡ ok a
  pub data_kept : (m w).1.data_files ≡ w.data_files
  pub hints_kept : (m w).1.hint_files ≡ w.hint_files
  pub calm : NoFault (m w).1.plan

pub Settles-bind :
    {A B : Type 0} (m : Exec World A) (f : A → Exec World B) {w : World} {a : A} {b : B}
    → Settles m w a
    → Settles (f a) (m w).1 b
    → Settles (m >>= f) w b
Settles-bind m f p q = record {
  result = rw (p.result) q.result;
  data_kept = rw (p.result) (q.data_kept ∙ p.data_kept);
  hints_kept = rw (p.result) (q.hints_kept ∙ p.hints_kept);
  calm = rw (p.result) q.calm;
}

-- The action returns a keydir with these entries and changes no file, and no call to come fails.
pub record Recovers (m : Exec World Keydir) (w : World) (found : Bytes → Option KeydirEntry)
    : Type 0 where
  pub keydir : Keydir
  pub settles : Settles m w keydir
  pub get_lem : (key : Bytes) → Keydir.get keydir key ≡ found key

pub syscall-Settles : (w : World) → NoFault w.plan → Settles syscall w tt
unfolding syscall
syscall-Settles w calm = go w.plan calm
  where
    go : (plan : List Outcome) → NoFault plan → Settles syscall (record w { plan = plan }) tt
    go [] h = record { result = refl; data_kept = refl; hints_kept = refl; calm = tt }
    go (full ∷ plan) h = record { result = refl; data_kept = refl; hints_kept = refl; calm = h.1 }
    go (part k ∷ plan) h = record { result = refl; data_kept = refl; hints_kept = refl; calm = h.1 }
    go (fail k ∷ plan) h = absurd h.0

pub open_data-Settles :
    (id : ℕ) (w : World) {bytes : Bytes}
    → NoFault w.plan
    → Map.lookup id w.data_files ≡ some bytes
    → Settles (open_data id) w bytes
unfolding open_data
open_data-Settles id w {bytes} calm e =
    let called = syscall-Settles w calm in
    let there : Map.lookup id (syscall w).1.data_files ≡ some bytes =
      ap (Map.lookup id) called.data_kept ∙ e in
    Settles-bind syscall _ called (record {
      result = rw there;
      data_kept = rw there;
      hints_kept = rw there;
      calm = rw there called.calm;
    })

pub reading-Settles :
    {A : Type 0} (m : Exec Reader A) (bytes : Bytes) (w : World) {a : A}
    → Gives m (record { rest = bytes; plan = w.plan }) a
    → Settles (reading bytes m) w a
reading-Settles m bytes w g = record {
  result = g.result;
  data_kept = refl;
  hints_kept = refl;
  calm = g.calm;
}

module _ {Hasher : Type 0} (crc32 : Crc32 Hasher) where
  scan_data_file-entries :
      (id : ℕ) (keydir : Keydir) (w : World) {bytes : Bytes}
      → NoFault w.plan
      → Map.lookup id w.data_files ≡ some bytes
      → Settles
          (scan_data_file crc32 id keydir)
          w
          (apply_all id (entries crc32 (suc (length bytes)) 0 bytes) keydir)
  unfolding scan_data_file
  scan_data_file-entries id keydir w {bytes} calm e =
      let opened = open_data-Settles id w calm e in
      Settles-bind (open_data id) _ opened (
        reading-Settles (scan_loop crc32 (suc (length bytes)) id 0 keydir) bytes (open_data id w).1
          (scan_loop-entries crc32 (suc (length bytes)) id 0 keydir
            (record { rest = bytes; plan = (open_data id w).1.plan }) (omega arith) opened.calm))

  -- The file applies exactly its intact entries, in order.
  pub scan_data_file-items :
      (id : ℕ) (keydir : Keydir) (w : World) (items : List Item) (tail : Bytes)
      → All (ItemFits crc32) items
      → IsTail crc32 tail
      → NoFault w.plan
      → Map.lookup id w.data_files ≡ some (file_bytes crc32 items ++ tail)
      → Settles
          (scan_data_file crc32 id keydir)
          w
          (apply_all id (file_entries crc32 0 items) keydir)
  scan_data_file-items id keydir w items tail fits t calm e =
      rw
        (← entries-file crc32 (suc (length (file_bytes crc32 items ++ tail))) 0 items tail fits t
          (omega arith))
        (scan_data_file-entries id keydir w calm e)

  -- Let a data file hold entries whose sizes fit the header, some with a stored checksum that is
  -- not theirs, and behind them nothing or a part of one more entry. As long as no call fails,
  -- its scan returns and changes no file. Then a key that an entry with the right checksum is
  -- about has what the last of those says: nothing if it is a tombstone, and if not the place of its
  -- value, which is the end of that entry, with the length of the value, the file's id and the time
  -- written. Every other key has what it had before the scan.
  pub scan_data_file-file :
      (id : ℕ) (keydir : Keydir) (w : World) (items : List Item) (tail : Bytes)
      → All (ItemFits crc32) items
      → IsTail crc32 tail
      → NoFault w.plan
      → Map.lookup id w.data_files ≡ some (file_bytes crc32 items ++ tail)
      → Recovers
          (scan_data_file crc32 id keydir)
          w
          (λ key. newest crc32 id 0 items key (Keydir.get keydir key))
  scan_data_file-file id keydir w items tail fits t calm e = record {
    keydir = apply_all id (file_entries crc32 0 items) keydir;
    settles = scan_data_file-items id keydir w items tail fits t calm e;
    get_lem = λ key. get-apply_all crc32 id 0 items keydir key fits;
  }
