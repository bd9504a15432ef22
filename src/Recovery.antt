-- ===== src/Recovery.antt =====
-- src/recovery.rs: the keydir rebuilt from the files of the directory. The warnings are left out;
-- nothing depends on them, nor on which file is the last, which only decides about a warning.

pub mod Newest
pub mod Hints
pub mod Parsed
pub mod Scan
pub mod Directory
pub mod Log
use yabiir.Base.{
  ℕ, zero, suc, ◌+◌, ◌-◌, ◌^◌, min, Bool, true, false, Option, none, some, List, [], ◌∷◌, ◌++◌,
  Bytes, length, ltb, if◌then◌else◌,
}
use yabiir.Crc32.{Crc32}
use yabiir.Error.{Result, blocked}
use yabiir.Io.{Exec, pure, ◌>>=◌, ◌>>◌}
use yabiir.Io.Read.{Reader}
use yabiir.Io.Disk.{World, open_data, read_hint_file, hint_exists, data_len, reading, in_memory}
use yabiir.Format.{EntryHeader, u64_mod}
use yabiir.Format.Entry.{Entry, EntryRead, header_size, read_entry}
use yabiir.Format.Hint.{Hint, HintRead, read_hint, verify_hint_file}
use yabiir.Keydir.{Keydir, KeydirEntry, insert, remove}

-- A key takes the place, or goes where the flag says so.
abbrev pub place : Keydir → Bytes → Bool → KeydirEntry → Keydir
place keydir key tombstone entry =
    if tombstone then (remove keydir key).0 else insert keydir key entry

unfoldable pub apply_entry : Keydir → ℕ → ℕ → Entry → Keydir
apply_entry keydir file_id entry_start_pos entry =
    place keydir entry.key entry.header.tombstone (record {
      file_id = file_id;
      value_size = entry.header.value_size;
      value_pos = entry_start_pos + header_size + entry.header.key_size;
      timestamp = entry.header.timestamp;
    })

unfoldable pub apply_hint : ℕ → Keydir → Hint → Keydir
apply_hint file_id keydir hint = place keydir hint.key hint.header.tombstone (record {
  file_id = file_id;
  value_size = hint.header.value_size;
  value_pos = hint.value_pos;
  timestamp = hint.header.timestamp;
})

-- `value_pos.saturating_add(value_size)`
abbrev pub saturating_add : ℕ → ℕ → ℕ
saturating_add a b = min (a + b) (u64_mod - 1)

-- What `scan_data_file` does with an entry that was read, or goes on with.
unfoldable pub scan_next :
    Option EntryRead → ℕ → ℕ → Keydir → (ℕ → Keydir → Exec Reader Keydir) → Exec Reader Keydir
unfolding apply_entry
scan_next none file_id pos keydir go_on = pure keydir
scan_next (some EntryRead.truncated) file_id pos keydir go_on = pure keydir
scan_next (some (EntryRead.ok entry total_len)) file_id pos keydir go_on =
    go_on (pos + total_len) (apply_entry keydir file_id pos entry)
scan_next (some (EntryRead.crc_mismatch total_len)) file_id pos keydir go_on =
    go_on (pos + total_len) keydir

-- Whether a record points into a data file of that length.
unfoldable pub out_of_bounds : ℕ → Hint → Bool
out_of_bounds data_file_len hint =
    ltb data_file_len (saturating_add hint.value_pos hint.header.value_size)

unfoldable pub hint_next :
    Option HintRead
    → ℕ
    → List Hint
    → (List Hint → Exec Reader (Option (List Hint)))
    → Exec Reader (Option (List Hint))
unfolding out_of_bounds
hint_next none data_file_len records go_on = pure (some records)
hint_next (some HintRead.truncated) data_file_len records go_on = pure none
hint_next (some (HintRead.ok hint)) data_file_len records go_on =
    if out_of_bounds data_file_len hint then pure none else go_on (records ++ (hint ∷ []))

unfoldable pub apply_hints : ℕ → List Hint → Keydir → Keydir
unfolding apply_hint
apply_hints file_id [] keydir = keydir
apply_hints file_id (hint ∷ hints) keydir =
    apply_hints file_id hints (apply_hint file_id keydir hint)

-- The loop that reads all records before any is applied; `none` if one is cut off or points
-- outside the data file. Each record takes 20 bytes at least.
unfoldable pub hint_loop : ℕ → ℕ → List Hint → Exec Reader (Option (List Hint))
unfolding hint_next
hint_loop zero data_file_len records = λ r. (blocked, r)
hint_loop (suc fuel) data_file_len records =
    read_hint >>= λ found. hint_next found data_file_len records (hint_loop fuel data_file_len)

-- The last part of `try_scan_hint_file`: all records are applied, or none.
unfoldable pub use_records : ℕ → Keydir → Option (List Hint) → Exec World (Bool × Keydir)
unfolding apply_hints
use_records file_id keydir none = pure (false, keydir)
use_records file_id keydir (some records) = pure (true, apply_hints file_id records keydir)

-- What follows the check of the trailer.
unfoldable pub use_content : ℕ → Keydir → Option Bytes → Exec World (Bool × Keydir)
unfolding use_records hint_loop
use_content file_id keydir none = pure (false, keydir)
use_content file_id keydir (some content) = data_len file_id >>= λ data_file_len.
    in_memory content (hint_loop (suc (length content)) data_file_len [])
    >>= use_records file_id keydir

module _ {Hasher : Type 0} (crc32 : Crc32 Hasher) where
  -- The loop of `scan_data_file`; each entry takes 16 bytes at least.
  unfoldable pub scan_loop : ℕ → ℕ → ℕ → Keydir → Exec Reader Keydir
  unfolding scan_next
  scan_loop zero file_id pos keydir = λ r. (blocked, r)
  scan_loop (suc fuel) file_id pos keydir =
      read_entry crc32 >>= λ found. scan_next found file_id pos keydir (scan_loop fuel file_id)

  unfoldable pub scan_data_file : ℕ → Keydir → Exec World Keydir
  unfolding scan_loop
  scan_data_file file_id keydir =
      open_data file_id >>= λ bytes. reading bytes (scan_loop (suc (length bytes)) file_id 0 keydir)

  -- Whether the hint file was valid and was applied; if not, the keydir is as it was.
  unfoldable pub try_scan_hint_file : ℕ → Keydir → Exec World (Bool × Keydir)
  unfolding use_content
  try_scan_hint_file file_id keydir =
      read_hint_file file_id >>= λ bytes. use_content file_id keydir (verify_hint_file crc32 bytes)

  -- One round of the loop in `recover`.
  unfoldable pub recover_file : ℕ → Keydir → Exec World Keydir
  unfolding try_scan_hint_file scan_data_file
  recover_file file_id keydir = hint_exists file_id >>= λ exists.
      (if exists then try_scan_hint_file file_id keydir else pure (false, keydir))
      >>= λ (used_hint, scanned). if used_hint then pure scanned else scan_data_file file_id scanned

  unfoldable pub recover : List ℕ → Keydir → Exec World Keydir
  unfolding recover_file
  recover [] keydir = pure keydir
  recover (file_id ∷ file_ids) keydir =
      recover_file file_id keydir >>= λ scanned. recover file_ids scanned
