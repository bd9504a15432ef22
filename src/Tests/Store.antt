-- ===== src/Tests/Store.antt =====
-- The theorems on recovery, the keydir and the store at concrete inputs.
use yabiir.Base.{
  suc, inl, inr, none, ◌+◌, ◌-◌, ◌≡◌, ◌≢◌, refl, sym, ◌∙◌, true, false, some, List, [], ◌∷◌, ◌++◌,
  Bytes, length, take, drop, take-append-drop, length-drop, arith, if◌then◌else◌, bytes_eq,
}
use yabiir.Base.Map
use yabiir.Base.Map.{nat_eq, lookup, insert}
use yabiir.Error.{ok, err, io}
use yabiir.Io.{part, fail}
use yabiir.Io.Disk.{World, write_data, syscall}
use yabiir.Format.Entry.{EncodedEntry, encode_entry}
use yabiir.Format.Entry.RoundTrip.{total_len_lem}
use yabiir.Keydir
use yabiir.Keydir.{Keydir, KeydirEntry, cas_repoint}
use yabiir.Keydir.Laws.{cas_repoint_lem}
use yabiir.Recovery.{recover, scan_loop, scan_data_file}
use yabiir.Recovery.Parsed.{apply_all, entries, scan_loop-rounds}
use yabiir.Recovery.Newest.{newest}
use yabiir.Recovery.Log.{clean, Write, Item, intact, bitrot, IsTail, torn, file_bytes, write_bytes}
use yabiir.Recovery.Directory.{DataFile, newest_in, recover-files}
use yabiir.Format.Hint.{verify_hint_file}
use yabiir.Recovery.Scan.{Recovers, scan_data_file-file}
use yabiir.Datafile.{ActiveFile, append}
use yabiir.Datafile.Appends.{Leaves, start, append_lem}
use yabiir.Commit
use yabiir.Lock.{dir_lock}
use yabiir.Datafile
use yabiir.Engine
use yabiir.Engine.{
  Engine, require_write, on_file, after_append, rotate_if, commit_if, delete_found, Options,
  default_options, as_read_only, put, delete,
}
use yabiir.Engine.View.{view, stored}
use yabiir.Engine.Faults.{put-failed, delete-failed}
use yabiir.Tests.{toy_crc32, key_a, key_b, value_a, fits_a, encoded_a}

abbrev write_a : Write
write_a = record { key = key_a; value = value_a; tombstone = false; tstamp = 5 }

-- An entry, the same entry with a rotten checksum, the same again, and a torn one.
abbrev items_a : List Item
items_a = intact write_a ∷ bitrot write_a 9 ∷ intact write_a ∷ []

abbrev tail_a : Bytes
tail_a = take 5 (write_bytes toy_crc32 write_a)

abbrev world_a : World
world_a = record {
  data_files = (4, file_bytes toy_crc32 items_a ++ tail_a) ∷ [];
  hint_files = [];
  plan = part 1 ∷ [];
}

tail_a-IsTail : IsTail toy_crc32 tail_a
tail_a-IsTail =
    torn write_a (drop 5 (write_bytes toy_crc32 write_a)) fits_a
      (take-append-drop 5 (write_bytes toy_crc32 write_a))
      (omega (arith, length-drop 5 encoded_a, total_len_lem toy_crc32 false fits_a))

rotten_crc : 9 ≢ toy_crc32.hash (drop 4 (write_bytes toy_crc32 write_a))
unfolding encode_entry
rotten_crc = omega arith

scan_data_file-file_example :
    Recovers
      (scan_data_file toy_crc32 4 Keydir.new)
      world_a
      (λ key. newest toy_crc32 4 0 items_a key none)
unfolding lookup Keydir.get
scan_data_file-file_example =
    scan_data_file-file toy_crc32 4 Keydir.new world_a items_a tail_a
      (fits_a, ((fits_a, omega arith, rotten_crc), (fits_a, tt))) tail_a-IsTail (tt, tt) refl

-- The same file with a hint file that is too short, and an empty file before it.
abbrev directory : List DataFile
directory =
    record { id = 2; items = []; tail = [] }
    ∷ record { id = 4; items = items_a; tail = tail_a }
    ∷ []

abbrev world_b : World
world_b = record {
  data_files = (2, []) ∷ (4, file_bytes toy_crc32 items_a ++ tail_a) ∷ [];
  hint_files = (4, value_a) ∷ [];
  plan = part 1 ∷ [];
}

short_hint : verify_hint_file toy_crc32 value_a ≡ none
unfolding verify_hint_file
short_hint = refl

recover-files_example :
    Recovers
      (recover toy_crc32 (2 ∷ 4 ∷ []) Keydir.new)
      world_b
      (λ key. newest_in toy_crc32 directory key none)
unfolding lookup Keydir.get
recover-files_example =
    recover-files toy_crc32 directory Keydir.new world_b (tt, tt)
      (
        record { fits = tt; cut = clean refl; there = refl; hintless = inl refl },
        (
          record {
            fits = (fits_a, ((fits_a, omega arith, rotten_crc), (fits_a, tt)));
            cut = tail_a-IsTail;
            there = refl;
            hintless = inr (value_a, refl, short_hint);
          },
          tt,
        ),
      )

scan_loop-rounds_example :
    (scan_loop toy_crc32 99 4 0 Keydir.new
      (record { rest = write_bytes toy_crc32 write_a; plan = [] })).0
    ≡ ok (
        apply_all 4
          (entries toy_crc32
            (suc (length (write_bytes toy_crc32 write_a)))
            0
            (write_bytes toy_crc32 write_a))
          Keydir.new)
scan_loop-rounds_example =
    scan_loop-rounds toy_crc32 99 4 0 Keydir.new
      (record { rest = write_bytes toy_crc32 write_a; plan = [] }) tt
      (omega (arith, total_len_lem toy_crc32 false fits_a))

abbrev pub entry_1 : KeydirEntry
entry_1 = record { file_id = 4; value_size = 3; value_pos = 0; timestamp = 5 }

abbrev entry_2 : KeydirEntry
entry_2 = record { file_id = 6; value_size = 3; value_pos = 17; timestamp = 5 }

abbrev pub keydir_a : Keydir
keydir_a = Keydir.insert Keydir.new key_a entry_1

cas_repoint_lem_example :
    (Keydir.get keydir_a key_a ≡ some entry_1
      → (cas_repoint keydir_a key_a entry_1 entry_2).1 ≡ true
        × ((j : Bytes)
            → Keydir.get (cas_repoint keydir_a key_a entry_1 entry_2).0 j
              ≡ (if bytes_eq key_a j then some entry_2 else Keydir.get keydir_a j)))
    × (Keydir.get keydir_a key_a ≢ some entry_1
        → cas_repoint keydir_a key_a entry_1 entry_2 ≡ (keydir_a, false))
cas_repoint_lem_example = cas_repoint_lem keydir_a key_a entry_1 entry_2

abbrev file_world : World
file_world = record { data_files = (4, value_a) ∷ []; hint_files = []; plan = [] }

abbrev encoded_entry_a : EncodedEntry
encoded_entry_a = encode_entry toy_crc32 key_a value_a false 5

append_lem_example :
    Leaves
      (append encoded_entry_a (start file_world 4 3))
      (
        4,
        3 + (length encoded_entry_a.bytes - encoded_entry_a.value_len),
        length encoded_entry_a.bytes,
      )
      (record { file_id = 4; buffer = []; offset = length (value_a ++ encoded_entry_a.bytes) })
      (Map.insert 4 (value_a ++ encoded_entry_a.bytes) file_world.data_files)
      []
unfolding lookup
append_lem_example =
    append_lem file_world 4 value_a tt refl encoded_entry_a
      (omega (arith, total_len_lem toy_crc32 false fits_a))

-- A store with one key, where the next write fails after two bytes.
abbrev pub engine_a : Engine
engine_a = record {
  world = record { data_files = (4, value_a) ∷ []; hint_files = []; plan = fail 2 ∷ [] };
  keydir = keydir_a;
  readers = [];
  active = some (record { file_id = 4; buffer = []; offset = 3 });
  group_commit = Commit.new;
  next_file_id = 5;
  opts = default_options;
  write_lock = some dir_lock;
}

pub view_a : view engine_a key_a ≡ some value_a
unfolding view stored Keydir.get Keydir.insert lookup insert
view_a = refl

-- What a run of the store goes through.
unfoldable program : Unit {0}
unfolding require_write on_file after_append Engine.append rotate_if commit_if put delete
    delete_found Datafile.flush Datafile.flush_buffer Datafile.write_all Datafile.write_unflushed
    Datafile.append Datafile.advance write_data syscall Commit.record_pending Keydir.get
    Keydir.insert Keydir.remove lookup insert encode_entry
program = tt

put_a : (put toy_crc32 key_b value_a 6 engine_a).0 ≡ err io
unfolding program
put_a = refl

delete_a : (delete toy_crc32 key_a 6 engine_a).0 ≡ err io
unfolding program
delete_a = refl

put-failed_example : view (put toy_crc32 key_b value_a 6 engine_a).1 key_a ≡ some value_a
put-failed_example =
    put-failed toy_crc32 key_b value_a 6 engine_a
      (λ e. let x : err io ≡ ok tt = sym put_a ∙ e in cc) key_a value_a view_a

delete-failed_example : view (delete toy_crc32 key_a 6 engine_a).1 key_a ≡ some value_a
delete-failed_example =
    delete-failed toy_crc32 key_a 6 engine_a (λ e. let x : err io ≡ ok tt = sym delete_a ∙ e in cc)
      key_a value_a view_a
