-- ===== src/Tests/Merging.antt =====
-- The theorems on merge at concrete inputs.
use yabiir.Base.{
  ℕ, ◌≡◌, ◌∙◌, All, ◌⊎◌, refl, sym, inl, inr, false, Bool-cases, none, some, [], ◌∷◌, Bytes,
  bytes_eq, bytes_eq_iff, Any, arith,
}
use mathlib.Core.Path.{subst}
use mathlib.Core.Option.{some-injective}
use yabiir.Base.Map
use yabiir.Base.Map.{nat_eq, lookup}
use yabiir.Error.{ok}
use yabiir.Io.{full, fail}
use yabiir.Io.After.{After}
use yabiir.Io.Grows.{Extends-refl, SameData}
use yabiir.Keydir
use yabiir.Keydir.{Keydir, KeydirEntry}
use yabiir.Keydir.Laws.{get-insert, get-remove}
use yabiir.Commit
use yabiir.Lock.{dir_lock}
use yabiir.Datafile
use yabiir.Engine.{Engine, default_options}
use yabiir.Engine.View.{view, stored}
use yabiir.Recovery.Parsed.{entries, next_entries}
use yabiir.Format.{encode_key_size, decode_key_size}
use yabiir.Format.Entry.{Entry, encode_entry, check_body, body_len, decode_entry_header, verify_crc}
use yabiir.Format.Entry.Parse.{parse_entry, parse_body}
use yabiir.Merge.{
  Hook, keep_below, merge, read_all_entries, remove_old_input_files, repoint_all, copy_all,
}
use yabiir.Merge.Scan.{Scanned, read_all_entries-After}
use yabiir.Merge.Gone.{IsGone, remove_old_input_files-IsGone}
use yabiir.Merge.Removal.{Removed, remove_old_input_files-After}
use yabiir.Merge.Repoints.{Kept, no_hook, repoint_all-stable}
use yabiir.Merge.OutputWriter.{MergeOutputWriter, write_live_entry}
use yabiir.Merge.OutputWriter.Writes.{Holds, Copied, Whatever, write_live_entry-After}
use yabiir.Merge.Cleared.{IsCleared, at_start, copy_all-IsCleared}
use yabiir.Merge.Handled.{IsBacked, entries_of, count}
use yabiir.Merge.Progress.{IsPlace}
use yabiir.Merge.NoLoss.{IsMergeable, inputs, merge_keeps}
use yabiir.Tests.{toy_crc32, key_a, value_a, encoded_a}

abbrev place_a : KeydirEntry
place_a = record { file_id = 4; value_size = 3; value_pos = 17; timestamp = 5 }

-- An old file with one entry, an empty active file, and a call that fails later.
abbrev engine_m : Engine
engine_m = record {
  world = record { data_files = (4, encoded_a) ∷ (5, []) ∷ []; hint_files = []; plan = [] };
  keydir = Keydir.insert Keydir.new key_a place_a;
  readers = [];
  active = some (record { file_id = 5; buffer = []; offset = 0 });
  group_commit = Commit.new;
  next_file_id = 6;
  opts = default_options;
  write_lock = some dir_lock;
}

found_a : Any (IsPlace 4 key_a place_a) (entries_of toy_crc32 (some encoded_a))
unfolding entries next_entries parse_entry parse_body check_body body_len decode_entry_header
    verify_crc encode_entry encode_key_size decode_key_size
found_a = inl (refl, refl, refl)

get_new : (k : Bytes) (entry : KeydirEntry) → Keydir.get Keydir.new k ≡ some entry → ⊥
unfolding Keydir.get lookup
get_new k entry h = cc

only_a :
    (key : Bytes) (at : KeydirEntry)
    → Keydir.get engine_m.keydir key ≡ some at
    → (key_a ≡ key) × (place_a ≡ at)
only_a key at h = elim (Bool-cases (bytes_eq key_a key)) [
  | inl same ↦
      let found : some place_a ≡ some at =
        rw (get-insert Keydir.new key_a key place_a, same) at h in
      ((bytes_eq_iff key_a key).0 same, some-injective place_a at found)
  | inr other ↦
      let found : Keydir.get Keydir.new key ≡ some at =
        rw (get-insert Keydir.new key_a key place_a, other) at h in
      absurd (get_new key at found)
]

there_a : Map.lookup 4 engine_m.world.data_files ≡ some encoded_a
unfolding lookup
there_a = refl

engine_m-IsBacked : IsBacked toy_crc32 5 engine_m
engine_m-IsBacked = record {
  backed = λ key at h below.
      let (key_lem, at_lem) = only_a key at h in
      subst
        (λ k.
          Any (IsPlace at.file_id k at)
            (entries_of toy_crc32 (Map.lookup at.file_id engine_m.world.data_files))
          ⊎ (Map.lookup at.file_id engine_m.world.data_files ≡ none))
        key_lem
        (subst
          (λ p.
            Any (IsPlace p.file_id key_a p)
              (entries_of toy_crc32 (Map.lookup p.file_id engine_m.world.data_files))
            ⊎ (Map.lookup p.file_id engine_m.world.data_files ≡ none))
          at_lem
          (inl (
            subst (λ o. Any (IsPlace 4 key_a place_a) (entries_of toy_crc32 o)) (sym there_a)
              found_a)));
}

count_a : count toy_crc32 engine_m.world (inputs 5 engine_m.world) ≡ 1
unfolding keep_below Datafile.sort Datafile.insert_sorted lookup entries next_entries parse_entry
    parse_body check_body body_len decode_entry_header verify_crc encode_entry encode_key_size
    decode_key_size
count_a = refl

engine_m-IsMergeable : IsMergeable toy_crc32 engine_m
engine_m-IsMergeable = record {
  file = record { file_id = 5; buffer = []; offset = 0 };
  is_active = refl;
  backed = engine_m-IsBacked;
  newest = omega arith;
  room = omega (arith, count_a);
}

view_m : view engine_m key_a ≡ some value_a
unfolding view stored Keydir.get Keydir.insert lookup Map.insert encode_entry encode_key_size
view_m = refl

merge_keeps_example : view (merge toy_crc32 engine_m).1 key_a ≡ some value_a
merge_keeps_example = merge_keeps toy_crc32 engine_m key_a value_a engine_m-IsMergeable view_m

read_all_entries-After_example :
    After
      (read_all_entries toy_crc32 4 engine_m.world)
      (λ found t. SameData engine_m.world t × Scanned toy_crc32 4 engine_m.world found)
      (SameData engine_m.world)
read_all_entries-After_example = read_all_entries-After toy_crc32 4 engine_m.world

remove_old_input_files-After_example :
    ((remove_old_input_files (4 ∷ []) engine_m).0 ≡ ok tt)
    × Removed (4 ∷ []) engine_m (remove_old_input_files (4 ∷ []) engine_m).1
remove_old_input_files-After_example = remove_old_input_files-After (4 ∷ []) engine_m

remove_old_input_files-IsGone_example :
    All (IsGone (remove_old_input_files (4 ∷ 9 ∷ []) engine_m).1.world) (4 ∷ 9 ∷ [])
remove_old_input_files-IsGone_example = remove_old_input_files-IsGone (4 ∷ 9 ∷ []) engine_m tt

-- The same entry twice in the file, and the key repointed from the one to the other.
abbrev engine_n : Engine
engine_n = record engine_m {
  world = record { data_files = (4, encoded_a) ∷ (6, encoded_a) ∷ []; hint_files = []; plan = [] };
}

abbrev place_b : KeydirEntry
place_b = record { file_id = 6; value_size = 3; value_pos = 17; timestamp = 5 }

repoint_a : Kept engine_n.world (key_a, place_a, place_b)
unfolding stored lookup encode_entry encode_key_size
repoint_a = record { value = value_a; old_lem = refl; new_lem = refl }

-- A writer on a new file, in a store where the next write fails after two bytes.
abbrev engine_o : Engine
engine_o = record engine_m {
  world = record {
    data_files = (4, encoded_a) ∷ (5, []) ∷ (6, []) ∷ [];
    hint_files = (6, []) ∷ [];
    plan = full ∷ full ∷ fail 2 ∷ [];
  };
  next_file_id = 7;
}

abbrev writer_o : MergeOutputWriter ℕ
writer_o = record {
  max_file_size = 10;
  current_data = record { file_id = 6; buffer = []; offset = 0 };
  current_hint = record { file_id = 6; buffer = [] };
  hint_crc = 7;
  pending_since_flush = 0;
}

at_start-Holds : Holds 6 [] (at_start writer_o engine_o)
unfolding lookup
at_start-Holds = record {
  held = record {
    on_disk = [];
    there = refl;
    whole = refl;
    same_id = refl;
    starts = refl;
    only = record { at = λ j other. refl };
  };
}

abbrev live_a : Entry
live_a = record {
  header = record { timestamp = 5; key_size = 1; value_size = 3; tombstone = false };
  key = key_a;
  value = value_a;
}

write_live_entry-After_example :
    After
      (write_live_entry toy_crc32 live_a (at_start writer_o engine_o))
      (Copied toy_crc32 6 [] (encode_entry toy_crc32 key_a value_a false 5))
      Whatever
write_live_entry-After_example =
    write_live_entry-After toy_crc32 live_a (at_start writer_o engine_o) at_start-Holds

there_o : Map.lookup 4 engine_o.world.data_files ≡ some encoded_a
unfolding lookup
there_o = refl

count_o : count toy_crc32 engine_o.world (4 ∷ []) ≡ 1
unfolding lookup entries next_entries parse_entry parse_body check_body body_len decode_entry_header
    verify_crc encode_entry encode_key_size decode_key_size
count_o = refl

engine_o-IsBacked : IsBacked toy_crc32 5 engine_o
engine_o-IsBacked = record {
  backed = λ key at h below.
      let (key_lem, at_lem) = only_a key at h in
      subst
        (λ k.
          Any (IsPlace at.file_id k at)
            (entries_of toy_crc32 (Map.lookup at.file_id engine_o.world.data_files))
          ⊎ (Map.lookup at.file_id engine_o.world.data_files ≡ none))
        key_lem
        (subst
          (λ p.
            Any (IsPlace p.file_id key_a p)
              (entries_of toy_crc32 (Map.lookup p.file_id engine_o.world.data_files))
            ⊎ (Map.lookup p.file_id engine_o.world.data_files ≡ none))
          at_lem
          (inl (
            subst (λ o. Any (IsPlace 4 key_a place_a) (entries_of toy_crc32 o)) (sym there_o)
              found_a)));
}

copy_all-IsCleared_example :
    After
      (copy_all toy_crc32 no_hook (4 ∷ []) writer_o engine_o)
      (λ _. IsCleared 5 (4 ∷ []))
      Whatever
copy_all-IsCleared_example =
    copy_all-IsCleared toy_crc32 5 engine_o engine_o-IsBacked (4 ∷ []) writer_o engine_o
      (omega arith, tt) (record { id = 6; bytes = []; holds = at_start-Holds })
      (record {
        free = record {
          untouched = λ j h. refl;
          next_lem = omega arith;
          room = omega (arith, count_o);
        };
        fresh = omega arith;
      })
      refl

-- Another thread that deletes the key, in a store where it was deleted before.
abbrev other_delete : Hook
other_delete key e = record e { keydir = (Keydir.remove e.keydir key_a).0 }

abbrev engine_d : Engine
engine_d = record engine_n { keydir = Keydir.new }

abbrev LacksA : Engine → Type 0
LacksA e = view e key_a ≡ none

other_delete-LacksA : (key : Bytes) (e : Engine) → LacksA e → LacksA (other_delete key e)
unfolding view
other_delete-LacksA key e h = rw (get-remove e.keydir key_a key_a) refl

view_d : view engine_d key_a ≡ none
unfolding view Keydir.get lookup
view_d = refl

-- The copied entry is no longer the key's, and the key does not come back.
repoint_all-stable_example :
    view (repoint_all other_delete ((key_a, place_a, place_b) ∷ []) engine_d) key_a ≡ none
repoint_all-stable_example =
    repoint_all-stable other_delete LacksA (λ e e' same h. same.at key_a ∙ h) other_delete-LacksA
      (λ key e. Extends-refl e.world) ((key_a, place_a, place_b) ∷ []) engine_d (repoint_a, tt)
      view_d
