-- ===== src/Tests/Writes.antt =====
-- The theorems on a store where no call fails, at concrete inputs.
use mathlib.Core.Path.{subst}
use yabiir.Base.{
  ◌≡◌, ◌≢◌, refl, true, false, Bool-cases, inl, inr, Option, none, some, [], ◌∷◌, ◌++◌, Bytes,
  Bytes, bytes_eq, if◌then◌else◌, ==-ne, arith,
}
use yabiir.Base.Map.{nat_eq, lookup}
use yabiir.Keydir
use yabiir.Keydir.{Keydir, KeydirEntry}
use yabiir.Keydir.Laws.{get-insert}
use yabiir.Commit
use yabiir.Lock.{dir_lock}
use yabiir.Engine.{Engine, default_options, as_read_only, put, delete, get, commit_rounds}
use yabiir.Engine.Folds.{FoldsAll, fold_lem}
use yabiir.Keydir.Snapshot.{insert-IsUnique_lem}
use yabiir.Engine.View.{view, stored, stored_at}
use yabiir.Engine.Writes.{Ready}
use yabiir.Io.{full, fail}
use yabiir.Engine.Syncs.{Commits, commit_rounds_lem}
use yabiir.Engine.Refines.{Healthy, CanWrite, IsSound, Implements, Logs, appended_if}
use yabiir.Format.Entry.{encode_entry}
use yabiir.Engine.Puts.{put-Implements}
use yabiir.Engine.Deletes.{delete-Implements}
use yabiir.Engine.Gets.{Readable, Answers, get-Answers}
use yabiir.Tests.{toy_crc32, key_a, key_b, value_a}
use yabiir.Tests.Store.{keydir_a, entry_1}

-- One key, and every write is synced and rotates the active file.
abbrev engine_b : Engine
engine_b = record {
  world = record { data_files = (4, value_a) ∷ []; hint_files = []; plan = [] };
  keydir = keydir_a;
  readers = [];
  active = some (record { file_id = 4; buffer = []; offset = 3 });
  group_commit = Commit.new;
  next_file_id = 5;
  opts = record { is_read_write = true; should_sync_on_put = true; max_file_size = 10 };
  write_lock = some dir_lock;
}

engine_b-Ready : Ready engine_b 4 value_a
unfolding lookup
engine_b-Ready = record {
  file = refl;
  there = refl;
  older = omega arith;
  free = λ j h. rw (==-ne 4 j (omega arith)) refl;
  calm = tt;
}

entry_1-stored : stored engine_b.world entry_1 ≡ some value_a
unfolding stored lookup
entry_1-stored = refl

get_new : (k : Bytes) (entry : KeydirEntry) → Keydir.get Keydir.new k ≢ some entry
unfolding Keydir.get lookup
get_new k entry h = cc

engine_b-IsSound : IsSound engine_b
engine_b-IsSound k entry h = elim (Bool-cases (bytes_eq key_a k)) [
  | inl same ↦
      let found : some entry_1 ≡ some entry =
        rw (get-insert Keydir.new key_a k entry_1, same) at h in
      (
        value_a,
        subst (λ (o : Option KeydirEntry). stored_at engine_b.world o ≡ some value_a) found
            entry_1-stored,
      )
  | inr other ↦
      let found : Keydir.get Keydir.new k ≡ some entry =
        rw (get-insert Keydir.new key_a k entry_1, other) at h in
      absurd (get_new k entry found)
]

engine_b-Healthy : Healthy engine_b
engine_b-Healthy = record {
  usable = record { id = 4; content = value_a; ready = engine_b-Ready; idle = refl };
  sound = engine_b-IsSound;
}

engine_b-CanWrite : CanWrite engine_b
engine_b-CanWrite = record {
  is_writer = refl;
  room = record { ids = omega arith; generations = omega arith };
}

put-Implements_example :
    Implements
      (put toy_crc32 key_b value_a 6)
      engine_b
      (λ j. if bytes_eq key_b j then some value_a else view engine_b j)
    × ((more : Bytes) × Logs
          (put toy_crc32 key_b value_a 6 engine_b).1
          engine_b-Healthy.usable.id
          engine_b-Healthy.usable.content
          ((encode_entry toy_crc32 key_b value_a false 6).bytes ++ more))
put-Implements_example =
    put-Implements toy_crc32 6 engine_b-Healthy engine_b-CanWrite (omega arith) value_a
      (record { key_fits = omega arith; value_fits = omega arith; tstamp_fits = omega arith })

delete-Implements_example :
    Implements
      (delete toy_crc32 key_a 6)
      engine_b
      (λ j. if bytes_eq key_a j then none else view engine_b j)
    × ((more : Bytes) × Logs
          (delete toy_crc32 key_a 6 engine_b).1
          engine_b-Healthy.usable.id
          engine_b-Healthy.usable.content
          (appended_if
            (Keydir.get engine_b.keydir key_a)
            (encode_entry toy_crc32 key_a [] true 6).bytes
            more))
delete-Implements_example =
    delete-Implements toy_crc32 6 engine_b-Healthy engine_b-CanWrite (omega arith)
      (record { key_fits = omega arith; value_fits = omega arith; tstamp_fits = omega arith })

-- The same store, opened only to be read.
abbrev engine_r : Engine
engine_r = record engine_b { active = none; opts = as_read_only default_options; write_lock = none }

engine_r-Readable : Readable engine_r
engine_r-Readable = record { sound = engine_b-Healthy.sound; calm = tt }

get-Answers_example : Answers (get key_a) engine_r (view engine_r key_a)
get-Answers_example = get-Answers key_a engine_r-Readable

abbrev join : Bytes → Bytes → Bytes → Bytes
join key value acc = key ++ (value ++ acc)

fold_lem_example : FoldsAll join [] engine_r
fold_lem_example =
    fold_lem join [] engine_r engine_r-Readable (insert-IsUnique_lem Keydir.new key_a entry_1 tt)

-- One write is recorded and not durable, and `sync_data` is to fail.
abbrev engine_c : Engine
engine_c = record engine_b {
  world = record { data_files = (4, value_a) ∷ []; hint_files = []; plan = full ∷ fail 0 ∷ [] };
  group_commit = record { pending_writes = 1; max_durable_generation = 0; is_syncing = false };
}

commit_rounds_lem_example : Commits false engine_c (commit_rounds 2 1 engine_c)
commit_rounds_lem_example =
    commit_rounds_lem engine_c (record { file_id = 4; buffer = []; offset = 3 }) refl refl 1
      (omega arith) refl (omega arith)
