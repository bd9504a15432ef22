-- ===== src/Engine.antt =====
-- src/engine.rs: the store, on one thread: each operation runs from start to end with no other in
-- between. `Instant` and the metrics record how long calls take; nothing depends on them.
pub mod View
pub mod Grows
pub mod Faults
pub mod Writes
pub mod Syncs
pub mod Appends
pub mod Refines
pub mod Puts
pub mod Deletes
pub mod Gets
pub mod Folds
pub mod Session
use yabiir.Base.{
  ℕ, zero, suc, ◌+◌, ◌*◌, ◌%◌, Bool, true, false, Option, none, some, List, [], ◌∷◌, Bytes, length,
  leb, ◌==◌, if◌then◌else◌, map,
}
use yabiir.Crc32.{Crc32}
use yabiir.Error.{Result, ok, err, blocked, read_only, empty_key, already_locked}
use yabiir.Io.{Exec, pure, raise, ◌>>=◌, ◌>>◌}
use yabiir.Io.Disk.{World, syscall}
use yabiir.Format.{u32_mod}
use yabiir.Format.Entry.{EncodedEntry, encode_entry}
use yabiir.Keydir
use yabiir.Keydir.{Keydir, KeydirEntry}
use yabiir.Commit
use yabiir.Lock.{DirLock}
use yabiir.Datafile
use yabiir.Datafile.{ActiveFile, Writing, DataFileSet}
use yabiir.Recovery.{recover}

-- `metrics` is left out.
pub record Options : Type 0 where
  pub is_read_write : Bool
  pub should_sync_on_put : Bool
  pub max_file_size : ℕ

abbrev pub default_options : Options
default_options = record {
  is_read_write = true;
  should_sync_on_put = false;
  max_file_size = 64 * 1024 * 1024;
}

abbrev pub as_read_only : Options → Options
as_read_only opts = record opts { is_read_write = false }

-- The directory and its path are the world; `open` takes the lock.
pub record Engine : Type 0 where
  pub world : World
  pub keydir : Keydir
  pub readers : List ℕ
  pub active : Option ActiveFile
  pub group_commit : Commit.State
  pub next_file_id : ℕ
  pub opts : Options
  pub write_lock : Option DirLock

unfoldable pub require_write : Exec Engine (Unit {0})
require_write e = (if e.opts.is_read_write then pure tt else raise read_only) e

-- Runs on the active file; a handle with none is read-only.
unfoldable pub on_file : {A : Type 0} → Option ActiveFile → Exec Writing A → Exec Engine A
on_file none m e = raise read_only e
on_file (some file) m e =
    let after = m (record { world = e.world; file = file }) in
    (after.0, record e { world = after.1.world; active = some after.1.file })

abbrev pub on_active : {A : Type 0} → Exec Writing A → Exec Engine A
on_active m e = on_file e.active m e

abbrev pub on_world : {A : Type 0} → Exec World A → Exec Engine A
on_world m e = ((m e.world).0, record e { world = (m e.world).1 })

abbrev pub on_files : {A : Type 0} → Exec DataFileSet A → Exec Engine A
on_files m e =
    let after = m (record { world = e.world; readers = e.readers }) in
    (after.0, record e { world = after.1.world; readers = after.1.readers })

abbrev pub record_pending : Exec Engine ℕ
record_pending e =
    pure (Commit.record_pending e.group_commit).1
      (record e { group_commit = (Commit.record_pending e.group_commit).0 })

abbrev pub mark_all_durable : Exec Engine (Unit {0})
mark_all_durable e = pure tt (record e { group_commit = Commit.mark_all_durable e.group_commit })

-- `fetch_add` wraps around.
unfoldable pub fetch_next_id : Exec Engine ℕ
fetch_next_id e = pure e.next_file_id (record e { next_file_id = (e.next_file_id + 1) % u32_mod })

-- What follows an append under the lock when the file has reached its size.
unfoldable pub rotate : Exec Engine (Unit {0})
rotate = on_active Datafile.sync >> mark_all_durable >> fetch_next_id >>= λ new_id.
    on_world (Datafile.create new_id) >>= λ file e. pure tt (record e { active = some file })

unfoldable pub rotate_if : Bool → Exec Engine (Unit {0})
rotate_if true = rotate
rotate_if false = pure tt

-- The closure that `append` gives to the group commit.
unfoldable pub do_fsync : Exec Engine (Unit {0})
do_fsync = on_active Datafile.sync_handle >> on_world syscall

abbrev pub succeeded : Result (Unit {0}) → Bool
succeeded (ok _) = true
succeeded (err e) = false
succeeded blocked = false

-- The leader's part of a round, from the fsync on; `again` is the next round.
unfoldable pub lead : ℕ → Exec Engine (Unit {0}) → Exec Engine (Unit {0})
lead covers_up_to again e =
    let synced = do_fsync e in
    let state = Commit.finish synced.1.group_commit covers_up_to (succeeded synced.0) in
    ((λ e'. (synced.0, e')) >> again) (record synced.1 { group_commit = state })

unfoldable pub take_turn : Commit.Turn → Exec Engine (Unit {0}) → Exec Engine (Unit {0})
take_turn Commit.returns again e = pure tt e
take_turn (Commit.leads covers_up_to) again e = lead covers_up_to again e
take_turn Commit.waits again e = (blocked, e)

-- `commit` on one thread: after a round as the leader the next round returns, so two are enough.
unfoldable pub commit_rounds : ℕ → ℕ → Exec Engine (Unit {0})
commit_rounds zero target_gen e = (blocked, e)
commit_rounds (suc rounds) target_gen e =
    let looked = Commit.check e.group_commit target_gen in
    take_turn looked.1 (commit_rounds rounds target_gen) (record e { group_commit = looked.0 })

unfoldable pub commit_if : Bool → ℕ → Exec Engine (Unit {0})
commit_if true target_gen = commit_rounds 2 target_gen
commit_if false target_gen = pure tt

-- What follows an append: rotation under the same lock, and the shared fsync after it.
unfoldable pub after_append : ℕ × ℕ → ℕ → ℕ → Exec Engine (ℕ × ℕ)
after_append place target_gen len e =
    (rotate_if (leb e.opts.max_file_size len)
        >> (commit_if e.opts.should_sync_on_put target_gen >> pure place))
      e

-- The file's id and the position of the value.
unfoldable pub append : EncodedEntry → Exec Engine (ℕ × ℕ)
append encoded = on_active (Datafile.append encoded) >>= λ written. record_pending >>= λ target_gen.
    on_active Datafile.len >>= after_append (written.0, written.1) target_gen

unfoldable pub read_value : KeydirEntry → Exec Engine Bytes
read_value entry = on_files (Datafile.read_at entry.file_id entry.value_pos entry.value_size)

unfoldable pub get_found : Option KeydirEntry → Exec Engine (Option Bytes)
get_found none = pure none
get_found (some entry) = read_value entry >>= λ value. pure (some value)

unfoldable pub get : Bytes → Exec Engine (Option Bytes)
get key e = get_found (Keydir.get e.keydir key) e

abbrev pub insert_entry : Bytes → KeydirEntry → Exec Engine (Unit {0})
insert_entry key entry e = pure tt (record e { keydir = Keydir.insert e.keydir key entry })

abbrev pub remove_entry : Bytes → Exec Engine (Unit {0})
remove_entry key e = pure tt (record e { keydir = (Keydir.remove e.keydir key).0 })

module _ {Hasher : Type 0} (crc32 : Crc32 Hasher) where
  unfoldable pub put : Bytes → Bytes → ℕ → Exec Engine (Unit {0})
  put key value timestamp =
      if length key == 0
      then raise empty_key
      else (require_write >> append (encode_entry crc32 key value false timestamp) >>= λ place.
          insert_entry key (record {
            file_id = place.0;
            value_size = length value % u32_mod;
            value_pos = place.1;
            timestamp = timestamp;
          }))

  unfoldable pub delete_found : Option KeydirEntry → Bytes → ℕ → Exec Engine (Unit {0})
  delete_found none key timestamp = pure tt
  delete_found (some entry) key timestamp =
      append (encode_entry crc32 key [] true timestamp) >> remove_entry key

  unfoldable pub delete : Bytes → ℕ → Exec Engine (Unit {0})
  delete key timestamp =
      if length key == 0
      then raise empty_key
      else (require_write >> λ e. delete_found (Keydir.get e.keydir key) key timestamp e)
