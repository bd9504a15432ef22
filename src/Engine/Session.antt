-- ===== src/Engine/Session.antt =====
-- src/engine.rs: opening, syncing and closing a store.
pub mod Exclusive
pub mod Fresh
pub mod Synced
use yabiir.Base.{ℕ, ◌+◌, ◌%◌, Bool, true, false, Option, none, some, List, [], ◌∷◌}
use yabiir.Crc32.{Crc32}
use yabiir.Io.{Exec, pure, ◌>>=◌, ◌>>◌}
use yabiir.Io.Disk.{World, syscall}
use yabiir.Format.{u32_mod}
use yabiir.Keydir
use yabiir.Commit
use yabiir.Lock.{DirLock, is_locked, acquire}
use yabiir.Datafile
use yabiir.Datafile.{ActiveFile}
use yabiir.Recovery.{recover}
use yabiir.Engine.{Engine, Options, on_active}

-- A handle that only reads takes no lock.
unfoldable pub take_lock : Bool → Bool → Exec World (Option DirLock)
take_lock true is_held = acquire is_held >>= λ lock. pure (some lock)
take_lock false is_held = pure none

abbrev pub last : List ℕ → Option ℕ
last [] = none
last (id ∷ []) = some id
last (id ∷ j ∷ ids) = last (j ∷ ids)

-- The id above those on disk; at the end of `u32` it wraps around.
abbrev pub next_id : Option ℕ → ℕ
next_id none = 0
next_id (some id) = (id + 1) % u32_mod

unfoldable pub open_active : Bool → ℕ → Exec World (Option ActiveFile)
open_active true next = Datafile.create next >>= λ file. pure (some file)
open_active false next = pure none

module _ {Hasher : Type 0} (crc32 : Crc32 Hasher) where
  -- The calls are those on the directory, the lock, the files, and the new active file.
  unfoldable pub open_engine : Options → Bool → Exec World Engine
  open_engine opts is_held = syscall >> take_lock opts.is_read_write is_held >>= λ lock.
      Datafile.discover >>= λ file_ids. recover crc32 file_ids Keydir.new >>= λ keydir.
      open_active opts.is_read_write (next_id (last file_ids)) >>= λ active w.
      pure
        (record {
          world = w;
          keydir = keydir;
          readers = [];
          active = active;
          group_commit = Commit.new;
          next_file_id = (next_id (last file_ids) + 1) % u32_mod;
          opts = opts;
          write_lock = lock;
        })
        w

-- A handle that only reads has nothing to sync.
unfoldable pub sync_active : Option ActiveFile → Exec Engine (Unit {0})
sync_active none = pure tt
sync_active (some file) = on_active Datafile.sync

unfoldable pub sync : Exec Engine (Unit {0})
sync e = sync_active e.active e

-- The handle is gone afterwards, and with it the lock, whether the sync fails or not.
unfoldable pub close : Exec Engine (Unit {0})
close e = let synced = sync_active e.active e in (synced.0, record synced.1 { write_lock = none })

-- Whether a handle has the lock of the directory.
abbrev pub holds_lock : Engine → Bool
holds_lock e = is_locked e.write_lock
