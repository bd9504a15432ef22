-- ===== src/Lock.antt =====
-- src/lock.rs: the lock of a directory. The lock itself is the operating system's, by the crate fs2:
-- whether another handle has it is a parameter. The handle that took it keeps it in a field.
use yabiir.Base.{Bool, true, false, Option, none, some, if◌then◌else◌}
use yabiir.Error.{already_locked}
use yabiir.Io.{Exec, pure, raise, ◌>>◌}
use yabiir.Io.Disk.{World, syscall}

-- The locked file: who has it has the lock, and gives it back with it.
pub data DirLock : Type 0 where
  dir_lock : DirLock

-- Whether that is a lock.
abbrev pub is_locked : Option DirLock → Bool
is_locked none = false
is_locked (some lock) = true

-- The lock file is created, and then locked if it is free.
unfoldable pub acquire : Bool → Exec World DirLock
acquire is_held = syscall >> (if is_held then raise already_locked else pure dir_lock)
