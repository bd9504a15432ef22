-- ===== src/Lib.antt =====
-- yabiir, a Bitcask key/value store: the files of a datastore, the keydir that points into them,
-- recovery, and the store's operations.
--
-- A datastore is a directory of data files, each a sequence of entries (checksum, timestamp, key,
-- value). `put` and `delete` append an entry to the active file and then change the keydir, the map
-- from a key to the place of its value; `get` reads the value at that place. The active file is
-- rotated at a size, and an fsync may be shared by the writers that wait for it. Recovery makes the
-- keydir from the files again, from a hint file where one is valid and from the entries otherwise.
--
-- Base        lists, Boolean tests, bits, and maps with lawful keys
-- Error       src/error.rs
-- Io          the calls to the operating system: an action on a state returns a result and the
--             state, which stays what it was up to the failure; a list of outcomes decides what each
--             call does (Io/Read for `std::io::Read` and `read_up_to` of src/format/mod.rs, Io/Disk
--             for the files of a directory)
-- Crc32       the crate crc32fast, a parameter, with its documented behaviour
-- Format      src/format: the header words (Format), entries (Format/Entry) and hint records
--             (Format/Hint)
-- Keydir      src/keydir.rs: `Keydir` and `SharedKeydir`; each call under the lock is one step
-- Recovery    src/recovery.rs
-- Commit      src/commit.rs: what a thread does under the mutex, as functions of the state;
--             Commit/Threads has the interleavings of many threads, as lists of steps
-- Lock        src/lock.rs; whether another handle has the lock is a parameter, and a handle that
--             took it keeps it in its field `write_lock`
-- Datafile    src/datafile.rs: `ActiveFile` with its `BufWriter`, and `DataFileSet`; the names of the
--             files in Datafile/Names
-- Engine      src/engine.rs: `append`, `get`, `put`, `delete`, `list_keys` and `fold`, each from
--             start to end on one thread; Engine/Session has `open` (here
--             `open_engine`), `sync` and `close`
-- Merge       src/merge: `merge` copies the live entries of the files older than the active one into
--             new files, repoints the keydir once a copy is flushed, and removes the old files
--             (Merge/OutputWriter for the files it writes, Merge/PendingQueue for the repoints that
--             wait)
-- Tests       the theorems at concrete inputs
--
-- Definitions have the names of the functions, methods and types they translate. A byte and an integer
-- are natural numbers; where the code casts to a `u32` the remainder is written out. The build is
-- 64-bit and a release build, so a `debug_assert!` does nothing. A mutex that is poisoned ends the
-- process, and is left out.
--
-- The loops run on fuel; a loop that runs out of it returns `blocked`, which no code returns, so that
-- a loop that does not end in the code does not end with a result here. `read_up_to n` has n + 1
-- rounds, since each round but the last reads a byte; the scan of a data file and of a hint file has a
-- round for each byte and one more, since each entry and record takes a byte at least; a commit on one
-- thread has two rounds, since its own fsync covers its write; the scan of a merge has the rounds of
-- the other scans.
--
-- Not modelled: what a power cut takes from a file that was not synced, threads that run at the
-- same time, but in the group commit and right before a repoint of a merge, metrics, warnings, and
-- the programs that use the store.
pub mod Base
pub mod Error
pub mod Io
pub mod Crc32
pub mod Format
pub mod Keydir
pub mod Lock
pub mod Recovery
pub mod Commit
pub mod Datafile
pub mod Engine
pub mod Merge
pub mod Tests
