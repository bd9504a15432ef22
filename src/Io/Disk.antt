-- ===== src/Io/Disk.antt =====
-- `std::fs` on the directory of a datastore: data files and hint files by their id, and the outcomes
-- of the calls to come. The names of the files stand in src/datafile.rs; here a file is its id.
-- A write through a handle is appended to the file. Without a fault nothing is lost; what a power
-- cut loses is not modelled, so `sync_data` only succeeds or fails.
use yabiir.Base.{ℕ, Bool, true, false, Option, none, some, List, [], ◌∷◌, ◌++◌, Bytes, length, take}
use yabiir.Base.Map
use yabiir.Base.Map.{nat_eq}
use yabiir.Error.{Result, ok, err, io}
use yabiir.Io.{Exec, Outcome, full, part, fail, pure, raise, ◌>>◌}
use yabiir.Io.Read.{Reader}

pub record World : Type 0 where
  pub data_files : List (ℕ × Bytes)
  pub hint_files : List (ℕ × Bytes)
  pub plan : List Outcome

-- The outcome of the next call, and the outcomes after it.
abbrev pub next_outcome : List Outcome → Outcome × List Outcome
next_outcome [] = (full, [])
next_outcome (outcome ∷ plan) = (outcome, plan)

abbrev pub settle : Outcome → World → Result (Unit {0}) × World
settle full w = (ok tt, w)
settle (part k) w = (ok tt, w)
settle (fail k) w = (err io, w)

-- A call that changes nothing by itself: opening, metadata, `sync_data`.
unfoldable pub syscall : Exec World (Unit {0})
syscall w = settle (next_outcome w.plan).0 (record w { plan = (next_outcome w.plan).1 })

abbrev pub found : Option Bytes → Exec World Bytes
found none = raise io
found (some bytes) = pure bytes

-- `File::open` for reading gives the contents; a missing file is an error.
unfoldable pub open_data : ℕ → Exec World Bytes
open_data id = syscall >> λ w. found (Map.lookup id w.data_files) w

-- `fs::read` of a hint file.
unfoldable pub read_hint_file : ℕ → Exec World Bytes
read_hint_file id = syscall >> λ w. found (Map.lookup id w.hint_files) w

-- `Path::exists` answers false where the call fails.
abbrev pub is_there : Option Bytes → Result (Unit {0}) → Bool
is_there (some bytes) (ok _) = true
is_there o r = false

unfoldable pub hint_exists : ℕ → Exec World Bool
hint_exists id w = (ok (is_there (Map.lookup id w.hint_files) (syscall w).0), (syscall w).1)

-- A reader over an open file takes its outcomes from those of the world.
abbrev pub reading : {A : Type 0} → Bytes → Exec Reader A → Exec World A
reading bytes m w =
    let after = m (record { rest = bytes; plan = w.plan }) in
    (after.0, record w { plan = after.1.plan })

-- A reader over bytes in memory, `io::Cursor`: each of its reads is done in full.
abbrev pub in_memory : {A : Type 0} → Bytes → Exec Reader A → Exec World A
in_memory bytes m w = ((m (record { rest = bytes; plan = [] })).0, w)

-- What a write of the bytes leaves behind: `write_all` retries short writes.
abbrev pub append_to : ℕ → Bytes → Option Bytes → World → World
append_to id bytes none w = w
append_to id bytes (some old) w = record w {
  data_files = Map.insert id (old ++ bytes) w.data_files;
}

-- The bytes written, if the call succeeds or not.
abbrev pub written : Bytes → Outcome → Bytes
written bytes (fail k) = take k bytes
written bytes full = bytes
written bytes (part k) = bytes

-- `write_all` on a data file opened for appending.
unfoldable pub write_data : ℕ → Bytes → Exec World (Unit {0})
write_data id bytes w =
    let outcome = (next_outcome w.plan).0 in
    settle outcome (record (append_to id (written bytes outcome) (Map.lookup id w.data_files) w) {
      plan = (next_outcome w.plan).1;
    })

abbrev pub create_missing : ℕ → Option Bytes → World → World
create_missing id none w = record w { data_files = (id, []) ∷ w.data_files }
create_missing id (some bytes) w = w

-- `OpenOptions::new().create(true).append(true)` keeps a file that is there.
unfoldable pub create_data : ℕ → Exec World (Unit {0})
create_data id = syscall >> λ w. pure tt (create_missing id (Map.lookup id w.data_files) w)

abbrev pub length_of : Option Bytes → ℕ
length_of none = 0
length_of (some bytes) = length bytes

-- `metadata()?.len()`
unfoldable pub data_len : ℕ → Exec World ℕ
data_len id = syscall >> λ w. pure (length_of (Map.lookup id w.data_files)) w

abbrev pub append_hint_to : ℕ → Bytes → Option Bytes → World → World
append_hint_to id bytes none w = w
append_hint_to id bytes (some old) w = record w {
  hint_files = Map.insert id (old ++ bytes) w.hint_files;
}

-- `write_all` on a hint file.
unfoldable pub write_hint : ℕ → Bytes → Exec World (Unit {0})
write_hint id bytes w =
    let outcome = (next_outcome w.plan).0 in
    settle outcome
      (record (append_hint_to id (written bytes outcome) (Map.lookup id w.hint_files) w) {
        plan = (next_outcome w.plan).1;
      })

-- `File::create` empties a file that is there.
unfoldable pub create_hint : ℕ → Exec World (Unit {0})
create_hint id = syscall >> λ w. pure tt (record w { hint_files = Map.insert id [] w.hint_files })

abbrev pub removed_data : Option Bytes → ℕ → Exec World (Unit {0})
removed_data none id w = raise io w
removed_data (some bytes) id w = pure tt (record w { data_files = Map.remove id w.data_files })

abbrev pub removed_hint : Option Bytes → ℕ → Exec World (Unit {0})
removed_hint none id w = raise io w
removed_hint (some bytes) id w = pure tt (record w { hint_files = Map.remove id w.hint_files })

-- `fs::remove_file`; a missing file is an error.
unfoldable pub remove_data : ℕ → Exec World (Unit {0})
remove_data id = syscall >> λ w. removed_data (Map.lookup id w.data_files) id w

unfoldable pub remove_hint : ℕ → Exec World (Unit {0})
remove_hint id = syscall >> λ w. removed_hint (Map.lookup id w.hint_files) id w
