-- ===== src/Datafile.antt =====
-- src/datafile.rs: the active file with its buffered writer, and reads of data files.
pub mod Grows
pub mod Held
pub mod Outputs
pub mod Stays
pub mod Names
pub mod Appends
pub mod Reads
use yabiir.Base.{
  ℕ, ◌+◌, ◌-◌, Bool, true, false, Option, none, some, List, [], ◌∷◌, ◌++◌, Bytes, length, take,
  drop, ltb, leb, ◌==◌, if◌then◌else◌, ◌||◌,
}
use yabiir.Base.Map
use yabiir.Base.Map.{nat_eq}
use yabiir.Error.{Result, io}
use yabiir.Io.{Exec, pure, raise, ◌>>=◌, ◌>>◌}
use yabiir.Io.Disk.{
  World, next_outcome, written, write_data, syscall, create_data, data_len, open_data,
}
use yabiir.Format.Entry.{EncodedEntry}

-- `buffer` is what the `BufWriter` has not written yet, and `offset` where the next entry starts.
pub record ActiveFile : Type 0 where
  pub file_id : ℕ
  pub buffer : Bytes
  pub offset : ℕ

pub record Writing : Type 0 where
  pub world : World
  pub file : ActiveFile

-- The capacity of a `BufWriter::new`.
abbrev pub buffer_capacity : ℕ
buffer_capacity = 8192

abbrev pub on_world : {A : Type 0} → Exec World A → Exec Writing A
on_world m s = ((m s.world).0, record s { world = (m s.world).1 })

abbrev pub push : Bytes → Exec Writing (Unit {0})
push bytes s = pure tt (record s { file = record s.file { buffer = s.file.buffer ++ bytes } })

-- What a write that fails did write leaves the buffer.
unfoldable pub flush_buffer : Exec Writing (Unit {0})
flush_buffer s = (
  (write_data s.file.file_id s.file.buffer s.world).0,
  record {
    world = (write_data s.file.file_id s.file.buffer s.world).1;
    file = record s.file {
      buffer = drop (length (written s.file.buffer (next_outcome s.world.plan).0)) s.file.buffer;
    };
  },
)

-- `BufWriter::flush`
unfoldable pub flush : Exec Writing (Unit {0})
flush s = if length s.file.buffer == 0 then pure tt s else flush_buffer s

unfoldable pub flush_if : Bool → Exec Writing (Unit {0})
flush_if true = flush
flush_if false = pure tt

unfoldable pub write_or_push : Bool → Bytes → Exec Writing (Unit {0})
write_or_push true bytes s = on_world (write_data s.file.file_id bytes) s
write_or_push false bytes s = push bytes s

unfoldable pub write_cold : Bool → Bytes → Exec Writing (Unit {0})
write_cold no_room bytes =
    flush_if no_room >> write_or_push (leb buffer_capacity (length bytes)) bytes

-- `BufWriter::write_all`: bytes that do not fit behind those in the buffer make it flush first, and
-- bytes that fill a buffer by themselves go past it.
unfoldable pub write_all : Bytes → Exec Writing (Unit {0})
write_all bytes s =
    let spare = buffer_capacity - length s.file.buffer in
    if ltb (length bytes) spare then push bytes s else write_cold (ltb spare (length bytes)) bytes s

-- The file's id, the position of the value, and the length of the entry.
abbrev pub Written : Type 0
Written = ℕ × ℕ × ℕ

unfoldable pub advance : EncodedEntry → Exec Writing Written
advance encoded s =
    let total_len = length encoded.bytes in
    pure (s.file.file_id, s.file.offset + (total_len - encoded.value_len), total_len)
      (record s { file = record s.file { offset = s.file.offset + total_len } })

unfoldable pub write_unflushed : EncodedEntry → Exec Writing Written
write_unflushed encoded = write_all encoded.bytes >> advance encoded

unfoldable pub append : EncodedEntry → Exec Writing Written
append encoded = write_unflushed encoded >>= λ result. flush >> pure result

unfoldable pub append_buffered : EncodedEntry → Exec Writing Written
append_buffered = write_unflushed

unfoldable pub sync : Exec Writing (Unit {0})
sync = flush >> on_world syscall

-- `try_clone` of the descriptor; the caller syncs through it.
unfoldable pub sync_handle : Exec Writing (Unit {0})
sync_handle = flush >> on_world syscall

abbrev pub len : Exec Writing ℕ
len s = pure s.file.offset s

-- A file that is there is resumed at its end. `try_clone` opens the handle for reading.
unfoldable pub create : ℕ → Exec World ActiveFile
create file_id = create_data file_id >> data_len file_id >>= λ offset.
    syscall >> pure (record { file_id = file_id; buffer = []; offset = offset })

-- `read_exact_at`: all bytes or an error; no call is made for an empty buffer.
unfoldable pub pread_exact : Bytes → ℕ → ℕ → Exec World Bytes
pread_exact bytes pos len =
    if len == 0
    then pure []
    else syscall
      >> (if leb (pos + len) (length bytes) then pure (take len (drop pos bytes)) else raise io)

-- `DataFileSet`: the files of the directory, and the ids of those with a cached handle.
pub record DataFileSet : Type 0 where
  pub world : World
  pub readers : List ℕ

unfoldable pub is_cached : ℕ → List ℕ → Bool
is_cached id [] = false
is_cached id (reader ∷ readers) = reader == id || is_cached id readers

abbrev contents : Option Bytes → Bytes
contents none = []
contents (some bytes) = bytes

abbrev pub on_files : {A : Type 0} → Exec World A → Exec DataFileSet A
on_files m s = ((m s.world).0, record s { world = (m s.world).1 })

-- The handle, opened and cached if it is not yet. A cached handle reads the file that it was opened
-- on, which nothing but `forget` and the removal before it takes away.
unfoldable pub handle : Bool → ℕ → Exec DataFileSet Bytes
handle true id s = pure (contents (Map.lookup id s.world.data_files)) s
handle false id s =
    (on_files (open_data id) >>= λ bytes t. pure bytes (record t { readers = id ∷ t.readers })) s

unfoldable pub read_at : ℕ → ℕ → ℕ → Exec DataFileSet Bytes
read_at id pos len s =
    (handle (is_cached id s.readers) id >>= λ bytes. on_files (pread_exact bytes pos len)) s

unfoldable pub without : ℕ → List ℕ → List ℕ
without id [] = []
without id (reader ∷ readers) =
    let rest = without id readers in if reader == id then rest else reader ∷ rest

unfoldable pub forget : ℕ → DataFileSet → DataFileSet
forget id s = record s { readers = without id s.readers }

-- `sort_unstable` on the ids.
unfoldable pub insert_sorted : ℕ → List ℕ → List ℕ
insert_sorted id [] = id ∷ []
insert_sorted id (j ∷ ids) = if leb id j then id ∷ j ∷ ids else j ∷ insert_sorted id ids

unfoldable pub sort : List ℕ → List ℕ
sort [] = []
sort (id ∷ ids) = insert_sorted id (sort ids)

abbrev pub ids : List (ℕ × Bytes) → List ℕ
ids [] = []
ids ((id, bytes) ∷ files) = id ∷ ids files

-- The ids of all data files, ascending. The entries of a directory come in any order.
unfoldable pub discover : Exec World (List ℕ)
discover = syscall >> λ w. pure (sort (ids w.data_files)) w
