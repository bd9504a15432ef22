-- ===== src/Datafile/Appends.antt =====
-- src/datafile.rs: what an append, a sync and a new file leave behind where no call fails.
use yabiir.Base.{
  ℕ, ◌+◌, ◌-◌, ◌<◌, ◌≡◌, refl, Bool, true, false, none, some, List, [], ◌∷◌, ◌++◌, Bytes, length,
  length-append, ltb, leb, arith, Bool-cases, inl, inr, drop-eq_of_le, ==-ne, ==-refl,
}
use yabiir.Base.Map
use yabiir.Base.Map.{nat_eq, lookup-cons}
use yabiir.Error.{Result, ok}
use yabiir.Io.{Exec, Outcome, full, part, fail, pure, ◌>>=◌}
use yabiir.Io.Read.Laws.{NoFault}
use yabiir.Io.Disk.{
  World, next_outcome, settle, written, syscall, write_data, create_data, data_len,
}
use yabiir.Format.Entry.{EncodedEntry}
use yabiir.Datafile.{
  ActiveFile, Writing, Written, on_world, flush, flush_buffer, flush_if, write_or_push, write_cold,
  write_all, advance, write_unflushed, append, sync, sync_handle, create, buffer_capacity,
}

-- The next call is done in full.
record IsCalm (plan : List Outcome) : Type 0 where
  settles : (w : World) → settle (next_outcome plan).0 w ≡ (ok tt, w)
  whole : (bytes : Bytes) → written bytes (next_outcome plan).0 ≡ bytes
  later : NoFault (next_outcome plan).1

NoFault-IsCalm : (plan : List Outcome) → NoFault plan → IsCalm plan
NoFault-IsCalm [] h = record { settles = λ w. refl; whole = λ b. refl; later = tt }
NoFault-IsCalm (full ∷ plan) h = record { settles = λ w. refl; whole = λ b. refl; later = h.1 }
NoFault-IsCalm (part k ∷ plan) h = record { settles = λ w. refl; whole = λ b. refl; later = h.1 }
NoFault-IsCalm (fail k ∷ plan) h = absurd h.0

-- The result of an action on a file: what it returns, the file, and the data files.
pub record Leaves {A : Type 0} (after : Result A × Writing) (a : A) (file : ActiveFile)
    (data_files hint_files : List (ℕ × Bytes)) : Type 0 where
  pub result : after.0 ≡ ok a
  pub file_lem : after.1.file ≡ file
  pub data_lem : after.1.world.data_files ≡ data_files
  pub hint_lem : after.1.world.hint_files ≡ hint_files
  pub calm : NoFault after.1.world.plan

pub Leaves-bind :
    {A B : Type 0} (m : Exec Writing A) (f : A → Exec Writing B) {s : Writing} {a : A} {b : B}
    {file file' : ActiveFile} {files hints files' hints' : List (ℕ × Bytes)}
    → Leaves (m s) a file files hints
    → Leaves (f a (m s).1) b file' files' hints'
    → Leaves ((m >>= f) s) b file' files' hints'
Leaves-bind m f p q = rw (p.result) q

-- A file with nothing in its buffer.
abbrev pub start : World → ℕ → ℕ → Writing
start w id offset = record {
  world = w;
  file = record { file_id = id; buffer = []; offset = offset };
}

module _ (w : World) (id : ℕ) (old : Bytes) (calm : NoFault w.plan)
    (there : Map.lookup id w.data_files ≡ some old) where
  write_data-Leaves :
      (bytes : Bytes) (file : ActiveFile)
      → Leaves
          (on_world (write_data id bytes) (record { world = w; file = file }))
          tt
          file
          (Map.insert id (old ++ bytes) w.data_files)
          w.hint_files
  unfolding write_data
  write_data-Leaves bytes file =
      let next = NoFault-IsCalm w.plan calm in
      rw (there, next.settles, next.whole)
        (record {
          result = refl;
          file_lem = refl;
          data_lem = refl;
          hint_lem = refl;
          calm = next.later;
        })

  flush_buffer-Leaves :
      (bytes : Bytes) (offset : ℕ)
      → Leaves
          (flush_buffer
            (record { world = w; file = record { file_id = id; buffer = bytes; offset = offset } }))
          tt
          (record { file_id = id; buffer = []; offset = offset })
          (Map.insert id (old ++ bytes) w.data_files)
          w.hint_files
  unfolding flush_buffer
  flush_buffer-Leaves bytes offset =
      let next = NoFault-IsCalm w.plan calm in
      let base = write_data-Leaves bytes (start w id offset).file in
      record {
        result = base.result;
        file_lem = rw (next.whole, drop-eq_of_le (length bytes) bytes (omega arith)) refl;
        data_lem = base.data_lem;
        hint_lem = base.hint_lem;
        calm = base.calm;
      }

  flush-Leaves :
      (bytes : Bytes) (offset : ℕ)
      → 0 < length bytes
      → Leaves
          (flush
            (record { world = w; file = record { file_id = id; buffer = bytes; offset = offset } }))
          tt
          (record { file_id = id; buffer = []; offset = offset })
          (Map.insert id (old ++ bytes) w.data_files)
          w.hint_files
  unfolding flush
  flush-Leaves bytes offset h =
      rw (==-ne (length bytes) 0 (omega arith)) (flush_buffer-Leaves bytes offset)

pub flush_empty :
    (w : World) (id offset : ℕ) → flush (start w id offset) ≡ (ok tt, start w id offset)
unfolding flush
flush_empty w id offset = refl

flush_if_empty :
    (b : Bool) (w : World) (id offset : ℕ)
    → flush_if b (start w id offset) ≡ (ok tt, start w id offset)
unfolding flush_if
flush_if_empty true w id offset = flush_empty w id offset
flush_if_empty false w id offset = refl

module _ (w : World) (id offset : ℕ) (old : Bytes) (calm : NoFault w.plan)
    (there : Map.lookup id w.data_files ≡ some old) (encoded : EncodedEntry)
    (some_bytes : 0 < length encoded.bytes) where
  abbrev written_at : Written
  written_at = (id, offset + (length encoded.bytes - encoded.value_len), length encoded.bytes)

  abbrev file_after : ActiveFile
  file_after = record { file_id = id; buffer = []; offset = offset + length encoded.bytes }

  -- An entry that fits the buffer stays there until it is flushed.
  append-small :
      ltb (length encoded.bytes) buffer_capacity ≡ true
      → Leaves
          (append encoded (start w id offset))
          written_at
          file_after
          (Map.insert id (old ++ encoded.bytes) w.data_files)
          w.hint_files
  unfolding append write_unflushed write_all advance
  append-small h =
      let flushed =
        flush-Leaves w id old calm there encoded.bytes (offset + length encoded.bytes) some_bytes in
      rw h (
        Leaves-bind flush (λ _. pure written_at) flushed
          (record {
            result = refl;
            file_lem = flushed.file_lem;
            data_lem = flushed.data_lem;
            hint_lem = flushed.hint_lem;
            calm = flushed.calm;
          }))

  -- A larger one goes past the buffer.
  append-large :
      ltb (length encoded.bytes) buffer_capacity ≡ false
      → Leaves
          (append encoded (start w id offset))
          written_at
          file_after
          (Map.insert id (old ++ encoded.bytes) w.data_files)
          w.hint_files
  unfolding append write_unflushed write_all write_cold write_or_push advance flush
  append-large h =
      let base = write_data-Leaves w id old calm there encoded.bytes (start w id offset).file in
      let full_size : leb buffer_capacity (length encoded.bytes) ≡ true = ground arith in
      rw (h, flush_if_empty, full_size, base.result)
        (record {
          result = refl;
          file_lem = refl;
          data_lem = base.data_lem;
          hint_lem = base.hint_lem;
          calm = base.calm;
        })

  append_at :
      Leaves
        (append encoded (start w id offset))
        written_at
        file_after
        (Map.insert id (old ++ encoded.bytes) w.data_files)
        w.hint_files
  append_at = elim (Bool-cases (ltb (length encoded.bytes) buffer_capacity)) [
    | inl small ↦ append-small small
    | inr large ↦ append-large large
  ]

-- Where no call fails, the file is there, its buffer is empty and its offset is the length of the
-- file, `append` of an entry that is not empty puts it behind what is in the file, whole and flushed.
-- It returns the file's id, the offset in the file at which the last `value_len` bytes of the entry
-- stand, and the entry's length. The offset is the length of the file again, and no other file is changed.
pub append_lem :
    (w : World) (id : ℕ) (old : Bytes)
    → NoFault w.plan
    → Map.lookup id w.data_files ≡ some old
    → (encoded : EncodedEntry) → 0 < length encoded.bytes
    → Leaves
        (append encoded (start w id (length old)))
        (id, length old + (length encoded.bytes - encoded.value_len), length encoded.bytes)
        (record { file_id = id; buffer = []; offset = length (old ++ encoded.bytes) })
        (Map.insert id (old ++ encoded.bytes) w.data_files)
        w.hint_files
append_lem w id old calm there encoded some_bytes =
    rw length-append (append_at w id (length old) old calm there encoded some_bytes)

-- A call that changes nothing, and an empty buffer to flush.
module _ (w : World) (id offset : ℕ) (calm : NoFault w.plan) where
  syscall-Leaves :
      Leaves
        (on_world syscall (start w id offset))
        tt
        (start w id offset).file
        w.data_files
        w.hint_files
  unfolding syscall
  syscall-Leaves =
      let next = NoFault-IsCalm w.plan calm in
      rw next.settles (record {
        result = refl;
        file_lem = refl;
        data_lem = refl;
        hint_lem = refl;
        calm = next.later;
      })

  pub sync_lem :
      Leaves (sync (start w id offset)) tt (start w id offset).file w.data_files w.hint_files
  unfolding sync
  sync_lem = rw flush_empty syscall-Leaves

  pub sync_handle_lem :
      Leaves (sync_handle (start w id offset)) tt (start w id offset).file w.data_files w.hint_files
  unfolding sync_handle
  sync_handle_lem = rw flush_empty syscall-Leaves

-- A new file is empty, and no other file changes.
pub create_lem :
    (w : World) (id : ℕ)
    → NoFault w.plan
    → Map.lookup id w.data_files ≡ none
    → ((create id w).0 ≡ ok (record { file_id = id; buffer = []; offset = 0 }))
      × ((create id w).1.data_files ≡ (id, []) ∷ w.data_files)
      × ((create id w).1.hint_files ≡ w.hint_files)
      × NoFault (create id w).1.plan
unfolding create create_data data_len syscall
create_lem w id calm fresh =
    let first = NoFault-IsCalm w.plan calm in
    let second = NoFault-IsCalm (next_outcome w.plan).1 first.later in
    let third = NoFault-IsCalm (next_outcome (next_outcome w.plan).1).1 second.later in
    rw (first.settles, fresh, second.settles, lookup-cons, ==-refl id, third.settles)
      (refl, refl, refl, third.later)
