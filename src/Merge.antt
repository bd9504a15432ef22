-- ===== src/Merge.antt =====
-- src/merge/mod.rs: compaction. The live entries of all files but the active one are copied into new
-- files, the keydir is repointed, and the old files are removed. The metrics and the warnings are
-- left out; nothing depends on them.
pub mod PendingQueue
pub mod OutputWriter
pub mod Scan
pub mod Values
pub mod Repoints
pub mod Copies
pub mod Keeps
pub mod Moved
pub mod Progress
pub mod Handled
pub mod Cleared
pub mod Removal
pub mod Gone
pub mod NoLoss
pub mod Backed
pub mod Opened
use yabiir.Base.{
  ℕ, zero, suc, ◌+◌, max, Bool, true, false, ◌&&◌, Option, none, some, List, [], ◌∷◌, ◌++◌, Bytes,
  length, ltb, leb, ◌==◌, if◌then◌else◌,
}
use yabiir.Crc32.{Crc32}
use yabiir.Error.{Result, ok, err, blocked, read_only}
use yabiir.Io.{Exec, pure, continue, ◌>>=◌, ◌>>◌}
use yabiir.Io.Read.{Reader}
use yabiir.Io.Disk.{World, open_data, reading, remove_data, remove_hint}
use yabiir.Format.Entry.{Entry, EntryRead, header_size, is_tombstone, read_entry}
use yabiir.Keydir
use yabiir.Keydir.{Keydir, KeydirEntry, cas_repoint}
use yabiir.Datafile
use yabiir.Datafile.{ActiveFile, DataFileSet}
use yabiir.Engine
use yabiir.Engine.{Engine, on_active, on_world, require_write, rotate_if}
use PendingQueue
use PendingQueue.{Repoint}
use OutputWriter
use OutputWriter.{MergeOutputWriter, Output, Opening}

-- The loop of `read_all_entries`: the complete entries with a right checksum, each with its offset.
unfoldable pub read_next :
    Option EntryRead
    → ℕ
    → List (ℕ × Entry)
    → (ℕ → List (ℕ × Entry) → Exec Reader (List (ℕ × Entry)))
    → Exec Reader (List (ℕ × Entry))
read_next none pos out go_on = pure out
read_next (some EntryRead.truncated) pos out go_on = pure out
read_next (some (EntryRead.ok entry total_len)) pos out go_on =
    go_on (pos + total_len) (out ++ ((pos, entry) ∷ []))
read_next (some (EntryRead.crc_mismatch total_len)) pos out go_on = go_on (pos + total_len) out

-- What `merge` keeps in its variables, and the engine that it works on.
pub record Merging (Hasher : Type 0) : Type 0 where
  pub engine : Engine
  pub writer : MergeOutputWriter Hasher
  pub pending : PendingQueue.PendingQueue
  pub highest_output_id : ℕ
  pub max_output_id : ℕ
  pub live_entries_copied : ℕ

-- Whether the keydir still has the entry at that place.
unfoldable pub points_at : ℕ → ℕ → Option KeydirEntry → Bool
points_at file_id value_pos none = false
points_at file_id value_pos (some kd) = kd.file_id == file_id && kd.value_pos == value_pos

unfoldable pub keep_below : ℕ → List ℕ → List ℕ
keep_below active_id [] = []
keep_below active_id (id ∷ ids) =
    let rest = keep_below active_id ids in if ltb id active_id then id ∷ rest else rest

-- All files older than the active one.
unfoldable pub collect_input_ids : ℕ → Exec Engine (List ℕ)
collect_input_ids active_id_at_start =
    on_world Datafile.discover >>= λ ids. pure (keep_below active_id_at_start ids)

abbrev pub ignore : {S A : Type 0} → Exec S A → Exec S (Unit {0})
ignore m s = (ok tt, (m s).1)

abbrev pub forget_file : ℕ → Exec Engine (Unit {0})
forget_file id e = pure tt (record e {
  readers = (Datafile.forget id (record { world = e.world; readers = e.readers })).readers;
})

unfoldable pub remove_old_input_files : List ℕ → Exec Engine (Unit {0})
remove_old_input_files [] = pure tt
remove_old_input_files (id ∷ ids) =
    ignore (on_world (remove_data id))
    >> ignore (on_world (remove_hint id))
    >> forget_file id
    >> remove_old_input_files ids

-- The id of the active file, which a handle that may write has.
unfoldable pub restore_active_file : ℕ → Option ActiveFile → Exec Engine (Unit {0})
restore_active_file highest_output_id none = pure tt
restore_active_file highest_output_id (some file) = rotate_if (leb file.file_id highest_output_id)

-- What runs right before a repoint: other threads. `merge` itself gives the hook that does nothing.
abbrev pub Hook : Type 0
Hook = Bytes → Engine → Engine

unfoldable pub repoint_all : Hook → List Repoint → Engine → Engine
repoint_all before_repoint [] e = e
repoint_all before_repoint ((key, old, new) ∷ pending) e =
    let e' = before_repoint key e in
    repoint_all before_repoint pending
      (record e' { keydir = (cas_repoint e'.keydir key old new).0 })

module _ {Hasher : Type 0} where
  abbrev pub on_output : {A : Type 0} → Exec (Output Hasher) A → Exec (Merging Hasher) A
  on_output m s =
      let after = m (record {
        opening = record { world = s.engine.world; next_file_id = s.engine.next_file_id };
        writer = s.writer;
      }) in
      (
        after.0,
        record s {
          engine = record s.engine {
            world = after.1.opening.world;
            next_file_id = after.1.opening.next_file_id;
          };
          writer = after.1.writer;
        },
      )

  unfoldable pub apply_pending_repoints : Hook → Exec (Merging Hasher) (Unit {0})
  apply_pending_repoints before_repoint s =
      let drained = PendingQueue.drain s.pending in
      pure tt
        (record s { engine = repoint_all before_repoint drained.0 s.engine; pending = drained.1 })

  unfoldable pub apply_if : Bool → Hook → Exec (Merging Hasher) (Unit {0})
  apply_if true before_repoint = apply_pending_repoints before_repoint
  apply_if false before_repoint = pure tt

  -- After an entry was written: the counters, and the repoint that waits.
  unfoldable pub note_copy : Entry → ℕ → ℕ → ℕ → ℕ → Exec (Merging Hasher) (Unit {0})
  note_copy entry file_id new_file_id value_pos new_value_pos s = pure tt (record s {
    max_output_id = max s.max_output_id (OutputWriter.current_file_id s.writer);
    live_entries_copied = s.live_entries_copied + 1;
    pending = PendingQueue.queue entry file_id new_file_id value_pos new_value_pos s.pending;
  })

module _ {Hasher : Type 0} (crc32 : Crc32 Hasher) where
  unfoldable pub read_entries : ℕ → ℕ → List (ℕ × Entry) → Exec Reader (List (ℕ × Entry))
  read_entries zero pos out = λ r. (blocked, r)
  read_entries (suc fuel) pos out =
      read_entry crc32 >>= λ found. read_next found pos out (read_entries fuel)

  -- Each entry takes 16 bytes at least.
  unfoldable pub read_all_entries : ℕ → Exec World (List (ℕ × Entry))
  read_all_entries file_id =
      open_data file_id >>= λ bytes. reading bytes (read_entries (suc (length bytes)) 0 [])

module _ {Hasher : Type 0} (crc32 : Crc32 Hasher) (before_repoint : Hook) where
  unfoldable pub copy_live : ℕ → ℕ → Entry → Exec (Merging Hasher) (Unit {0})
  copy_live file_id value_pos entry =
      on_output (OutputWriter.write_live_entry crc32 entry)
      >>= λ (new_file_id, new_value_pos, flushed).
          note_copy entry file_id new_file_id value_pos new_value_pos
          >> apply_if flushed before_repoint

  -- One round of the loop over the entries of a file.
  unfoldable pub copy_entry : ℕ → ℕ × Entry → Exec (Merging Hasher) (Unit {0})
  copy_entry file_id (offset, entry) s =
      (if is_tombstone entry
          then pure tt
          else let value_pos = offset + header_size + entry.header.key_size in
            if points_at file_id value_pos (Keydir.get s.engine.keydir entry.key)
            then copy_live file_id value_pos entry
            else pure tt)
        s

  unfoldable pub copy_entries : ℕ → List (ℕ × Entry) → Exec (Merging Hasher) (Unit {0})
  copy_entries file_id [] = pure tt
  copy_entries file_id (found ∷ entries) = copy_entry file_id found >> copy_entries file_id entries

  abbrev pub on_engine : {A : Type 0} → Exec Engine A → Exec (Merging Hasher) A
  on_engine m s = ((m s.engine).0, record s { engine = (m s.engine).1 })

  unfoldable pub copy_forward_live_file_entries : ℕ → Exec (Merging Hasher) (Unit {0})
  copy_forward_live_file_entries file_id =
      (λ s. pure tt (record s { max_output_id = s.highest_output_id }))
      >> on_engine (on_world (read_all_entries crc32 file_id))
      >>= λ entries.
          copy_entries file_id entries
          >> (λ s. pure tt (record s { highest_output_id = s.max_output_id }))

  unfoldable pub copy_forward_all_live_entries : List ℕ → Exec (Merging Hasher) (Unit {0})
  copy_forward_all_live_entries [] = pure tt
  copy_forward_all_live_entries (file_id ∷ ids) =
      copy_forward_live_file_entries file_id >> copy_forward_all_live_entries ids

  unfoldable pub finish_and_apply_pending_repoints : Exec (Merging Hasher) (Unit {0})
  finish_and_apply_pending_repoints =
      on_output (OutputWriter.finish crc32) >> apply_pending_repoints before_repoint

  -- The writer is dropped when `merge` is done with it, at an error too. Its buffers are empty by
  -- then where there was none.
  abbrev pub dropped : Merging Hasher → Engine
  dropped s = (on_output (λ o. (ok tt, OutputWriter.drop_writer crc32 o)) s).1.engine

  -- From the new writer to the removal: the highest id of an output file.
  unfoldable pub copy_all : List ℕ → MergeOutputWriter Hasher → Exec Engine ℕ
  copy_all input_ids writer e =
      let after =
        (copy_forward_all_live_entries input_ids
            >> finish_and_apply_pending_repoints
            >> (λ s. pure s.highest_output_id s))
          (record {
            engine = e;
            writer = writer;
            pending = PendingQueue.new;
            highest_output_id = OutputWriter.current_file_id writer;
            max_output_id = OutputWriter.current_file_id writer;
            live_entries_copied = 0;
          }) in
      (after.0, dropped after.1)

  abbrev pub on_opening : {A : Type 0} → Exec Opening A → Exec Engine A
  on_opening m e =
      let after = m (record { world = e.world; next_file_id = e.next_file_id }) in
      (after.0, record e { world = after.1.world; next_file_id = after.1.next_file_id })

  unfoldable pub merge_files : List ℕ → Exec Engine (Unit {0})
  merge_files [] = pure tt
  merge_files (id ∷ ids) =
      (λ e. on_opening (OutputWriter.new_writer crc32 e.opts.max_file_size) e) >>= λ writer.
      copy_all (id ∷ ids) writer >>= λ highest_output_id.
      remove_old_input_files (id ∷ ids) >> (λ e. restore_active_file highest_output_id e.active e)

  unfoldable pub merge_from : Option ActiveFile → Exec Engine (Unit {0})
  merge_from none e = (err read_only, e)
  merge_from (some file) e = (collect_input_ids file.file_id >>= merge_files) e

  unfoldable pub merge_with_repoint_hook : Exec Engine (Unit {0})
  merge_with_repoint_hook = require_write >> λ e. merge_from e.active e

unfoldable pub merge : {Hasher : Type 0} → Crc32 Hasher → Exec Engine (Unit {0})
merge crc32 = merge_with_repoint_hook crc32 (λ key e. e)
