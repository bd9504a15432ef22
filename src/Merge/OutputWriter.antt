-- ===== src/Merge/OutputWriter.antt =====
-- src/merge/output_writer.rs: the files that a merge writes, each a data file and its hint file.
pub mod Grows
pub mod Writes
pub mod Above
use yabiir.Base.{
  ℕ, ◌+◌, ◌%◌, Bool, true, false, Option, none, some, List, [], ◌∷◌, Bytes, length, leb,
  if◌then◌else◌,
}
use yabiir.Crc32.{Crc32}
use yabiir.Error.{Result}
use yabiir.Io.{Exec, pure, ◌>>=◌, ◌>>◌}
use yabiir.Io.BufWriter
use yabiir.Io.BufWriter.{Buffered}
use yabiir.Io.Disk.{World, write_hint, create_hint}
use yabiir.Format.{u32_mod, to_le_bytes}
use yabiir.Format.Entry.{Entry, encode_entry}
use yabiir.Format.Hint.{encode_hint}
use yabiir.Datafile
use yabiir.Datafile.{ActiveFile, Writing}

-- `MERGE_FLUSH_BATCH_SIZE`
abbrev pub flush_batch_size : ℕ
flush_batch_size = 256

-- The `BufWriter` of a hint file.
pub record HintFile : Type 0 where
  pub file_id : ℕ
  pub buffer : Bytes

-- The directory is in the world, and the counter of the file ids in the engine.
pub record MergeOutputWriter (Hasher : Type 0) : Type 0 where
  pub max_file_size : ℕ
  pub current_data : ActiveFile
  pub current_hint : HintFile
  pub hint_crc : Hasher
  pub pending_since_flush : ℕ

pub record Opening : Type 0 where
  pub world : World
  pub next_file_id : ℕ

pub record Output (Hasher : Type 0) : Type 0 where
  pub opening : Opening
  pub writer : MergeOutputWriter Hasher

abbrev pub opening_world : {A : Type 0} → Exec World A → Exec Opening A
opening_world m s = ((m s.world).0, record s { world = (m s.world).1 })

unfoldable pub claim_id : Exec Opening ℕ
claim_id s = pure s.next_file_id (record s { next_file_id = (s.next_file_id + 1) % u32_mod })

unfoldable pub open_output : Exec Opening (ActiveFile × HintFile)
open_output = claim_id >>= λ file_id. opening_world (Datafile.create file_id) >>= λ file.
    opening_world (create_hint file_id) >> pure (file, record { file_id = file_id; buffer = [] })

module _ {Hasher : Type 0} where
  abbrev pub on_data : {A : Type 0} → Exec Writing A → Exec (Output Hasher) A
  on_data m s =
      let after = m (record { world = s.opening.world; file = s.writer.current_data }) in
      (
        after.0,
        record {
          opening = record s.opening { world = after.1.world };
          writer = record s.writer { current_data = after.1.file };
        },
      )

  abbrev pub on_hint :
      {A : Type 0} → ((Bytes → Exec World (Unit {0})) → Exec Buffered A) → Exec (Output Hasher) A
  on_hint m s =
      let hint = s.writer.current_hint in
      let after =
        m (write_hint hint.file_id) (record { world = s.opening.world; buffer = hint.buffer }) in
      (
        after.0,
        record {
          opening = record s.opening { world = after.1.world };
          writer = record s.writer { current_hint = record hint { buffer = after.1.buffer } };
        },
      )

  abbrev pub on_opening : {A : Type 0} → Exec Opening A → Exec (Output Hasher) A
  on_opening m s = ((m s.opening).0, record s { opening = (m s.opening).1 })

  abbrev pub change :
      (MergeOutputWriter Hasher → MergeOutputWriter Hasher) → Exec (Output Hasher) (Unit {0})
  change f s = pure tt (record s { writer = f s.writer })

  abbrev pub current_file_id : MergeOutputWriter Hasher → ℕ
  current_file_id writer = writer.current_data.file_id

  abbrev pub is_ready_to_flush : MergeOutputWriter Hasher → Bool
  is_ready_to_flush writer = leb flush_batch_size writer.pending_since_flush

  abbrev pub is_ready_to_rotate : MergeOutputWriter Hasher → Bool
  is_ready_to_rotate writer = leb writer.max_file_size writer.current_data.offset

  unfoldable pub flush_batch : Exec (Output Hasher) (Unit {0})
  flush_batch = on_data Datafile.flush >> change (λ w. record w { pending_since_flush = 0 })

module _ {Hasher : Type 0} (crc32 : Crc32 Hasher) where
  unfoldable pub new_writer : ℕ → Exec Opening (MergeOutputWriter Hasher)
  new_writer max_file_size = open_output >>= λ (file, hint). pure (record {
    max_file_size = max_file_size;
    current_data = file;
    current_hint = hint;
    hint_crc = crc32.new;
    pending_since_flush = 0;
  })

  -- The hasher is taken, and the new one left in its place.
  unfoldable pub close_current_hint_file : Exec (Output Hasher) (Unit {0})
  close_current_hint_file s =
      let trailer = to_le_bytes 4 (crc32.finalize s.writer.hint_crc) in
      (change (λ w. record w { hint_crc = crc32.new })
          >> on_hint (λ write. BufWriter.write_all write trailer)
          >> on_hint BufWriter.flush)
        s

  unfoldable pub rotate : Exec (Output Hasher) (Unit {0})
  rotate =
      on_data Datafile.sync >> close_current_hint_file >> on_opening open_output >>= λ (file, hint).
      change (λ w. record w {
        current_data = file;
        current_hint = hint;
        hint_crc = crc32.new;
        pending_since_flush = 0;
      })

  unfoldable pub rotate_or_flush : Exec (Output Hasher) Bool
  rotate_or_flush s =
      (if is_ready_to_rotate s.writer
          then rotate >> pure true
          else if is_ready_to_flush s.writer
          then flush_batch >> pure true
          else pure false)
        s

  -- The file's id, the position of the value, and whether all that was written is flushed.
  unfoldable pub write_live_entry : Entry → Exec (Output Hasher) (ℕ × ℕ × Bool)
  write_live_entry entry =
      on_data (
        Datafile.append_buffered
          (encode_entry crc32 entry.key entry.value false entry.header.timestamp))
      >>= λ (file_id, value_pos, total_len).
          let hint = encode_hint entry.key entry.header value_pos in
          on_hint (λ write. BufWriter.write_all write hint)
          >> change (λ w. record w {
            hint_crc = crc32.update w.hint_crc hint;
            pending_since_flush = w.pending_since_flush + 1;
          })
          >> rotate_or_flush
          >>= λ flushed. pure (file_id, value_pos, flushed)

  unfoldable pub finish : Exec (Output Hasher) (Unit {0})
  finish = on_data Datafile.sync >> close_current_hint_file

  -- Both `BufWriter`s write what they have when the writer is dropped, and ignore errors.
  abbrev pub drop_writer : Output Hasher → Output Hasher
  drop_writer s = (on_hint BufWriter.flush (on_data Datafile.flush s).1).1
