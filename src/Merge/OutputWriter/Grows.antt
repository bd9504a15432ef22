-- ===== src/Merge/OutputWriter/Grows.antt =====
-- src/merge/output_writer.rs: no operation, failing or not, changes bytes that are in a data file, and
-- those on the hint file leave the data files as they are.
use yabiir.Base.{refl, ℕ, ◌+◌, Bool, Bytes, if◌then◌else◌, true, false}
use yabiir.Crc32.{Crc32}
use yabiir.Io.{Exec, pure, ◌>>=◌, ◌>>◌}
use yabiir.Io.BufWriter
use yabiir.Io.BufWriter.{Buffered}
use yabiir.Io.Disk.{World, write_hint, create_hint}
use yabiir.Io.Grows.{Extends, Extends-refl, Extends-trans, Grows, Grows-bind}
use yabiir.Io.Leaves.{
  Leaves, Leaves-bind, Leaves-Grows, Leaves-flush, Leaves-write_all, write_hint-SameData,
  create_hint-SameData,
}
use yabiir.Format.{to_le_bytes}
use yabiir.Format.Entry.{Entry, encode_entry}
use yabiir.Format.Hint.{encode_hint}
use yabiir.Datafile
use yabiir.Datafile.{Writing}
use yabiir.Datafile.Grows
use yabiir.Merge.OutputWriter.{
  Opening, Output, MergeOutputWriter, claim_id, opening_world, open_output, on_data, on_hint,
  on_opening, change, flush_batch, new_writer, close_current_hint_file, rotate, rotate_or_flush,
  write_live_entry, finish, drop_writer, is_ready_to_rotate, is_ready_to_flush,
}

abbrev pub open_world : Opening → World
open_world s = s.world

Grows-opening_world :
    {A : Type 0} (m : Exec World A) → Grows (λ w. w) m → Grows open_world (opening_world m)
Grows-opening_world m g = record { at = λ s. g.at s.world }

pub Grows-open_output : Grows open_world open_output
unfolding open_output claim_id
Grows-open_output =
    Grows-bind open_world claim_id _ (record { at = λ s. Extends-refl s.world })
      (λ id.
        Grows-bind open_world (opening_world (Datafile.create id)) _
          (Grows-opening_world (Datafile.create id)
            (record { at = Datafile.Grows.create-Extends id }))
          (λ file.
            Grows-bind open_world (opening_world (create_hint id)) _
              (Grows-opening_world (create_hint id)
                (Leaves-Grows (λ w. w) (create_hint id) (record { at = create_hint-SameData id })))
              (λ _. record { at = λ s. Extends-refl s.world })))

module _ {Hasher : Type 0} where
  abbrev pub output_world : Output Hasher → World
  output_world s = s.opening.world

  pub Grows-on_data :
      {A : Type 0} (m : Exec Writing A)
      → Grows Datafile.Grows.world m
      → Grows output_world (on_data m)
  Grows-on_data m g = record {
    at = λ s. g.at (record { world = s.opening.world; file = s.writer.current_data });
  }

  Grows-on_opening :
      {A : Type 0} (m : Exec Opening A) → Grows open_world m → Grows output_world (on_opening m)
  Grows-on_opening m g = record { at = λ s. g.at s.opening }

  pub Leaves-change :
      (f : MergeOutputWriter Hasher → MergeOutputWriter Hasher) → Leaves output_world (change f)
  Leaves-change f = record { at = λ s. refl }

  pub Grows-flush_batch : Grows output_world flush_batch
  unfolding flush_batch
  Grows-flush_batch =
      Grows-bind output_world (on_data Datafile.flush) _
        (Grows-on_data Datafile.flush Datafile.Grows.Grows-flush)
        (λ _. record { at = λ s. Extends-refl s.opening.world })

module _ {Hasher : Type 0} (crc32 : Crc32 Hasher) where
  pub Leaves-hint_write :
      (bytes : Bytes)
      → Leaves output_world (on_hint {Hasher = Hasher} (λ write. BufWriter.write_all write bytes))
  Leaves-hint_write bytes = record {
    at = λ s.
        (Leaves-write_all (write_hint s.writer.current_hint.file_id)
            (write_hint-SameData s.writer.current_hint.file_id) bytes).at
          (record { world = s.opening.world; buffer = s.writer.current_hint.buffer });
  }

  pub Leaves-hint_flush : Leaves output_world (on_hint {Hasher = Hasher} BufWriter.flush)
  Leaves-hint_flush = record {
    at = λ s.
        (Leaves-flush (write_hint s.writer.current_hint.file_id)
            (write_hint-SameData s.writer.current_hint.file_id)).at
          (record { world = s.opening.world; buffer = s.writer.current_hint.buffer });
  }

  pub Leaves-close_current_hint_file : Leaves output_world (close_current_hint_file crc32)
  unfolding close_current_hint_file
  Leaves-close_current_hint_file = record {
    at = λ s.
        (Leaves-bind output_world
            (change (λ w. record w { hint_crc = crc32.new })
              >> on_hint (λ write.
                BufWriter.write_all write (to_le_bytes 4 (crc32.finalize s.writer.hint_crc))))
            _
            (Leaves-bind output_world (change (λ w. record w { hint_crc = crc32.new })) _
              (Leaves-change (λ w. record w { hint_crc = crc32.new }))
              (λ _. Leaves-hint_write (to_le_bytes 4 (crc32.finalize s.writer.hint_crc))))
            (λ _. Leaves-hint_flush)).at
          s;
  }

  Grows-close : Grows output_world (close_current_hint_file crc32)
  Grows-close =
      Leaves-Grows output_world (close_current_hint_file crc32) Leaves-close_current_hint_file

  pub Grows-rotate : Grows output_world (rotate crc32)
  unfolding rotate
  Grows-rotate =
      Grows-bind output_world
        (on_data Datafile.sync >> close_current_hint_file crc32 >> on_opening open_output) _
        (Grows-bind output_world (on_data Datafile.sync >> close_current_hint_file crc32) _
          (Grows-bind output_world (on_data Datafile.sync) _
            (Grows-on_data Datafile.sync Datafile.Grows.Grows-sync) (λ _. Grows-close))
          (λ _. Grows-on_opening open_output Grows-open_output))
        (λ opened. record { at = λ s. Extends-refl s.opening.world })

  if-Extends :
      {A : Type 0} (b : Bool) (x y : Exec (Output Hasher) A) (s : Output Hasher)
      → Grows output_world x
      → Extends s.opening.world (y s).1.opening.world
      → Extends s.opening.world ((if b then x else y) s).1.opening.world
  if-Extends true x y s p q = p.at s
  if-Extends false x y s p q = q

  Grows-then_pure :
      {A B : Type 0} (m : Exec (Output Hasher) A) (b : A → B)
      → Grows output_world m
      → Grows output_world (m >>= λ a. pure (b a))
  Grows-then_pure m b g =
      Grows-bind output_world m _ g (λ a. record { at = λ s. Extends-refl s.opening.world })

  Grows-rotate_or_flush : Grows output_world (rotate_or_flush crc32)
  unfolding rotate_or_flush
  Grows-rotate_or_flush = record {
    at = λ s.
        if-Extends (is_ready_to_rotate s.writer) (rotate crc32 >> pure true)
          (if is_ready_to_flush s.writer then flush_batch >> pure true else pure false) s
          (Grows-then_pure (rotate crc32) (λ _. true) Grows-rotate)
          (if-Extends (is_ready_to_flush s.writer) (flush_batch >> pure true) (pure false) s
            (Grows-then_pure flush_batch (λ _. true) Grows-flush_batch)
            (Extends-refl s.opening.world));
  }

  pub Grows-write_live_entry : (entry : Entry) → Grows output_world (write_live_entry crc32 entry)
  unfolding write_live_entry
  Grows-write_live_entry entry =
      let encoded = encode_entry crc32 entry.key entry.value false entry.header.timestamp in
      Grows-bind output_world (on_data (Datafile.append_buffered encoded)) _
        (Grows-on_data (Datafile.append_buffered encoded)
          (Datafile.Grows.Grows-append_buffered encoded))
        (λ (file_id, value_pos, total_len).
          let hint = encode_hint entry.key entry.header value_pos in
          Grows-then_pure _ (λ flushed. (file_id, value_pos, flushed))
            (Grows-bind output_world
              (on_hint (λ write. BufWriter.write_all write hint)
                >> change (λ w. record w {
                  hint_crc = crc32.update w.hint_crc hint;
                  pending_since_flush = w.pending_since_flush + 1;
                }))
              _
              (Grows-bind output_world (on_hint (λ write. BufWriter.write_all write hint)) _
                (Leaves-Grows output_world _ (Leaves-hint_write hint))
                (λ _. record { at = λ s. Extends-refl s.opening.world }))
              (λ _. Grows-rotate_or_flush)))

  pub Grows-finish : Grows output_world (finish crc32)
  unfolding finish
  Grows-finish =
      Grows-bind output_world (on_data Datafile.sync) _
        (Grows-on_data Datafile.sync Datafile.Grows.Grows-sync) (λ _. Grows-close)

  pub Grows-new_writer : (max_file_size : ℕ) → Grows open_world (new_writer crc32 max_file_size)
  unfolding new_writer
  Grows-new_writer max_file_size =
      Grows-bind open_world open_output _ Grows-open_output
        (λ opened. record { at = λ s. Extends-refl s.world })

  pub Extends-drop_writer :
      (s : Output Hasher) → Extends s.opening.world (drop_writer crc32 s).opening.world
  Extends-drop_writer s =
      Extends-trans ((Grows-on_data Datafile.flush Datafile.Grows.Grows-flush).at s) (
        (Leaves-Grows output_world (on_hint BufWriter.flush) Leaves-hint_flush).at
          (on_data Datafile.flush s).1)
