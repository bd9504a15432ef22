-- ===== src/Merge/OutputWriter/Writes.antt =====
-- src/merge/output_writer.rs: what the files hold after a live entry was written, and when it is
-- flushed.
mod Contents
pub use Contents.*
use yabiir.Base.{
  ℕ, ◌+◌, ◌-◌, ◌≡◌, refl, sym, ap, ◌∙◌, Bool, true, false, Bool-cases, inl, inr, some, [], ◌++◌,
  Bytes, length, length-append, append-nil, append_assoc,
}
use yabiir.Base.Map
use yabiir.Base.Map.{nat_eq}
use yabiir.Crc32.{Crc32}
use yabiir.Io.{Exec, pure, ◌>>◌}
use yabiir.Io.After.{After, After-bind, After-lift, After-with, After-any}
use yabiir.Io.Disk.{World, create_hint}
use yabiir.Io.BufWriter
use yabiir.Io.Grows.{Extends, SameData, Extends-same}
use yabiir.Io.Leaves.{create_hint-SameData}
use yabiir.Format.Entry.{Entry, EncodedEntry, encode_entry}
use yabiir.Format.Hint.{encode_hint}
use yabiir.Datafile
use yabiir.Datafile.{ActiveFile, Writing}
use yabiir.Datafile.Held.{Held, Flushed, flush-After}
use yabiir.Datafile.Outputs.{Created, sync-After, append_buffered-After, create-After}
use yabiir.Merge.OutputWriter.{
  HintFile, Opening, Output, claim_id, opening_world, open_output, on_data, on_hint, on_opening,
  change, flush_batch, new_writer, close_current_hint_file, rotate, rotate_or_flush,
  write_live_entry, finish, is_ready_to_rotate, is_ready_to_flush,
}
use yabiir.Merge.OutputWriter.Grows.{
  Grows-open_output, Leaves-close_current_hint_file, Leaves-hint_write,
}

module _ {Hasher : Type 0} where
  flush_batch-After :
      {id : ℕ} {bytes : Bytes} (s : Output Hasher)
      → Holds id bytes s
      → After (flush_batch s) (λ _. Turned id bytes true) Whatever
  unfolding flush_batch
  flush_batch-After {id} {bytes} s holds =
      After-bind (on_data Datafile.flush) _
        {Q = λ _ t. Flushed s.opening.world id (length bytes) bytes (data_of t)}
        (After-lift (Datafile.flush (data_of s))
          (λ t. record {
            opening = record s.opening { world = t.world };
            writer = record s.writer { current_data = t.file };
          })
          (flush-After (data_of s) holds.held) (λ _ t _ flushed. flushed) (λ t only. tt))
        (λ _ t flushed. record {
          holds = record {
            waits = λ h. cc;
            on_disk = λ h. Flushed-OnDisk flushed;
            is_open = record { id = id; bytes = bytes; holds = Held-Holds flushed.held refl };
          };
        })

-- The file that was opened, and that nothing is in its buffer.
abbrev Opened : ActiveFile × HintFile → Opening → Type 0
Opened opened t = (id : ℕ) × Created id opened.0 t.world

open_output-After : (s : Opening) → After (open_output s) Opened Whatever
unfolding open_output claim_id
open_output-After s =
    let next = (claim_id s).1 in
    After-bind (opening_world (Datafile.create s.next_file_id)) _ {s = next}
      {Q = λ file t. Created s.next_file_id file t.world}
      (After-lift (Datafile.create s.next_file_id next.world) (λ w. record next { world = w })
        (create-After s.next_file_id next.world) (λ file w _ created. created) (λ w h. h))
      (λ file t created.
        After-bind (opening_world (create_hint s.next_file_id)) _
          (After-any (opening_world (create_hint s.next_file_id) t)
            {P = λ u. SameData t.world u.world} (create_hint-SameData s.next_file_id t.world))
          (λ _ u same. record {
            holds = (
              s.next_file_id,
              record {
                bytes = created.bytes;
                there = ap (Map.lookup s.next_file_id) same ∙ created.there;
                named = created.named;
              },
            );
          }))

module _ {Hasher : Type 0} (crc32 : Crc32 Hasher) where
  Opened-IsOpen :
      (opened : ActiveFile × HintFile) (s : Output Hasher)
      → Opened opened s.opening
      → opened.0 ≡ s.writer.current_data
      → IsOpen s
  Opened-IsOpen opened s (id, created) is =
      let named = sym is ∙ created.named in
      record {
        id = id;
        bytes = created.bytes;
        holds = record {
          held = record {
            on_disk = created.bytes;
            there = created.there;
            whole = ap (λ file. created.bytes ++ file.buffer) named ∙ append-nil created.bytes;
            same_id = ap (λ file. file.file_id) named;
            starts = ap (λ file. file.offset) named;
            only = record { at = λ j other. refl };
          };
        };
      }

  pub new_writer-After :
      (max_file_size : ℕ) (s : Opening)
      → After
          (new_writer crc32 max_file_size s)
          (λ writer t. IsOpen (record { opening = t; writer = writer }))
          Whatever
  unfolding new_writer
  new_writer-After max_file_size s =
      After-bind open_output _ (open_output-After s)
        (λ opened t found. record { holds = Opened-IsOpen opened _ found refl })

  synced-OnDisk :
      {id : ℕ} {bytes : Bytes} (s : Output Hasher)
      → Holds id bytes s
      → After (on_data Datafile.sync s) (λ _ t. OnDisk id bytes t.opening.world) Whatever
  synced-OnDisk s holds =
      After-lift (Datafile.sync (data_of s))
        (λ t. record {
          opening = record s.opening { world = t.world };
          writer = record s.writer { current_data = t.file };
        })
        (sync-After (data_of s) holds.held) (λ _ t _ flushed. Flushed-OnDisk flushed) (λ t only. tt)

  closed-OnDisk :
      {id : ℕ} {bytes : Bytes} (t : Output Hasher)
      → OnDisk id bytes t.opening.world
      → After (close_current_hint_file crc32 t) (λ _ u. OnDisk id bytes u.opening.world) Whatever
  closed-OnDisk t on =
      After-any (close_current_hint_file crc32 t)
        (OnDisk-Extends on (Extends-same ((Leaves-close_current_hint_file crc32).at t)))

  rotate-After :
      {id : ℕ} {bytes : Bytes} (s : Output Hasher)
      → Holds id bytes s
      → After (rotate crc32 s) (λ _. Turned id bytes true) Whatever
  unfolding rotate
  rotate-After {id} {bytes} s holds =
      After-bind (on_data Datafile.sync >> close_current_hint_file crc32 >> on_opening open_output)
        _ {Q = λ opened t. Opened opened t.opening × OnDisk id bytes t.opening.world}
        (After-bind (on_data Datafile.sync >> close_current_hint_file crc32) _
          {Q = λ _ t. OnDisk id bytes t.opening.world}
          (After-bind (on_data Datafile.sync) _ {Q = λ _ t. OnDisk id bytes t.opening.world}
            (synced-OnDisk s holds) (λ _ t on. closed-OnDisk t on))
          (λ _ t on.
            After-with (on_opening open_output t)
              (After-lift (open_output t.opening) (λ o. record t { opening = o })
                (open_output-After t.opening) (λ opened o _ found. found) (λ o h. h))
              (OnDisk-Extends on (Grows-open_output.at t.opening))))
        (λ opened t (found, on). record {
          holds = record {
            waits = λ h. cc;
            on_disk = λ h. on;
            is_open = Opened-IsOpen opened _ found refl;
          };
        })

  Turned-pure :
      {A : Type 0} {id : ℕ} {bytes : Bytes} (m : Exec (Output Hasher) A) (s : Output Hasher)
      → After (m s) (λ _. Turned id bytes true) Whatever
      → After ((m >> pure true) s) (Turned id bytes) Whatever
  Turned-pure m s h = After-bind m _ h (λ _ t turned. record { holds = turned })

  rotate_or_flush-After :
      {id : ℕ} {bytes : Bytes} (s : Output Hasher)
      → Holds id bytes s
      → After (rotate_or_flush crc32 s) (Turned id bytes) Whatever
  unfolding rotate_or_flush
  rotate_or_flush-After {id} {bytes} s holds = elim (Bool-cases (is_ready_to_rotate s.writer)) [
    | inl full ↦ rw full (Turned-pure (rotate crc32) s (rotate-After s holds))
    | inr room ↦ rw room (elim (Bool-cases (is_ready_to_flush s.writer)) [
      | inl many ↦ rw many (Turned-pure flush_batch s (flush_batch-After s holds))
      | inr few ↦ rw few (record {
        holds = record {
          waits = λ h. holds;
          on_disk = λ h. cc;
          is_open = record { id = id; bytes = bytes; holds = holds };
        };
      })
    ])
  ]

  -- The copy stands behind what the file held.
  pub record Copied (id : ℕ) (bytes : Bytes) (encoded : EncodedEntry) (found : ℕ × ℕ × Bool)
      (s : Output Hasher) : Type 0 where
    pub file_lem : found.0 ≡ id
    pub pos_lem : found.1 ≡ length bytes + (length encoded.bytes - encoded.value_len)
    pub turned : Turned id (bytes ++ encoded.bytes) found.2 s

  hint_then_change :
      {id : ℕ} {bytes : Bytes} (hint : Bytes) (t : Output Hasher)
      → Holds id bytes t
      → After
          ((on_hint (λ write. BufWriter.write_all write hint)
              >> change (λ w. record w {
                hint_crc = crc32.update w.hint_crc hint;
                pending_since_flush = w.pending_since_flush + 1;
              }))
            t)
          (λ _. Holds id bytes)
          Whatever
  hint_then_change hint t holds =
      After-bind (on_hint (λ write. BufWriter.write_all write hint)) _ {Q = λ _ u. SameFile t u}
        (After-any (on_hint (λ write. BufWriter.write_all write hint) t)
          (record { world_lem = (Leaves-hint_write crc32 hint).at t; file_lem = refl }))
        (λ _ u same. record {
          holds =
              SameFile-Holds holds
                (record { world_lem = same.world_lem; file_lem = same.file_lem });
        })

  -- A live entry that is written goes behind what the output file held, whatever the outcomes of the
  -- calls: the place that is returned is that of its value. If no flush is reported, the file and its
  -- buffer hold it; if one is, the bytes are on disk; and an output file is open.
  pub write_live_entry-After :
      {id : ℕ} {bytes : Bytes} (entry : Entry) (s : Output Hasher)
      → Holds id bytes s
      → After
          (write_live_entry crc32 entry s)
          (Copied id bytes (encode_entry crc32 entry.key entry.value false entry.header.timestamp))
          Whatever
  unfolding write_live_entry
  write_live_entry-After {id} {bytes} entry s holds =
      let encoded = encode_entry crc32 entry.key entry.value false entry.header.timestamp in
      let value_pos = length bytes + (length encoded.bytes - encoded.value_len) in
      After-bind (on_data (Datafile.append_buffered encoded)) _
        {Q = λ found t.
          (found ≡ (id, value_pos, length encoded.bytes)) × Holds id (bytes ++ encoded.bytes) t}
        (After-lift (Datafile.append_buffered encoded (data_of s))
          (λ t. record {
            opening = record s.opening { world = t.world };
            writer = record s.writer { current_data = t.file };
          })
          (append_buffered-After encoded (data_of s) holds.held)
          (λ found t _ (is, held). (is, Held-Holds held (sym (length-append bytes encoded.bytes))))
          (λ t only. tt))
        (λ (file_id, pos, total_len) t (is, holds').
          let hint = encode_hint entry.key entry.header pos in
          After-bind
            (on_hint (λ write. BufWriter.write_all write hint)
              >> change (λ w. record w {
                hint_crc = crc32.update w.hint_crc hint;
                pending_since_flush = w.pending_since_flush + 1;
              })
              >> rotate_or_flush crc32)
            _
            (After-bind
              (on_hint (λ write. BufWriter.write_all write hint)
                >> change (λ w. record w {
                  hint_crc = crc32.update w.hint_crc hint;
                  pending_since_flush = w.pending_since_flush + 1;
                }))
              _ {Q = λ _ u. Holds id (bytes ++ encoded.bytes) u} (hint_then_change hint t holds')
              (λ _ u held. rotate_or_flush-After u held))
            (λ flushed u turned. record {
              holds = record {
                file_lem = ap (λ found. found.0) is;
                pos_lem = ap (λ found. found.1) is;
                turned = turned;
              };
            }))

  pub finish-After :
      {id : ℕ} {bytes : Bytes} (s : Output Hasher)
      → Holds id bytes s
      → After (finish crc32 s) (λ _ t. OnDisk id bytes t.opening.world) Whatever
  unfolding finish
  finish-After {id} {bytes} s holds =
      After-bind (on_data Datafile.sync) _ (synced-OnDisk s holds) (λ _ t on. closed-OnDisk t on)
