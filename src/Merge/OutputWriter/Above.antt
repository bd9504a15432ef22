-- ===== src/Merge/OutputWriter/Above.antt =====
-- src/merge/output_writer.rs: the writer writes to files with new ids only, while the counter lasts.
use yabiir.Base.{
  ℕ, suc, ◌+◌, ◌%◌, ◌^◌, ◌≤◌, ◌<◌, ◌≡◌, refl, ap, ◌∙◌, true, false, List, Bytes, ◌==◌, arith,
}
use yabiir.Base.Map
use yabiir.Base.Map.{nat_eq}
use yabiir.Crc32.{Crc32}
use yabiir.Io.{Exec, pure, ◌>>◌}
use yabiir.Io.After.{After, After-bind, After-lift, After-any, After-if}
use yabiir.Io.BufWriter
use yabiir.Io.Disk.{create_hint}
use yabiir.Io.Grows.{SameData}
use yabiir.Io.Leaves.{create_hint-SameData}
use yabiir.Format.{u32_mod, to_le_bytes}
use yabiir.Format.Entry.{Entry, encode_entry}
use yabiir.Format.Hint.{encode_hint}
use yabiir.Datafile
use yabiir.Datafile.{ActiveFile, Writing}
use yabiir.Datafile.Held.{Only}
use yabiir.Datafile.Stays.{Stays, Stays-flush, Stays-sync, Stays-append_buffered, create-Only}
use yabiir.Merge.OutputWriter.{
  Opening, Output, claim_id, opening_world, open_output, on_data, on_hint, on_opening, change,
  flush_batch, new_writer, close_current_hint_file, rotate, rotate_or_flush, write_live_entry,
  finish, drop_writer, is_ready_to_rotate, is_ready_to_flush,
}
use yabiir.Merge.OutputWriter.Grows.{Leaves-hint_write, Leaves-hint_flush}
use yabiir.Merge.OutputWriter.Writes.{Whatever}

-- Files below `a` are as they were, and `n` more ids are free.
pub record Free (a n : ℕ) (files : List (ℕ × Bytes)) (s : Opening) : Type 0 where
  pub untouched : (j : ℕ) → j < a → Map.lookup j s.world.data_files ≡ Map.lookup j files
  pub next_lem : a ≤ s.next_file_id
  pub room : s.next_file_id + n < 2 ^ 32

below : {a id j : ℕ} → a ≤ id → j < a → id == j ≡ false
below above h = ground arith

Free-Only :
    {a n id : ℕ} {files : List (ℕ × Bytes)} {s t : Opening}
    → Free a n files s
    → a ≤ id
    → Only id s.world t.world
    → t.next_file_id ≡ s.next_file_id
    → Free a n files t
Free-Only {a} {n} {id} free above only next = record {
  untouched = λ j h. only.at j (below above h) ∙ free.untouched j h;
  next_lem = rw next free.next_lem;
  room = rw next free.room;
}

pub Free-same :
    {a n : ℕ} {files : List (ℕ × Bytes)} {s t : Opening}
    → Free a n files s
    → SameData s.world t.world
    → t.next_file_id ≡ s.next_file_id
    → Free a n files t
Free-same free same next = record {
  untouched = λ j h. ap (Map.lookup j) same ∙ free.untouched j h;
  next_lem = rw next free.next_lem;
  room = rw next free.room;
}

next_id : (next n : ℕ) → next + suc n < 2 ^ 32 → (next + 1) % u32_mod ≡ next + 1
next_id next n h = omega arith

-- A new file takes one of the ids.
pub open_output-Free :
    {a n : ℕ} {files : List (ℕ × Bytes)} (s : Opening)
    → Free a (suc n) files s
    → After (open_output s) (λ opened t. (a ≤ opened.0.file_id) × Free a n files t) Whatever
unfolding open_output claim_id
open_output-Free {a} {n} {files} s free =
    let next = (claim_id s).1 in
    let moved : next.next_file_id ≡ s.next_file_id + 1 = next_id s.next_file_id n free.room in
    After-bind (opening_world (Datafile.create s.next_file_id)) _ {s = next}
      {Q = λ file t.
        (file.file_id ≡ s.next_file_id)
        × Only s.next_file_id s.world t.world
        × (t.next_file_id ≡ next.next_file_id)}
      (After-lift (Datafile.create s.next_file_id s.world) (λ w. record next { world = w })
        (create-Only s.next_file_id s.world) (λ file w _ (id, only). (id, only, refl)) (λ w h. h))
      (λ file t (id, only, kept).
        After-bind (opening_world (create_hint s.next_file_id)) _
          (After-any (opening_world (create_hint s.next_file_id) t)
            {P = λ u. SameData t.world u.world × (u.next_file_id ≡ t.next_file_id)}
            (create_hint-SameData s.next_file_id t.world, refl))
          (λ _ u (same, kept'). record {
            holds = (
              rw id free.next_lem,
              record {
                untouched = λ j h.
                    ap (Map.lookup j) same ∙ only.at j (below free.next_lem h) ∙ free.untouched j h;
                next_lem = omega (arith, kept', kept, moved, free.next_lem);
                room = omega (arith, kept', kept, moved, free.room);
              },
            );
          }))

module _ {Hasher : Type 0} where
  -- The same, and the file that is written to is a new one.
  pub record Above (a n : ℕ) (files : List (ℕ × Bytes)) (s : Output Hasher) : Type 0 where
    pub free : Free a n files s.opening
    pub fresh : a ≤ s.writer.current_data.file_id

  Above-on_data :
      {A : Type 0} {a n : ℕ} {files : List (ℕ × Bytes)} (m : Exec Writing A) (s : Output Hasher)
      → Stays m
      → Above a n files s
      → After (on_data m s) (λ _. Above a n files) Whatever
  Above-on_data m s stays above =
      let same = stays.at (record { world = s.opening.world; file = s.writer.current_data }) in
      After-any (on_data m s) (record {
        free = Free-Only above.free above.fresh same.only refl;
        fresh = rw same.file_lem above.fresh;
      })

  pub Above-same :
      {a n : ℕ} {files : List (ℕ × Bytes)} {s t : Output Hasher}
      → Above a n files s
      → SameData s.opening.world t.opening.world
      → t.opening.next_file_id ≡ s.opening.next_file_id
      → t.writer.current_data ≡ s.writer.current_data
      → Above a n files t
  Above-same above same next file = record {
    free = Free-same above.free same next;
    fresh = rw (ap (λ file. file.file_id) file) above.fresh;
  }

  -- An id that is free may stay so.
  pub fewer :
      {a n : ℕ} {files : List (ℕ × Bytes)} {s : Output Hasher}
      → Above a (suc n) files s
      → Above a n files s
  fewer above = record {
    free = record {
      untouched = above.free.untouched;
      next_lem = above.free.next_lem;
      room = omega (arith, above.free.room);
    };
    fresh = above.fresh;
  }

module _ {Hasher : Type 0} (crc32 : Crc32 Hasher) {a : ℕ} {files : List (ℕ × Bytes)} where
  pub new_writer-Above :
      (max_file_size n : ℕ) (s : Opening)
      → Free a (suc n) files s
      → After
          (new_writer crc32 max_file_size s)
          (λ writer t. Above a n files (record { opening = t; writer = writer }))
          Whatever
  unfolding new_writer
  new_writer-Above max_file_size n s free =
      After-bind open_output _ (open_output-Free s free)
        (λ opened t (fresh, free'). record { holds = record { free = free'; fresh = fresh } })

  hint_write-Above :
      {n : ℕ} (bytes : Bytes) (s : Output Hasher)
      → Above a n files s
      → After (on_hint (λ write. BufWriter.write_all write bytes) s) (λ _. Above a n files) Whatever
  hint_write-Above bytes s above =
      After-any (on_hint (λ write. BufWriter.write_all write bytes) s)
        (Above-same above ((Leaves-hint_write crc32 bytes).at s) refl refl)

  close-Above :
      {n : ℕ} (s : Output Hasher)
      → Above a n files s
      → After (close_current_hint_file crc32 s) (λ _. Above a n files) Whatever
  unfolding close_current_hint_file
  close-Above {n} s above =
      let bytes = to_le_bytes 4 (crc32.finalize s.writer.hint_crc) in
      After-bind
        (change (λ w. record w { hint_crc = crc32.new })
          >> on_hint (λ write. BufWriter.write_all write bytes))
        _ {s = s} (hint_write-Above bytes _ (Above-same above refl refl refl))
        (λ _ t above'.
          After-any (on_hint BufWriter.flush t)
            (Above-same above' ((Leaves-hint_flush crc32).at t) refl refl))

  rotate-Above :
      {n : ℕ} (s : Output Hasher)
      → Above a (suc n) files s
      → After (rotate crc32 s) (λ _. Above a n files) Whatever
  unfolding rotate
  rotate-Above {n} s above =
      After-bind (on_data Datafile.sync >> close_current_hint_file crc32 >> on_opening open_output)
        _ {Q = λ opened t. (a ≤ opened.0.file_id) × Free a n files t.opening}
        (After-bind (on_data Datafile.sync >> close_current_hint_file crc32) _
          (After-bind (on_data Datafile.sync) _ (Above-on_data Datafile.sync s Stays-sync above)
            (λ _ t above'. close-Above t above'))
          (λ _ t above'.
            After-lift (open_output t.opening) (λ o. record t { opening = o })
              (open_output-Free t.opening above'.free) (λ opened o _ h. h) (λ o h. h)))
        (λ opened t (fresh, free). record { holds = record { free = free; fresh = fresh } })

  rotate_or_flush-Above :
      {n : ℕ} (s : Output Hasher)
      → Above a (suc n) files s
      → After (rotate_or_flush crc32 s) (λ _. Above a n files) Whatever
  unfolding rotate_or_flush flush_batch
  rotate_or_flush-Above s above =
      After-if (is_ready_to_rotate s.writer) (rotate crc32 >> pure true) _ s
        (λ _.
          After-bind (rotate crc32) _ (rotate-Above s above)
            (λ _ t above'. record { holds = above' }))
        (λ _.
          After-if (is_ready_to_flush s.writer) (flush_batch >> pure true) (pure false) s
            (λ _.
              After-bind flush_batch _
                (After-bind (on_data Datafile.flush) _
                  (Above-on_data Datafile.flush s Stays-flush (fewer above))
                  (λ _ t above'. record { holds = Above-same above' refl refl refl }))
                (λ _ t above'. record { holds = above' }))
            (λ _. record { holds = fewer above }))

  pub write_live_entry-Above :
      {n : ℕ} (entry : Entry) (s : Output Hasher)
      → Above a (suc n) files s
      → After (write_live_entry crc32 entry s) (λ _. Above a n files) Whatever
  unfolding write_live_entry
  write_live_entry-Above entry s above =
      let encoded = encode_entry crc32 entry.key entry.value false entry.header.timestamp in
      After-bind (on_data (Datafile.append_buffered encoded)) _
        (Above-on_data (Datafile.append_buffered encoded) s (Stays-append_buffered encoded) above)
        (λ (file_id, value_pos, total_len) t above'.
          let hint = encode_hint entry.key entry.header value_pos in
          After-bind
            (on_hint (λ write. BufWriter.write_all write hint)
              >> change (λ w. record w {
                hint_crc = crc32.update w.hint_crc hint;
                pending_since_flush = w.pending_since_flush + 1;
              })
              >> rotate_or_flush crc32)
            (λ flushed. pure (file_id, value_pos, flushed)) {s = t}
            (After-bind
              (on_hint (λ write. BufWriter.write_all write hint)
                >> change (λ w. record w {
                  hint_crc = crc32.update w.hint_crc hint;
                  pending_since_flush = w.pending_since_flush + 1;
                }))
              (λ _. rotate_or_flush crc32)
              (After-bind (on_hint (λ write. BufWriter.write_all write hint)) _
                (hint_write-Above hint t above')
                (λ _ u above''. record { holds = Above-same above'' refl refl refl }))
              (λ _ u above''. rotate_or_flush-Above u above''))
            (λ flushed u above''. record { holds = above'' }))

  pub finish-Above :
      {n : ℕ} (s : Output Hasher)
      → Above a n files s
      → After (finish crc32 s) (λ _. Above a n files) Whatever
  unfolding finish
  finish-Above s above =
      After-bind (on_data Datafile.sync) _ (Above-on_data Datafile.sync s Stays-sync above)
        (λ _ t above'. close-Above t above')

  -- The writer's own end: files below `a` are as they were.
  pub drop_writer-Above :
      {n : ℕ} (s : Output Hasher) → Above a n files s → Above a n files (drop_writer crc32 s)
  drop_writer-Above s above =
      let t = (on_data Datafile.flush s).1 in
      let same =
        Stays-flush.at (record { world = s.opening.world; file = s.writer.current_data }) in
      let above' : Above a _ files t = record {
        free = Free-Only above.free above.fresh same.only refl;
        fresh = rw same.file_lem above.fresh;
      } in
      Above-same above' ((Leaves-hint_flush crc32).at t) refl refl
