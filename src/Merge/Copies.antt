-- ===== src/Merge/Copies.antt =====
-- src/merge/mod.rs: while the live entries are copied, whatever fails, no key loses its value, since a
-- key is repointed only when its copy is in the file.
use mathlib.Core.Option.{some-injective}
use yabiir.Base.{
  ℕ, ◌+◌, ◌-◌, ◌≡◌, refl, sym, ap, ◌∙◌, Bool, true, false, Bool-cases, inl, inr, Option, none, some,
  ◌++◌, Bytes, length, take, drop, length-take, length-drop, All, All-append, All-mono, leb, arith,
}
use yabiir.Base.Map
use yabiir.Base.Map.{nat_eq}
use yabiir.Crc32.{Crc32}
use yabiir.Io.After.{After, After-bind, After-lift, After-knowing}
use yabiir.Io.Disk.{World}
use yabiir.Io.Grows.{Extends, Extends-trans, Extends-same}
use yabiir.Format.Entry.{Entry, EncodedEntry, encode_entry}
use yabiir.Engine.{Engine}
use yabiir.Engine.View.{cut, cut-append, stored, stored-Extends}
use yabiir.Engine.Appends.{cut-behind, encode_entry_value}
use yabiir.Merge.{
  Merging, on_output, apply_pending_repoints, apply_if, note_copy, copy_live, repoint_all,
}
use yabiir.Merge.PendingQueue
use yabiir.Merge.PendingQueue.{Repoint, place_of}
use yabiir.Merge.OutputWriter.{Output, write_live_entry}
use yabiir.Merge.OutputWriter.Grows.{Grows-write_live_entry}
use yabiir.Merge.OutputWriter.Writes.{
  OnDisk, IsOpen, Turned, Copied, SameFile-Holds, write_live_entry-After,
}
use yabiir.Merge.Repoints.{Sees, Sees-trans, Sees-Extends, Kept, no_hook, repoint_all-Sees}

-- A copy in the output file, or in its buffer.
pub record Awaited (id : ℕ) (bytes : Bytes) (w : World) (repoint : Repoint) : Type 0 where
  pub value : Bytes
  pub old_lem : stored w repoint.1 ≡ some value
  pub file_lem : repoint.2.file_id ≡ id
  pub new_lem : cut repoint.2.value_pos repoint.2.value_size (some bytes) ≡ some value

Awaited-mono :
    {id : ℕ} (bytes more : Bytes) {w w' : World} (repoint : Repoint)
    → Extends w w'
    → Awaited id bytes w repoint
    → Awaited id (bytes ++ more) w' repoint
Awaited-mono bytes more repoint ext a = record {
  value = a.value;
  old_lem = stored-Extends repoint.1 a.value ext a.old_lem;
  file_lem = a.file_lem;
  new_lem = cut-append repoint.2.value_pos repoint.2.value_size bytes more a.value a.new_lem;
}

pub Awaited-Extends :
    {id : ℕ} {bytes : Bytes} {w w' : World} (repoint : Repoint)
    → Extends w w'
    → Awaited id bytes w repoint
    → Awaited id bytes w' repoint
Awaited-Extends repoint ext a = record {
  value = a.value;
  old_lem = stored-Extends repoint.1 a.value ext a.old_lem;
  file_lem = a.file_lem;
  new_lem = a.new_lem;
}

pub Awaited-Kept :
    {id : ℕ} {bytes : Bytes} {w : World} (repoint : Repoint)
    → OnDisk id bytes w
    → Awaited id bytes w repoint
    → Kept w repoint
unfolding stored
Awaited-Kept {id} {bytes} repoint on a = record {
  value = a.value;
  old_lem = a.old_lem;
  new_lem =
      rw (a.file_lem, on.there)
        (cut-append repoint.2.value_pos repoint.2.value_size bytes on.more a.value a.new_lem);
}

-- The value that is cut out has the size that was asked for.
length-cut :
    (pos size : ℕ) (o : Option Bytes) (value : Bytes)
    → cut pos size o ≡ some value
    → length value ≡ size
length-cut pos size none value h = cc
length-cut pos size (some bytes) value h = elim (Bool-cases (leb (pos + size) (length bytes))) [
  | inr outside ↦ let e : none ≡ some value = rw outside at h in cc
  | inl inside ↦
      let e : some (take size (drop pos bytes)) ≡ some value = rw inside at h in
      sym (ap length (some-injective (take size (drop pos bytes)) value e))
      ∙ ground (arith, length-take size (drop pos bytes), length-drop pos bytes)
]

module _ {Hasher : Type 0} (crc32 : Crc32 Hasher) where
  abbrev pub output_of : Merging Hasher → Output Hasher
  output_of s = record {
    opening = record { world = s.engine.world; next_file_id = s.engine.next_file_id };
    writer = s.writer;
  }

  abbrev copy_of : Entry → EncodedEntry
  copy_of entry = encode_entry crc32 entry.key entry.value false entry.header.timestamp

  value_len_lem : (entry : Entry) → (copy_of entry).value_len ≡ length entry.value
  unfolding encode_entry
  value_len_lem entry = refl

  -- The copy of a value stands behind what the output file held.
  copy_lem :
      (bytes : Bytes) (entry : Entry)
      → cut
          (length bytes + (length (copy_of entry).bytes - length entry.value))
          (length entry.value)
          (some (bytes ++ (copy_of entry).bytes))
        ≡ some entry.value
  copy_lem bytes entry =
      let encoded = (copy_of entry).bytes in
      let before = length encoded - length entry.value in
      let value_lem : drop before encoded ≡ entry.value =
        encode_entry_value crc32 entry.key entry.value false entry.header.timestamp in
      let size : length entry.value ≡ length encoded - before =
        sym (ap length value_lem) ∙ length-drop before encoded in
      ap (λ n. cut (length bytes + before) n (some (bytes ++ encoded))) size
      ∙ cut-behind bytes encoded before (omega arith)
      ∙ ap (λ v. some v) value_lem

  copy-Awaited :
      {id : ℕ} (bytes : Bytes) {w : World} (entry : Entry)
      (file_id value_pos new_file_id new_value_pos : ℕ)
      → stored w (place_of entry file_id value_pos) ≡ some entry.value
      → new_file_id ≡ id
      → new_value_pos ≡ length bytes + (length (copy_of entry).bytes - (copy_of entry).value_len)
      → Awaited id
          (bytes ++ (copy_of entry).bytes)
          w
          (entry.key, place_of entry file_id value_pos, place_of entry new_file_id new_value_pos)
  unfolding stored
  copy-Awaited bytes {w} entry file_id value_pos new_file_id new_value_pos old file pos =
      let size =
        length-cut value_pos entry.header.value_size (Map.lookup file_id w.data_files) entry.value
          old in
      record {
        value = entry.value;
        old_lem = old;
        file_lem = file;
        new_lem = rw (pos, value_len_lem entry, ← size) (copy_lem bytes entry);
      }

  -- While entries are copied: nothing was lost, and what waits is in the output file or its buffer.
  pub record Copying (e0 : Engine) (w : World) (s : Merging Hasher) : Type 0 where
    pub sees : Sees e0 s.engine
    pub extends : Extends w s.engine.world
    pub is_open : IsOpen (output_of s)
    pub awaited : All (Awaited is_open.id is_open.bytes s.engine.world) s.pending

  abbrev pub NothingLost : Engine → Merging Hasher → Type 0
  NothingLost e0 s = Sees e0 s.engine

  -- After the counters of a copy were changed, before the repoints that a flush lets through.
  record Noted (e0 : Engine) (w : World) (id : ℕ) (bytes : Bytes) (flushed : Bool)
      (s : Merging Hasher) : Type 0 where
    pub sees : Sees e0 s.engine
    pub extends : Extends w s.engine.world
    pub turned : Turned id bytes flushed (output_of s)
    pub awaited : All (Awaited id bytes s.engine.world) s.pending

  pub apply_pending_repoints-Sees :
      {id : ℕ} {bytes : Bytes} (s : Merging Hasher)
      → OnDisk id bytes s.engine.world
      → All (Awaited id bytes s.engine.world) s.pending
      → Sees s.engine (repoint_all no_hook s.pending s.engine)
        × ((repoint_all no_hook s.pending s.engine).world ≡ s.engine.world)
  apply_pending_repoints-Sees {id} {bytes} s on awaited = repoint_all-Sees s.pending s.engine (
      All-mono (Awaited id bytes s.engine.world) (Kept s.engine.world) s.pending
        (λ repoint a. Awaited-Kept repoint on a) awaited)

  apply_if-After :
      {e0 : Engine} {w : World} {id : ℕ} {bytes : Bytes} (flushed : Bool) (s : Merging Hasher)
      → Noted e0 w id bytes flushed s
      → After (apply_if flushed no_hook s) (λ _. Copying e0 w) (NothingLost e0)
  unfolding apply_if apply_pending_repoints
  apply_if-After {id = id} {bytes = bytes} false s noted = record {
    holds = record {
      sees = noted.sees;
      extends = noted.extends;
      is_open = record { id = id; bytes = bytes; holds = noted.turned.waits refl };
      awaited = noted.awaited;
    };
  }
  apply_if-After true s noted =
      let (sees, world) = apply_pending_repoints-Sees s (noted.turned.on_disk refl) noted.awaited in
      let opened = noted.turned.is_open in
      record {
        holds = record {
          sees = Sees-trans noted.sees sees;
          extends = Extends-trans noted.extends (Extends-same (ap (λ w. w.data_files) world));
          is_open = record {
            id = opened.id;
            bytes = opened.bytes;
            holds =
                SameFile-Holds opened.holds
                  (record { world_lem = ap (λ w. w.data_files) world; file_lem = refl });
          };
          awaited = tt;
        };
      }

  pub copy_live-After :
      {e0 : Engine} {w : World} (file_id value_pos : ℕ) (entry : Entry) (s : Merging Hasher)
      → Copying e0 w s
      → stored s.engine.world (place_of entry file_id value_pos) ≡ some entry.value
      → After
          (copy_live crc32 no_hook file_id value_pos entry s)
          (λ _. Copying e0 w)
          (NothingLost e0)
  unfolding copy_live note_copy PendingQueue.queue PendingQueue.push
  copy_live-After {e0} {w} file_id value_pos entry s copying old =
      let o = output_of s in
      let id = copying.is_open.id in
      let bytes = copying.is_open.bytes in
      After-bind (on_output (write_live_entry crc32 entry)) _
        {Q = λ found t.
          Copied crc32 id bytes (copy_of entry) found (output_of t)
          × Extends s.engine.world t.engine.world
          × (t.engine.keydir ≡ s.engine.keydir)
          × (t.pending ≡ s.pending)}
        (After-lift (write_live_entry crc32 entry o)
          (λ after. record s {
            engine = record s.engine {
              world = after.opening.world;
              next_file_id = after.opening.next_file_id;
            };
            writer = after.writer;
          })
          (After-knowing (write_live_entry crc32 entry o)
            {P = λ t. Extends s.engine.world t.opening.world}
            (write_live_entry-After crc32 entry o copying.is_open.holds)
            ((Grows-write_live_entry crc32 entry).at o))
          (λ found t _ (copied, ext). (copied, ext, refl, refl))
          (λ t ext. Sees-trans copying.sees (Sees-Extends refl ext)))
        (λ (new_file_id, new_value_pos, flushed) t (copied, ext, keydir, pending).
          let waiting : All (Awaited id (bytes ++ (copy_of entry).bytes) t.engine.world) t.pending =
            rw pending (
              All-mono (Awaited id bytes s.engine.world)
                (Awaited id (bytes ++ (copy_of entry).bytes) t.engine.world) s.pending
                (λ repoint a. Awaited-mono bytes (copy_of entry).bytes repoint ext a)
                copying.awaited) in
          apply_if-After flushed _ (record {
            sees = Sees-trans copying.sees (Sees-Extends keydir ext);
            extends = Extends-trans copying.extends ext;
            turned = copied.turned;
            awaited =
                All-append (Awaited id (bytes ++ (copy_of entry).bytes) t.engine.world) t.pending _
                  waiting
                  (
                    copy-Awaited bytes entry file_id value_pos new_file_id new_value_pos
                        (stored-Extends (place_of entry file_id value_pos) entry.value ext old)
                        copied.file_lem copied.pos_lem,
                    tt,
                  );
          }))
