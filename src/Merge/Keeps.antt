-- ===== src/Merge/Keeps.antt =====
-- src/merge/mod.rs: from the new output file to the last repoint, no key loses its value, whatever fails.
use yabiir.Base.{ℕ, suc, ◌+◌, ◌≡◌, refl, ap, some, List, [], ◌∷◌, Bytes, length, All, All-mono}
use yabiir.Base.Map
use yabiir.Base.Map.{nat_eq}
use yabiir.Crc32.{Crc32}
use yabiir.Io.{pure, ◌>>◌}
use yabiir.Io.After.{After, After-bind, After-lift, After-knowing, After-both, After-if}
use yabiir.Io.Disk.{World}
use yabiir.Io.Grows.{Extends, Extends-refl, Extends-same, SameData}
use yabiir.Format.Entry.{Entry, header_size, is_tombstone}
use yabiir.Keydir
use yabiir.Engine.{Engine, on_world}
use yabiir.Engine.View.{stored, stored-Extends}
use yabiir.Merge.{
  Merging, on_output, on_engine, read_all_entries, apply_pending_repoints, points_at, copy_live,
  copy_entry, copy_entries, copy_forward_live_file_entries, copy_forward_all_live_entries,
  finish_and_apply_pending_repoints, copy_all,
}
use yabiir.Merge.PendingQueue
use yabiir.Merge.PendingQueue.{place_of}
use yabiir.Merge.OutputWriter
use yabiir.Merge.OutputWriter.{MergeOutputWriter}
use yabiir.Merge.OutputWriter.Grows.{Grows-finish, Extends-drop_writer}
use yabiir.Merge.OutputWriter.Writes.{OnDisk, IsOpen, SameFile-Holds, finish-After}
use yabiir.Merge.Scan.{Scanned, read_all_entries-After}
use yabiir.Merge.Values.{value_pos_of, HasValue, entries-HasValue_lem}
use yabiir.Merge.Repoints.{Sees, Sees-refl, Sees-trans, Sees-Extends, no_hook}
use yabiir.Merge.Copies.{
  Copying, NothingLost, Awaited-Extends, Awaited, output_of, copy_live-After,
  apply_pending_repoints-Sees,
}

-- The value of the entry is in the file, where the keydir has it.
abbrev pub InFile : ℕ → World → ℕ × Entry → Type 0
InFile file_id w found =
    stored w (place_of found.1 file_id (value_pos_of found)) ≡ some found.1.value

HasValue-InFile :
    (file_id : ℕ) (w : World) (bytes : Bytes) (found : ℕ × Entry)
    → Map.lookup file_id w.data_files ≡ some bytes
    → HasValue bytes found
    → InFile file_id w found
unfolding stored
HasValue-InFile file_id w bytes (pos, entry) there h = rw there h

module _ {Hasher : Type 0} (crc32 : Crc32 Hasher) where
  pub Scanned-InFile :
      (file_id : ℕ) (w : World) (found : List (ℕ × Entry))
      → Scanned crc32 file_id w found
      → All (InFile file_id w) found
  Scanned-InFile file_id w found scanned = rw scanned.found_lem (
      All-mono (HasValue scanned.bytes) (InFile file_id w) _
        (λ p h. HasValue-InFile file_id w scanned.bytes p scanned.there h)
        (entries-HasValue_lem crc32 (suc (length scanned.bytes)) scanned.bytes))

  abbrev pub Lost : Engine → Merging Hasher → Type 0
  Lost = NothingLost crc32

  pub copy_entry-After :
      {e0 : Engine} {w : World} (file_id : ℕ) (found : ℕ × Entry) (s : Merging Hasher)
      → Copying crc32 e0 w s
      → InFile file_id w found
      → After (copy_entry crc32 no_hook file_id found s) (λ _. Copying crc32 e0 w) (Lost e0)
  unfolding copy_entry
  copy_entry-After file_id (offset, entry) s copying at =
      let value_pos = offset + header_size + entry.header.key_size in
      After-if (is_tombstone entry) (pure tt) _ s (λ _. record { holds = copying })
        (λ _.
          After-if (points_at file_id value_pos (Keydir.get s.engine.keydir entry.key))
            (copy_live crc32 no_hook file_id value_pos entry) (pure tt) s
            (λ _.
              copy_live-After crc32 file_id value_pos entry s copying
                (stored-Extends (place_of entry file_id value_pos) entry.value copying.extends at))
            (λ _. record { holds = copying }))

  copy_entries-After :
      {e0 : Engine} {w : World} (file_id : ℕ) (found : List (ℕ × Entry)) (s : Merging Hasher)
      → Copying crc32 e0 w s
      → All (InFile file_id w) found
      → After (copy_entries crc32 no_hook file_id found s) (λ _. Copying crc32 e0 w) (Lost e0)
  unfolding copy_entries
  copy_entries-After file_id [] s copying at = record { holds = copying }
  copy_entries-After file_id (p ∷ found) s copying (here, more) =
      After-bind (copy_entry crc32 no_hook file_id p) _ (copy_entry-After file_id p s copying here)
        (λ _ t copying'. copy_entries-After file_id found t copying' more)

  -- Where the files and the output are the same.
  pub Copying-same :
      {e0 : Engine} {w : World} {s t : Merging Hasher}
      → Copying crc32 e0 w s
      → SameData s.engine.world t.engine.world
      → t.engine.keydir ≡ s.engine.keydir
      → t.writer ≡ s.writer
      → t.pending ≡ s.pending
      → Copying crc32 e0 t.engine.world t
  Copying-same {e0} {w} {s} {t} copying same keydir writer pending =
      let opened = copying.is_open in
      record {
        sees = Sees-trans copying.sees (Sees-Extends keydir (Extends-same same));
        extends = Extends-refl t.engine.world;
        is_open = record {
          id = opened.id;
          bytes = opened.bytes;
          holds =
              SameFile-Holds opened.holds
                (record { world_lem = same; file_lem = ap (λ writer. writer.current_data) writer });
        };
        awaited = rw pending (
            All-mono (Awaited opened.id opened.bytes s.engine.world)
              (Awaited opened.id opened.bytes t.engine.world) s.pending
              (λ repoint a. Awaited-Extends repoint (Extends-same same) a) copying.awaited);
      }

  copy_file-After :
      {e0 : Engine} {w : World} (file_id : ℕ) (s : Merging Hasher)
      → Copying crc32 e0 w s
      → After
          (copy_forward_live_file_entries crc32 no_hook file_id s)
          (λ _ t. (w' : World) × Copying crc32 e0 w' t)
          (Lost e0)
  unfolding copy_forward_live_file_entries
  copy_file-After {e0} {w} file_id s copying =
      let s' = record s { max_output_id = s.highest_output_id } in
      After-bind
        ((λ s. pure tt (record s { max_output_id = s.highest_output_id }))
          >> on_engine crc32 no_hook (on_world (read_all_entries crc32 file_id)))
        _ {s = s}
        {Q = λ found t.
          Copying crc32 e0 t.engine.world t × All (InFile file_id t.engine.world) found}
        (After-lift (read_all_entries crc32 file_id s.engine.world)
          (λ u. record s' { engine = record s.engine { world = u } })
          (read_all_entries-After crc32 file_id s.engine.world)
          (λ found u _ (same, scanned). (
            Copying-same copying same refl refl refl,
            All-mono (InFile file_id s.engine.world) (InFile file_id u) found
                (λ p h.
                  stored-Extends (place_of p.1 file_id (value_pos_of p)) p.1.value
                    (Extends-same same) h)
                (Scanned-InFile file_id s.engine.world found scanned),
          ))
          (λ u same. Sees-trans copying.sees (Sees-Extends refl (Extends-same same))))
        (λ found t (copying', at).
          After-bind (copy_entries crc32 no_hook file_id found) _
            (copy_entries-After file_id found t copying' at)
            (λ _ u done. record {
              holds = (u.engine.world, Copying-same done refl refl refl refl);
            }))

  copy_files-After :
      {e0 : Engine} (ids : List ℕ) (s : Merging Hasher) {w : World}
      → Copying crc32 e0 w s
      → After
          (copy_forward_all_live_entries crc32 no_hook ids s)
          (λ _ t. (w' : World) × Copying crc32 e0 w' t)
          (Lost e0)
  unfolding copy_forward_all_live_entries
  copy_files-After [] s {w} copying = record { holds = (w, copying) }
  copy_files-After (id ∷ ids) s copying =
      After-bind (copy_forward_live_file_entries crc32 no_hook id) _ (copy_file-After id s copying)
        (λ _ t (w', copying'). copy_files-After ids t copying')

  pub finish_and_apply-After :
      {e0 : Engine} {w : World} (s : Merging Hasher)
      → Copying crc32 e0 w s
      → After (finish_and_apply_pending_repoints crc32 no_hook s) (λ _. Lost e0) (Lost e0)
  unfolding finish_and_apply_pending_repoints apply_pending_repoints
  finish_and_apply-After {e0} s copying =
      let o = output_of crc32 s in
      let opened = copying.is_open in
      After-bind (on_output (OutputWriter.finish crc32)) _
        {Q = λ _ t.
          Sees e0 t.engine
          × OnDisk opened.id opened.bytes t.engine.world
          × All (Awaited opened.id opened.bytes t.engine.world) t.pending}
        (After-lift (OutputWriter.finish crc32 o)
          (λ after. record s {
            engine = record s.engine {
              world = after.opening.world;
              next_file_id = after.opening.next_file_id;
            };
            writer = after.writer;
          })
          (After-knowing (OutputWriter.finish crc32 o)
            {P = λ t. Extends s.engine.world t.opening.world} (finish-After crc32 o opened.holds)
            ((Grows-finish crc32).at o))
          (λ _ t _ (on, ext). (
            Sees-trans copying.sees (Sees-Extends refl ext),
            on,
            All-mono (Awaited opened.id opened.bytes s.engine.world)
                (Awaited opened.id opened.bytes t.opening.world) s.pending
                (λ repoint a. Awaited-Extends repoint ext a) copying.awaited,
          ))
          (λ t ext. Sees-trans copying.sees (Sees-Extends refl ext)))
        (λ _ t (sees, on, awaited). record {
          holds = Sees-trans sees (apply_pending_repoints-Sees crc32 t on awaited).0;
        })

  -- From a new output file to the last repoint and the end of the writer.
  pub copy_all-Sees :
      (ids : List ℕ) (writer : MergeOutputWriter Hasher) (e : Engine)
      → IsOpen (record {
        opening = record { world = e.world; next_file_id = e.next_file_id };
        writer = writer;
      })
      → Sees e (copy_all crc32 no_hook ids writer e).1
  unfolding copy_all
  copy_all-Sees ids writer e opened =
      let start : Merging Hasher = record {
        engine = e;
        writer = writer;
        pending = PendingQueue.new;
        highest_output_id = OutputWriter.current_file_id writer;
        max_output_id = OutputWriter.current_file_id writer;
        live_entries_copied = 0;
      } in
      let copying : Copying crc32 e e.world start = record {
        sees = Sees-refl e;
        extends = Extends-refl e.world;
        is_open = opened;
        awaited = tt;
      } in
      let m =
        copy_forward_all_live_entries crc32 no_hook ids
        >> finish_and_apply_pending_repoints crc32 no_hook
        >> (λ s. pure s.highest_output_id s) in
      let done =
        After-both (m start)
          (After-bind
            (copy_forward_all_live_entries crc32 no_hook ids
              >> finish_and_apply_pending_repoints crc32 no_hook)
            _
            (After-bind (copy_forward_all_live_entries crc32 no_hook ids) _
              (copy_files-After ids start copying)
              (λ _ t (w, copying'). finish_and_apply-After t copying'))
            (λ _ t sees. record { holds = sees }))
          (λ id t sees. sees) in
      Sees-trans done (Sees-Extends refl (Extends-drop_writer crc32 (output_of crc32 (m start).1)))
