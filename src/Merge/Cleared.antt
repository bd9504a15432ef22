-- ===== src/Merge/Cleared.antt =====
-- src/merge/mod.rs: after all files were copied and the last repoints applied, no key is in an input file.
use mathlib.Core.Path.{subst}
use yabiir.Base.{
  ℕ, ◌+◌, ◌<◌, ◌≡◌, refl, sym, ap, ◌∙◌, ◌⊎◌, inl, inr, some, List, [], ◌∷◌, Bytes, All, Any, arith,
}
use yabiir.Base.Map.{nat_eq}
use yabiir.Crc32.{Crc32}
use yabiir.Io.{pure, ◌>>◌}
use yabiir.Io.After.{After, After-bind, After-mono, After-lift}
use yabiir.Io.Disk.{World}
use yabiir.Io.Grows.{Extends-refl}
use yabiir.Keydir
use yabiir.Keydir.{KeydirEntry}
use yabiir.Engine.{Engine}
use yabiir.Merge.{
  Merging, on_output, apply_pending_repoints, copy_forward_live_file_entries,
  copy_forward_all_live_entries, finish_and_apply_pending_repoints, copy_all, dropped,
}
use yabiir.Merge.PendingQueue
use yabiir.Merge.OutputWriter
use yabiir.Merge.OutputWriter.{MergeOutputWriter, Output}
use yabiir.Merge.OutputWriter.Writes.{Whatever, IsOpen}
use yabiir.Merge.OutputWriter.Above.{Above, finish-Above}
use yabiir.Merge.Repoints.{Sees-refl, no_hook}
use yabiir.Merge.Moved.{Queued}
use yabiir.Merge.Copies.{output_of}
use yabiir.Merge.Keeps.{Lost}
use yabiir.Merge.Progress.{Seen, Progress, Progress-mono, apply_pending_repoints-Progress}
use yabiir.Merge.Handled.{count, IsBacked, Both, recount, copy_file-Both}

-- Whatever the keydir has in one of the files.
abbrev InFiles : List ℕ → Seen
InFiles ids key at = Any (λ id. at.file_id ≡ id) ids

-- No key is in one of the files.
pub record IsCleared (a : ℕ) (ids : List ℕ) (e : Engine) : Type 0 where
  pub cleared :
      (key : Bytes) (at : KeydirEntry)
      → Keydir.get e.keydir key ≡ some at
      → at.file_id < a
      → Any (λ id. at.file_id ≡ id) ids
      → ⊥

-- The state of a writer that was just made.
module _ {Hasher : Type 0} where
  abbrev pub at_start : MergeOutputWriter Hasher → Engine → Output Hasher
  at_start writer e = record {
    opening = record { world = e.world; next_file_id = e.next_file_id };
    writer = writer;
  }

module _ {Hasher : Type 0} (crc32 : Crc32 Hasher) (a : ℕ) (e0 : Engine)
    (backed : IsBacked crc32 a e0) where
  abbrev AndFiles : Seen → List ℕ → Seen
  AndFiles seen ids key at = seen key at ⊎ InFiles ids key at

  copy_files-Both :
      {from : Engine} {n : ℕ} (ids : List ℕ) (s : Merging Hasher) {w : World} {seen : Seen}
      → All (λ id. id < a) ids
      → Both crc32 a e0 from w (count crc32 e0.world ids + n) seen s
      → After
          (copy_forward_all_live_entries crc32 no_hook ids s)
          (λ _ t. (w' : World) × Both crc32 a e0 from w' n (AndFiles seen ids) t)
          (Lost crc32 from)
  unfolding copy_forward_all_live_entries
  copy_files-Both [] s {w} old both = record {
    holds = (
      w,
      record {
        copying = both.copying;
        progress =
            Progress-mono crc32 a e0 (recount crc32 a e0 (omega arith) both.progress)
              (λ key at there below. elim [ inl h ↦ h | inr h ↦ absurd h ]);
      },
    );
  }
  copy_files-Both {n = n} (id ∷ ids) s (old, older) both =
      After-bind (copy_forward_live_file_entries crc32 no_hook id) _
        (copy_file-Both crc32 a e0 backed {n = count crc32 e0.world ids + n} id s old (record {
          copying = both.copying;
          progress = recount crc32 a e0 (omega arith) both.progress;
        }))
        (λ _ t (w', both').
          After-mono (copy_forward_all_live_entries crc32 no_hook ids t)
            (copy_files-Both ids t older both')
            (λ _ u (w'', done). (
              w'',
              record {
                copying = done.copying;
                progress = Progress-mono crc32 a e0 done.progress (λ key at there below. elim [
                  | inl h ↦ inl (inl h)
                  | inr (inl h) ↦ inl (inr h)
                  | inr (inr h) ↦ inr h
                ]);
              },
            ))
            (λ u lost. lost))

  -- Nothing waits any more.
  record Done (n : ℕ) (seen : Seen) (s : Merging Hasher) : Type 0 where
    pub progress : Progress crc32 a e0 n seen s
    pub none_waits : s.pending ≡ []

  finish_and_apply-Done :
      {n : ℕ} {seen : Seen} (s : Merging Hasher)
      → Progress crc32 a e0 n seen s
      → After (finish_and_apply_pending_repoints crc32 no_hook s) (λ _. Done n seen) Whatever
  unfolding finish_and_apply_pending_repoints apply_pending_repoints
  finish_and_apply-Done {n} {seen} s p =
      let o = output_of crc32 s in
      After-bind (on_output (OutputWriter.finish crc32)) _ {Q = λ _ t. Progress crc32 a e0 n seen t}
        (After-lift (OutputWriter.finish crc32 o)
          (λ after. record s {
            engine = record s.engine {
              world = after.opening.world;
              next_file_id = after.opening.next_file_id;
            };
            writer = after.writer;
          })
          (finish-Above crc32 o p.above)
          (λ _ t _ above. record {
            above = above;
            origin = p.origin;
            handled = p.handled;
            news = p.news;
          })
          (λ t h. tt))
        (λ _ t q. record {
          holds = record {
            progress = (apply_pending_repoints-Progress crc32 a e0 t q).holds;
            none_waits = refl;
          };
        })

  Done-IsCleared :
      {n : ℕ} (ids : List ℕ) (s : Merging Hasher)
      → Done n (InFiles ids) s
      → IsCleared a ids s.engine
  Done-IsCleared ids s done = record {
    cleared = λ key at there below h.
        subst (Queued key at) done.none_waits (done.progress.handled key at there below h);
  }

  -- A copying of files below `a` that returns without an error leaves no key in one of them: where the
  -- keydir pointed only at intact entries, the output file is open, and it and all ids to come are at
  -- least `a`, with an id left for each entry.
  pub copy_all-IsCleared :
      (ids : List ℕ) (writer : MergeOutputWriter Hasher) (e : Engine)
      → All (λ id. id < a) ids
      → IsOpen (at_start writer e)
      → Above a (count crc32 e0.world ids) e0.world.data_files (at_start writer e)
      → e.keydir ≡ e0.keydir
      → After (copy_all crc32 no_hook ids writer e) (λ _. IsCleared a ids) Whatever
  unfolding copy_all
  copy_all-IsCleared ids writer e older opened above keydir =
      let start : Merging Hasher = record {
        engine = e;
        writer = writer;
        pending = PendingQueue.new;
        highest_output_id = OutputWriter.current_file_id writer;
        max_output_id = OutputWriter.current_file_id writer;
        live_entries_copied = 0;
      } in
      let nothing : Seen = λ key at. ⊥ in
      let progress : Progress crc32 a e0 (count crc32 e0.world ids) nothing start = record {
        above = above;
        origin = λ key at there. inl (ap (λ d. Keydir.get d key) (sym keydir) ∙ there);
        handled = λ key at there below h. absurd h;
        news = tt;
      } in
      let both : Both crc32 a e0 e e.world (count crc32 e0.world ids + 0) nothing start = record {
        copying = record {
          sees = Sees-refl e;
          extends = Extends-refl e.world;
          is_open = opened;
          awaited = tt;
        };
        progress = recount crc32 a e0 (omega arith) progress;
      } in
      let m =
        copy_forward_all_live_entries crc32 no_hook ids
        >> finish_and_apply_pending_repoints crc32 no_hook
        >> (λ s. pure s.highest_output_id s) in
      After-lift (m start) (dropped crc32 no_hook) {Q = λ _ t. IsCleared a ids t.engine}
        (After-bind
          (copy_forward_all_live_entries crc32 no_hook ids
            >> finish_and_apply_pending_repoints crc32 no_hook)
          _ {s = start} {Q = λ _ t. IsCleared a ids t.engine}
          (After-bind (copy_forward_all_live_entries crc32 no_hook ids) _
            (After-mono (copy_forward_all_live_entries crc32 no_hook ids start)
              (copy_files-Both ids start older both) (λ _ t h. h) (λ t lost. tt))
            (λ _ t (w, both').
              After-mono (finish_and_apply_pending_repoints crc32 no_hook t)
                (finish_and_apply-Done t
                  (Progress-mono crc32 a e0 both'.progress (λ key at there below h. inr h)))
                (λ _ u done. Done-IsCleared ids u done) (λ u h. h)))
          (λ _ t cleared. record { holds = cleared }))
        (λ _ t _ cleared. record { cleared = cleared.cleared }) (λ t h. tt)
