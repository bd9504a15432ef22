-- ===== src/Merge/Progress.antt =====
-- src/merge/mod.rs: how far the copying is. An entry that was looked at is no longer where the keydir
-- points, or waits to be repointed; the input files are as they were.
use yabiir.Base.{
  ℕ, suc, ◌+◌, ◌≤◌, ◌<◌, ◌≡◌, refl, sym, ap, ◌∙◌, ◌⊎◌, inl, inr, Bool, true, false, some, [], ◌∷◌,
  Bytes, All, Any-append_left, Any-append_right, All-append, ==-refl, arith,
}
use yabiir.Crc32.{Crc32}
use yabiir.Io.{pure}
use yabiir.Io.After.{After, After-bind, After-mono, After-lift, After-and, After-if}
use yabiir.Format.Entry.{Entry, header_size, is_tombstone}
use yabiir.Keydir
use yabiir.Keydir.{KeydirEntry}
use yabiir.Engine.{Engine}
use yabiir.Merge.{
  Merging, on_output, apply_pending_repoints, apply_if, note_copy, points_at, copy_live, copy_entry,
}
use yabiir.Merge.PendingQueue
use yabiir.Merge.PendingQueue.{place_of}
use yabiir.Merge.OutputWriter.{write_live_entry}
use yabiir.Merge.OutputWriter.Writes.{Whatever, IsOpen, write_live_entry-After}
use yabiir.Merge.OutputWriter.Above.{Above, Above-same, fewer, write_live_entry-Above}
use yabiir.Merge.Repoints.{no_hook}
use yabiir.Merge.Moved.{IsNew, IsFor, Queued, repoint_all-moved, repoint_all-engine}
use yabiir.Merge.Copies.{output_of}
use yabiir.Merge.Values.{value_pos_of}

-- The keydir has the key at that entry of the file.
abbrev pub IsPlace : ℕ → Bytes → KeydirEntry → ℕ × Entry → Type 0
IsPlace file_id key at found =
    (found.1.key ≡ key)
    × (is_tombstone found.1 ≡ false)
    × (place_of found.1 file_id (value_pos_of found) ≡ at)

-- What is known of a key and of where the keydir has it.
abbrev pub Seen : Type 1
Seen = Bytes → KeydirEntry → Type 0

module _ {Hasher : Type 0} (crc32 : Crc32 Hasher) (a : ℕ) (e0 : Engine) where
  -- `n` more entries may be written. What was seen is done with, or waits.
  pub record Progress (n : ℕ) (seen : Seen) (s : Merging Hasher) : Type 0 where
    pub above : Above a n e0.world.data_files (output_of crc32 s)
    pub origin :
        (key : Bytes) (at : KeydirEntry)
        → Keydir.get s.engine.keydir key ≡ some at
        → (Keydir.get e0.keydir key ≡ some at) ⊎ (a ≤ at.file_id)
    pub handled :
        (key : Bytes) (at : KeydirEntry)
        → Keydir.get s.engine.keydir key ≡ some at
        → at.file_id < a
        → seen key at
        → Queued key at s.pending
    pub news : All (IsNew a) s.pending

  pub Progress-mono :
      {n : ℕ} {seen more : Seen} {s : Merging Hasher}
      → Progress n seen s
      → ((key : Bytes) (at : KeydirEntry)
          → Keydir.get s.engine.keydir key ≡ some at
          → at.file_id < a
          → more key at
          → seen key at)
      → Progress n more s
  Progress-mono p f = record {
    above = p.above;
    origin = p.origin;
    handled = λ key at there old h. p.handled key at there old (f key at there old h);
    news = p.news;
  }

  pub apply_pending_repoints-Progress :
      {n : ℕ} {seen : Seen} (s : Merging Hasher)
      → Progress n seen s
      → After (apply_pending_repoints no_hook s) (λ _. Progress n seen) Whatever
  unfolding apply_pending_repoints
  apply_pending_repoints-Progress s p =
      let same = repoint_all-engine s.pending s.engine in
      record {
        holds = record {
          above =
              Above-same p.above (ap (λ e. e.world.data_files) same) (ap (λ e. e.next_file_id) same)
                refl;
          origin = λ key at there.
              elim (repoint_all-moved a s.pending s.engine p.news key at there) [
                | inr above ↦ inr above
                | inl (before, other) ↦ p.origin key at before
              ];
          handled = λ key at there old h.
              elim (repoint_all-moved a s.pending s.engine p.news key at there) [
                | inr above ↦ absurd (omega (arith, above, old))
                | inl (before, other) ↦ absurd (other (p.handled key at before old h))
              ];
          news = tt;
        };
      }

  pub apply_if-Progress :
      {n : ℕ} {seen : Seen} (flushed : Bool) (s : Merging Hasher)
      → Progress n seen s
      → After (apply_if flushed no_hook s) (λ _. Progress n seen) Whatever
  unfolding apply_if
  apply_if-Progress true s p = apply_pending_repoints-Progress s p
  apply_if-Progress false s p = record { holds = p }

  -- The entry of the key, if the place is the keydir's.
  abbrev pub AndAt : Seen → Bytes → KeydirEntry → Seen
  AndAt seen key at k kd = seen k kd ⊎ ((key ≡ k) × (at ≡ kd))

  copy_live-Progress :
      {n : ℕ} {seen : Seen} (file_id value_pos : ℕ) (entry : Entry) (s : Merging Hasher)
      → IsOpen (output_of crc32 s)
      → Progress (suc n) seen s
      → After
          (copy_live crc32 no_hook file_id value_pos entry s)
          (λ _. Progress n (AndAt seen entry.key (place_of entry file_id value_pos)))
          Whatever
  unfolding copy_live note_copy PendingQueue.queue PendingQueue.push
  copy_live-Progress {n} {seen} file_id value_pos entry s opened p =
      let o = output_of crc32 s in
      let old = place_of entry file_id value_pos in
      let id_above : a ≤ opened.id = rw (← opened.holds.held.same_id) p.above.fresh in
      After-bind (on_output (write_live_entry crc32 entry)) _
        {Q = λ found t.
          (a ≤ found.0)
          × Above a n e0.world.data_files (output_of crc32 t)
          × (t.engine.keydir ≡ s.engine.keydir)
          × (t.pending ≡ s.pending)}
        (After-lift (write_live_entry crc32 entry o)
          (λ after. record s {
            engine = record s.engine {
              world = after.opening.world;
              next_file_id = after.opening.next_file_id;
            };
            writer = after.writer;
          })
          (After-and (write_live_entry crc32 entry o)
            (write_live_entry-After crc32 entry o opened.holds)
            (write_live_entry-Above crc32 entry o p.above))
          (λ found t _ (copied, above). (rw copied.file_lem id_above, above, refl, refl))
          (λ t h. tt))
        (λ (new_file_id, new_value_pos, flushed) t (is_new, above, keydir, pending).
          let repoint : PendingQueue.Repoint =
            (entry.key, old, place_of entry new_file_id new_value_pos) in
          apply_if-Progress flushed _ (record {
            above = Above-same above refl refl refl;
            origin =
                λ key at there. p.origin key at (ap (λ d. Keydir.get d key) (sym keydir) ∙ there);
            handled = λ key at there below. elim [
              | inl h ↦ Any-append_left (IsFor key at) t.pending (repoint ∷ []) (
                  rw pending
                    (p.handled key at (ap (λ d. Keydir.get d key) (sym keydir) ∙ there) below h))
              | inr is ↦ Any-append_right (IsFor key at) t.pending (repoint ∷ []) (inl is)
            ];
            news = All-append (IsNew a) t.pending (repoint ∷ []) (rw pending p.news) (is_new, tt);
          }))

  fewer_left :
      {n : ℕ} {seen : Seen} {s : Merging Hasher} → Progress (suc n) seen s → Progress n seen s
  fewer_left p = record {
    above = fewer p.above;
    origin = p.origin;
    handled = p.handled;
    news = p.news;
  }

  -- An entry that was looked at is seen.
  abbrev pub AndEntry : Seen → ℕ → ℕ × Entry → Seen
  AndEntry seen file_id found key at = seen key at ⊎ IsPlace file_id key at found

  points_at-place :
      (file_id value_pos : ℕ) (at : KeydirEntry)
      → at.file_id ≡ file_id
      → at.value_pos ≡ value_pos
      → points_at file_id value_pos (some at) ≡ true
  unfolding points_at
  points_at-place file_id value_pos at f v = rw (f, v, ==-refl file_id) (==-refl value_pos)

  pub copy_entry-Progress :
      {n : ℕ} {seen : Seen} (file_id : ℕ) (found : ℕ × Entry) (s : Merging Hasher)
      → IsOpen (output_of crc32 s)
      → Progress (suc n) seen s
      → After
          (copy_entry crc32 no_hook file_id found s)
          (λ _. Progress n (AndEntry seen file_id found))
          Whatever
  unfolding copy_entry
  copy_entry-Progress file_id (offset, entry) s opened p =
      let value_pos = offset + header_size + entry.header.key_size in
      After-if (is_tombstone entry) (pure tt) _ s
        (λ dead. record {
          holds =
              Progress-mono (fewer_left p)
                (λ key at there below. elim [ inl h ↦ h | inr (k, alive, place) ↦ cc ]);
        })
        (λ _.
          After-if (points_at file_id value_pos (Keydir.get s.engine.keydir entry.key))
            (copy_live crc32 no_hook file_id value_pos entry) (pure tt) s
            (λ _.
              After-mono (copy_live crc32 no_hook file_id value_pos entry s)
                (copy_live-Progress file_id value_pos entry s opened p)
                (λ _ t q. Progress-mono q (λ key at there below. elim [
                  | inl h ↦ inl h
                  | inr (k, alive, place) ↦ inr (k, place)
                ]))
                (λ t h. h))
            (λ gone. record {
              holds = Progress-mono (fewer_left p) (λ key at there below. elim [
                | inl h ↦ h
                | inr (k, alive, place) ↦
                    let hit =
                      points_at-place file_id value_pos at (sym (ap (λ x. x.file_id) place))
                        (sym (ap (λ x. x.value_pos) place)) in
                    let here : Keydir.get s.engine.keydir entry.key ≡ some at =
                      ap (Keydir.get s.engine.keydir) k ∙ there in
                    let miss : points_at file_id value_pos (some at) ≡ false = rw here at gone in cc
              ]);
            }))
