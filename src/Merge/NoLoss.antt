-- ===== src/Merge/NoLoss.antt =====
-- src/merge/mod.rs and src/engine.rs `merge`: compaction loses no value, whatever call fails.
use mathlib.Core.Path.{subst}
use yabiir.Base.{
  ℕ, suc, ◌+◌, ◌^◌, ◌≤◌, ◌<◌, ◌≡◌, refl, sym, ap, inl, inr, Bool-cases, Option, none, some, List,
  [], ◌∷◌, Bytes, All, Any, ltb, leb, if◌then◌else◌, arith,
}
use yabiir.Base.Map
use yabiir.Base.Map.{nat_eq}
use yabiir.Crc32.{Crc32}
use yabiir.Error.{read_only}
use yabiir.Io.{pure, raise}
use yabiir.Io.After.{
  After, After-bind, After-mono, After-lift, After-and, After-knowing, After-both, After-always,
  After-if,
}
use yabiir.Io.Disk.{World, syscall}
use yabiir.Io.Grows.{Extends, Extends-same, SameData, syscall-After}
use yabiir.Datafile
use yabiir.Datafile.{ActiveFile}
use yabiir.Engine.{Engine, require_write, on_world}
use yabiir.Engine.View.{view}
use yabiir.Engine.Grows.{Keeps-rotate_if}
use yabiir.Merge.{
  keep_below, collect_input_ids, copy_all, on_opening, remove_old_input_files, restore_active_file,
  merge_files, merge_from, merge_with_repoint_hook, merge,
}
use yabiir.Merge.OutputWriter.{Opening, new_writer}
use yabiir.Merge.OutputWriter.Grows.{Grows-new_writer}
use yabiir.Merge.OutputWriter.Writes.{IsOpen, new_writer-After}
use yabiir.Merge.OutputWriter.Above.{Free, Above, new_writer-Above}
use yabiir.Merge.Repoints.{Sees, Sees-refl, Sees-trans, Sees-Extends, no_hook}
use yabiir.Merge.Keeps.{copy_all-Sees}
use yabiir.Merge.Handled.{count, IsBacked}
use yabiir.Merge.Cleared.{IsCleared, at_start, copy_all-IsCleared}
use yabiir.Merge.Removal.{Removed-Sees, remove_old_input_files-After}

keep_below-below : (a : ℕ) (ids : List ℕ) → All (λ id. id < a) (keep_below a ids)
unfolding keep_below
keep_below-below a [] = tt
keep_below-below a (id ∷ ids) = keep_if a id (keep_below a ids) (keep_below-below a ids)
  where
    keep_if :
        (a id : ℕ) (rest : List ℕ)
        → All (λ id. id < a) rest
        → All (λ id. id < a) (if ltb id a then id ∷ rest else rest)
    keep_if a id rest h = elim (Bool-cases (ltb id a)) [
      | inl old ↦ rw old (ground arith, h)
      | inr new ↦ rw new h
    ]

-- The files older than one, in the order in which they are merged.
abbrev pub inputs : ℕ → World → List ℕ
inputs a w = keep_below a (Datafile.sort (Datafile.ids w.data_files))

collect_input_ids-After :
    (a : ℕ) (e : Engine)
    → After
        (collect_input_ids a e)
        (λ ids t.
          (ids ≡ inputs a e.world) × SameData e.world t.world × (t ≡ record e { world = t.world }))
        (Sees e)
unfolding collect_input_ids Datafile.discover
collect_input_ids-After a e =
    After-bind (on_world Datafile.discover) _
      {Q = λ ids t.
        (ids ≡ Datafile.sort (Datafile.ids e.world.data_files))
        × SameData e.world t.world
        × (t ≡ record e { world = t.world })}
      (After-lift (Datafile.discover e.world) (λ w. record e { world = w })
        {Q = λ ids t. (ids ≡ Datafile.sort (Datafile.ids e.world.data_files)) × SameData e.world t}
        (After-bind syscall _ (syscall-After e.world) (λ _ t same. record {
          holds = (ap (λ files. Datafile.sort (Datafile.ids files)) same, same);
        }))
        (λ ids t _ (is, same). (is, same, refl)) (λ t same. Sees-Extends refl (Extends-same same)))
      (λ ids t (is, same, kept). record { holds = (ap (keep_below a) is, same, kept) })

restore_active_file-Sees :
    (id : ℕ) (file : Option ActiveFile) (e : Engine) → Sees e (restore_active_file id file e).1
unfolding restore_active_file
restore_active_file-Sees id none e = Sees-refl e
restore_active_file-Sees id (some file) e =
    let serves = (Keeps-rotate_if (leb file.file_id id)).at e in
    Sees-Extends serves.keydir_kept serves.extends

below_one : {a : ℕ} (ids : List ℕ) (id : ℕ) → All (λ j. j < a) ids → Any (λ j. id ≡ j) ids → id < a
below_one [] id older h = absurd h
below_one (j ∷ ids) id (old, older) (inl h) = rw h old
below_one (j ∷ ids) id (old, older) (inr h) = below_one ids id older h

module _ {Hasher : Type 0} (crc32 : Crc32 Hasher) (a : ℕ) (e0 : Engine)
    (backed : IsBacked crc32 a e0) where
  -- The removal, after a copying that succeeded.
  remove-Sees :
      (ids : List ℕ) (e : Engine)
      → All (λ id. id < a) ids
      → IsCleared a ids e
      → Sees e (remove_old_input_files ids e).1
  remove-Sees ids e older cleared =
      let (_, removed) = remove_old_input_files-After ids e in
      Removed-Sees ids e _ removed
        (λ key at there h. cleared.cleared key at there (below_one ids at.file_id older h) h)

  merge_files-After :
      (ids : List ℕ) (e : Engine)
      → All (λ id. id < a) ids
      → Free a
          (suc (count crc32 e0.world ids))
          e0.world.data_files
          (record { world = e.world; next_file_id = e.next_file_id })
      → e.keydir ≡ e0.keydir
      → After (merge_files crc32 no_hook ids e) (λ _. Sees e) (Sees e)
  unfolding merge_files
  merge_files-After [] e older free keydir = record { holds = Sees-refl e }
  merge_files-After (id ∷ ids) e older free keydir =
      let o : Opening = record { world = e.world; next_file_id = e.next_file_id } in
      let size = e.opts.max_file_size in
      After-bind (λ e. on_opening crc32 no_hook (new_writer crc32 e.opts.max_file_size) e) _
        {Q = λ writer t.
          Sees e t
          × IsOpen (at_start writer t)
          × (t.keydir ≡ e0.keydir)
          × Above a (count crc32 e0.world (id ∷ ids)) e0.world.data_files (at_start writer t)}
        (After-lift (new_writer crc32 size o)
          (λ after. record e { world = after.world; next_file_id = after.next_file_id })
          (After-knowing (new_writer crc32 size o) {P = λ t. Extends e.world t.world}
            (After-and (new_writer crc32 size o) (new_writer-After crc32 size o)
              (new_writer-Above crc32 size (count crc32 e0.world (id ∷ ids)) o free))
            ((Grows-new_writer crc32 size).at o))
          (λ writer t _ ((opened, above), ext). (Sees-Extends refl ext, opened, keydir, above))
          (λ t ext. Sees-Extends refl ext))
        (λ writer t (sees, opened, keydir', above).
          After-bind (copy_all crc32 no_hook (id ∷ ids) writer) _
            (After-mono (copy_all crc32 no_hook (id ∷ ids) writer t)
              (After-knowing (copy_all crc32 no_hook (id ∷ ids) writer t) {P = Sees t}
                (copy_all-IsCleared crc32 a e0 backed (id ∷ ids) writer t older opened above
                  keydir')
                (copy_all-Sees crc32 (id ∷ ids) writer t opened))
              (λ _ u h. h) (λ u sees'. Sees-trans sees sees'))
            (λ highest u (cleared, sees').
              After-bind (remove_old_input_files (id ∷ ids)) _
                (After-always (remove_old_input_files (id ∷ ids) u)
                  (Sees-trans sees (Sees-trans sees' (remove-Sees (id ∷ ids) u older cleared))))
                (λ _ v sees''.
                  After-always (restore_active_file highest v.active v)
                    (Sees-trans sees'' (restore_active_file-Sees highest v.active v)))))

-- A store to merge: where the keydir has a key in a file that is there and older than the active one,
-- that file has an intact entry of the key that is no tombstone, at that place; and the ids of files do
-- not run out.
pub record IsMergeable {Hasher : Type 0} (crc32 : Crc32 Hasher) (e : Engine) : Type 0 where
  pub file : ActiveFile
  pub is_active : e.active ≡ some file
  pub backed : IsBacked crc32 file.file_id e
  pub newest : file.file_id ≤ e.next_file_id
  pub room : e.next_file_id + suc (count crc32 e.world (inputs file.file_id e.world)) < 2 ^ 32

require_write-Sees : (e : Engine) → After (require_write e) (λ _ t. t ≡ e) (Sees e)
unfolding require_write
require_write-Sees e =
    After-if e.opts.is_read_write (pure tt) (raise read_only) e (λ _. record { holds = refl })
      (λ _. record { holds = Sees-refl e })

module _ {Hasher : Type 0} (crc32 : Crc32 Hasher) where
  merge_from-Sees :
      (e : Engine) (h : IsMergeable crc32 e)
      → After (merge_from crc32 no_hook (some h.file) e) (λ _. Sees e) (Sees e)
  unfolding merge_from
  merge_from-Sees e h =
      let a = h.file.file_id in
      After-bind (collect_input_ids a) _ (collect_input_ids-After a e) (λ ids t (is, same, kept).
        let keydir : t.keydir ≡ e.keydir = ap (λ e. e.keydir) kept in
        let next : t.next_file_id ≡ e.next_file_id = ap (λ e. e.next_file_id) kept in
        let before : Sees e t = Sees-Extends keydir (Extends-same same) in
        let room : e.next_file_id + suc (count crc32 e.world ids) < 2 ^ 32 = rw is h.room in
        After-mono (merge_files crc32 no_hook ids t)
          (merge_files-After crc32 a e h.backed ids t (rw is (keep_below-below a _))
            (record {
              untouched = λ j old. ap (Map.lookup j) same;
              next_lem = rw next h.newest;
              room = rw next room;
            })
            keydir)
          (λ _ u sees. Sees-trans before sees) (λ u sees. Sees-trans before sees))

  merge-Sees : (e : Engine) → IsMergeable crc32 e → Sees e (merge crc32 e).1
  unfolding merge merge_with_repoint_hook
  merge-Sees e h =
      After-both (merge crc32 e) {Q = λ _. Sees e} {E = Sees e}
        (After-bind require_write _ (require_write-Sees e) (λ _ t same.
          subst (λ u. After (merge_from crc32 no_hook u.active u) (λ _. Sees e) (Sees e)) (sym same)
            (subst (λ o. After (merge_from crc32 no_hook o e) (λ _. Sees e) (Sees e))
              (sym h.is_active) (merge_from-Sees e h))))
        (λ _ t sees. sees)

  -- A merge loses no value, whatever call fails and where: each key that had a value has it
  -- afterwards, in a store with an active file, where the keydir points, in the older files that are
  -- there, only at intact entries, and the ids of files do not run out.
  pub merge_keeps :
      (e : Engine) (key value : Bytes)
      → IsMergeable crc32 e
      → view e key ≡ some value
      → view (merge crc32 e).1 key ≡ some value
  merge_keeps e key value h shown = (merge-Sees e h).at key value shown
