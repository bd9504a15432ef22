-- ===== src/Merge/Removal.antt =====
-- src/merge/mod.rs `remove_old_input_files`: no other file is removed, whatever fails.
use yabiir.Base.{
  ℕ, ◌≡◌, refl, sym, ap, ◌∙◌, inl, inr, false, Bool-cases, Option, none, some, List, [], ◌∷◌, Bytes,
  Any, ◌==◌, ==_iff,
}
use yabiir.Base.Map
use yabiir.Base.Map.{nat_eq, lookup-remove}
use yabiir.Error.{ok}
use yabiir.Io.{Outcome, full, part, fail}
use yabiir.Io.After.{After-bind, After-both, After-always}
use yabiir.Io.Disk.{
  World, next_outcome, settle, syscall, remove_data, removed_data, remove_hint, removed_hint,
}
use yabiir.Io.Grows.{SameData, syscall-SameData}
use yabiir.Keydir
use yabiir.Keydir.{KeydirEntry}
use yabiir.Engine.{Engine}
use yabiir.Engine.View.{view, stored, stored_at}
use yabiir.Merge.{forget_file, remove_old_input_files}
use yabiir.Merge.Repoints.{Sees}

-- A file that is not one of those is as it was, a data file and a hint file.
pub record Others (ids : List ℕ) (w t : World) : Type 0 where
  pub hint_at :
      (j : ℕ) → (Any (λ id. j ≡ id) ids → ⊥) → Map.lookup j t.hint_files ≡ Map.lookup j w.hint_files
  pub at :
      (j : ℕ) → (Any (λ id. j ≡ id) ids → ⊥) → Map.lookup j t.data_files ≡ Map.lookup j w.data_files

removed_data-Others :
    (id j : ℕ) (o : Option Bytes) (w : World)
    → id == j ≡ false
    → Map.lookup j (removed_data o id w).1.data_files ≡ Map.lookup j w.data_files
removed_data-Others id j none w other = refl
removed_data-Others id j (some bytes) w other = rw (lookup-remove, other) refl

remove_data-other :
    (id j : ℕ) (w : World)
    → id == j ≡ false
    → Map.lookup j (remove_data id w).1.data_files ≡ Map.lookup j w.data_files
unfolding remove_data
remove_data-other id j w other =
    After-both (remove_data id w) {Q = λ _ t. Map.lookup j t.data_files ≡ Map.lookup j w.data_files}
      {E = λ t. Map.lookup j t.data_files ≡ Map.lookup j w.data_files}
      (After-bind syscall _ (After-always (syscall w) (ap (Map.lookup j) (syscall-SameData w)))
        (λ _ t same.
          After-always (removed_data (Map.lookup id t.data_files) id t)
            (removed_data-Others id j (Map.lookup id t.data_files) t other ∙ same)))
      (λ _ t h. h)

settle-hints : (o : Outcome) (w : World) → (settle o w).1.hint_files ≡ w.hint_files
settle-hints full w = refl
settle-hints (part k) w = refl
settle-hints (fail k) w = refl

syscall-hints : (w : World) → (syscall w).1.hint_files ≡ w.hint_files
unfolding syscall
syscall-hints w = settle-hints (next_outcome w.plan).0 _

removed_data-hints :
    (id : ℕ) (o : Option Bytes) (w : World) → (removed_data o id w).1.hint_files ≡ w.hint_files
removed_data-hints id none w = refl
removed_data-hints id (some bytes) w = refl

-- The removal of a data file leaves all hint files.
remove_data-hints : (id : ℕ) (w : World) → (remove_data id w).1.hint_files ≡ w.hint_files
unfolding remove_data
remove_data-hints id w =
    After-both (remove_data id w) {Q = λ _ t. t.hint_files ≡ w.hint_files}
      {E = λ t. t.hint_files ≡ w.hint_files}
      (After-bind syscall _ (After-always (syscall w) (syscall-hints w)) (λ _ t same.
        After-always (removed_data (Map.lookup id t.data_files) id t)
          (removed_data-hints id (Map.lookup id t.data_files) t ∙ same)))
      (λ _ t h. h)

removed_hint-Others :
    (id j : ℕ) (o : Option Bytes) (w : World)
    → id == j ≡ false
    → Map.lookup j (removed_hint o id w).1.hint_files ≡ Map.lookup j w.hint_files
removed_hint-Others id j none w other = refl
removed_hint-Others id j (some bytes) w other = rw (lookup-remove, other) refl

remove_hint-other :
    (id j : ℕ) (w : World)
    → id == j ≡ false
    → Map.lookup j (remove_hint id w).1.hint_files ≡ Map.lookup j w.hint_files
unfolding remove_hint
remove_hint-other id j w other =
    After-both (remove_hint id w) {Q = λ _ t. Map.lookup j t.hint_files ≡ Map.lookup j w.hint_files}
      {E = λ t. Map.lookup j t.hint_files ≡ Map.lookup j w.hint_files}
      (After-bind syscall _ (After-always (syscall w) (ap (Map.lookup j) (syscall-hints w)))
        (λ _ t same.
          After-always (removed_hint (Map.lookup id t.hint_files) id t)
            (removed_hint-Others id j (Map.lookup id t.hint_files) t other ∙ same)))
      (λ _ t h. h)

removed_hint-SameData : (id : ℕ) (o : Option Bytes) (w : World) → SameData w (removed_hint o id w).1
removed_hint-SameData id none w = refl
removed_hint-SameData id (some bytes) w = refl

remove_hint-SameData : (id : ℕ) (w : World) → SameData w (remove_hint id w).1
unfolding remove_hint
remove_hint-SameData id w =
    After-both (remove_hint id w) {Q = λ _ t. SameData w t} {E = SameData w}
      (After-bind syscall _ (After-always (syscall w) (syscall-SameData w)) (λ _ t same.
        After-always (removed_hint (Map.lookup id t.hint_files) id t)
          (removed_hint-SameData id (Map.lookup id t.hint_files) t ∙ same)))
      (λ _ t h. h)

-- An id that is not one of those is not the first of them.
not_first : (id j : ℕ) (ids : List ℕ) → (Any (λ i. j ≡ i) (id ∷ ids) → ⊥) → id == j ≡ false
not_first id j ids other = elim (Bool-cases (id == j)) [
  | inl same ↦ absurd (other (inl (sym ((==_iff id j).0 same))))
  | inr different ↦ different
]

-- The files that a removal leaves.
pub record Removed (ids : List ℕ) (e e' : Engine) : Type 0 where
  pub others : Others ids e.world e'.world
  pub keydir_kept : e'.keydir ≡ e.keydir

-- Whatever calls fail, the removal returns without an error, it leaves the keydir as it is, and each
-- data file and each hint file whose id is not one of those to remove has the bytes that it had.
pub remove_old_input_files-After :
    (ids : List ℕ) (e : Engine)
    → ((remove_old_input_files ids e).0 ≡ ok tt) × Removed ids e (remove_old_input_files ids e).1
unfolding remove_old_input_files
remove_old_input_files-After [] e = (
  refl,
  record { others = record { at = λ j h. refl; hint_at = λ j h. refl }; keydir_kept = refl },
)
remove_old_input_files-After (id ∷ ids) e =
    let w1 = (remove_data id e.world).1 in
    let e' = (forget_file id (record e { world = (remove_hint id w1).1 })).1 in
    let (result, more) = remove_old_input_files-After ids e' in
    (
      result,
      record {
        others = record {
          at = λ j other.
              more.others.at j (λ h. other (inr h))
              ∙ ap (Map.lookup j) (remove_hint-SameData id w1)
              ∙ remove_data-other id j e.world (not_first id j ids other);
          hint_at = λ j other.
              more.others.hint_at j (λ h. other (inr h))
              ∙ remove_hint-other id j w1 (not_first id j ids other)
              ∙ ap (Map.lookup j) (remove_data-hints id e.world);
        };
        keydir_kept = more.keydir_kept;
      },
    )

stored_at-Others :
    (ids : List ℕ) (w t : World) (o : Option KeydirEntry) (value : Bytes)
    → Others ids w t
    → ((at : KeydirEntry) → o ≡ some at → Any (λ id. at.file_id ≡ id) ids → ⊥)
    → stored_at w o ≡ some value
    → stored_at t o ≡ some value
unfolding stored
stored_at-Others ids w t none value others clear h = h
stored_at-Others ids w t (some at) value others clear h =
    rw (others.at at.file_id (clear at refl)) h

-- Where no key is in one of the files, no value goes with them.
pub Removed-Sees :
    (ids : List ℕ) (e e' : Engine)
    → Removed ids e e'
    → ((key : Bytes) (at : KeydirEntry)
        → Keydir.get e.keydir key ≡ some at
        → Any (λ id. at.file_id ≡ id) ids
        → ⊥)
    → Sees e e'
unfolding view
Removed-Sees ids e e' removed clear = record {
  at = λ key value h. rw (removed.keydir_kept) (
      stored_at-Others ids e.world e'.world (Keydir.get e.keydir key) value removed.others
        (clear key) h);
}
