-- ===== src/Merge/Gone.antt =====
-- src/merge/mod.rs `remove_old_input_files`: where no call fails, the files are gone.
use yabiir.Base.{
  ℕ, ◌≡◌, refl, ap, ◌∙◌, Bool, true, false, Option, none, some, List, [], ◌∷◌, Bytes, All, ◌==◌,
  ==-refl, if◌then◌else◌,
}
use yabiir.Base.Map
use yabiir.Base.Map.{nat_eq, lookup-remove}
use yabiir.Io.Read.Laws.{NoFault}
use yabiir.Io.Disk.{World, syscall, remove_data, removed_data, remove_hint, removed_hint}
use yabiir.Recovery.Scan.{syscall-Settles}
use yabiir.Engine.{Engine}
use yabiir.Merge.{forget_file, remove_old_input_files}

-- Neither a data file nor a hint file has the id.
pub record IsGone (w : World) (id : ℕ) : Type 0 where
  pub no_data : Map.lookup id w.data_files ≡ none
  pub no_hint : Map.lookup id w.hint_files ≡ none

-- What is left of a list of files when some are removed.
if_none : (b : Bool) (o : Option Bytes) → o ≡ none → (if b then none else o) ≡ none
if_none true o h = refl
if_none false o h = h

remove-stays :
    (id j : ℕ) (files : List (ℕ × Bytes))
    → Map.lookup j files ≡ none
    → Map.lookup j (Map.remove id files) ≡ none
remove-stays id j files h = lookup-remove id j files ∙ if_none (id == j) (Map.lookup j files) h

remove-gone : (id : ℕ) (files : List (ℕ × Bytes)) → Map.lookup id (Map.remove id files) ≡ none
remove-gone id files = rw (lookup-remove, ==-refl id) refl

-- A removal that no failing call stops: the file is gone, what was gone before still is, and no call
-- to come fails.
record Removes (id : ℕ) (w t : World) : Type 0 where
  calm : NoFault t.plan
  data_stays : (j : ℕ) → Map.lookup j w.data_files ≡ none → Map.lookup j t.data_files ≡ none
  hint_stays : (j : ℕ) → Map.lookup j w.hint_files ≡ none → Map.lookup j t.hint_files ≡ none

remove_data-gone :
    (id : ℕ) (w : World)
    → NoFault w.plan
    → Removes id w (remove_data id w).1 × (Map.lookup id (remove_data id w).1.data_files ≡ none)
unfolding remove_data
remove_data-gone id w calm =
    let called = syscall-Settles w calm in
    rw (called.result) (
      go (syscall w).1 (Map.lookup id (syscall w).1.data_files) refl called.calm called.data_kept
        called.hints_kept)
  where
    go :
        (t : World) (o : Option Bytes)
        → Map.lookup id t.data_files ≡ o
        → NoFault t.plan
        → t.data_files ≡ w.data_files
        → t.hint_files ≡ w.hint_files
        → Removes id w (removed_data o id t).1
          × (Map.lookup id (removed_data o id t).1.data_files ≡ none)
    go t none h c dk hk = (
      record {
        calm = c;
        data_stays = λ j n. ap (Map.lookup j) dk ∙ n;
        hint_stays = λ j n. ap (Map.lookup j) hk ∙ n;
      },
      h,
    )
    go t (some bytes) h c dk hk = (
      record {
        calm = c;
        data_stays = λ j n. remove-stays id j t.data_files (ap (Map.lookup j) dk ∙ n);
        hint_stays = λ j n. ap (Map.lookup j) hk ∙ n;
      },
      remove-gone id t.data_files,
    )

remove_hint-gone :
    (id : ℕ) (w : World)
    → NoFault w.plan
    → Removes id w (remove_hint id w).1 × (Map.lookup id (remove_hint id w).1.hint_files ≡ none)
unfolding remove_hint
remove_hint-gone id w calm =
    let called = syscall-Settles w calm in
    rw (called.result) (
      go (syscall w).1 (Map.lookup id (syscall w).1.hint_files) refl called.calm called.data_kept
        called.hints_kept)
  where
    go :
        (t : World) (o : Option Bytes)
        → Map.lookup id t.hint_files ≡ o
        → NoFault t.plan
        → t.data_files ≡ w.data_files
        → t.hint_files ≡ w.hint_files
        → Removes id w (removed_hint o id t).1
          × (Map.lookup id (removed_hint o id t).1.hint_files ≡ none)
    go t none h c dk hk = (
      record {
        calm = c;
        data_stays = λ j n. ap (Map.lookup j) dk ∙ n;
        hint_stays = λ j n. ap (Map.lookup j) hk ∙ n;
      },
      h,
    )
    go t (some bytes) h c dk hk = (
      record {
        calm = c;
        data_stays = λ j n. ap (Map.lookup j) dk ∙ n;
        hint_stays = λ j n. remove-stays id j t.hint_files (ap (Map.lookup j) hk ∙ n);
      },
      remove-gone id t.hint_files,
    )

-- The files of one id.
abbrev one_removed : ℕ → World → World
one_removed id w = (remove_hint id (remove_data id w).1).1

one_removed-IsGone :
    (id : ℕ) (w : World)
    → NoFault w.plan
    → Removes id w (one_removed id w) × IsGone (one_removed id w) id
one_removed-IsGone id w calm =
    let (first, no_data) = remove_data-gone id w calm in
    let (second, no_hint) = remove_hint-gone id (remove_data id w).1 first.calm in
    (
      record {
        calm = second.calm;
        data_stays = λ j n. second.data_stays j (first.data_stays j n);
        hint_stays = λ j n. second.hint_stays j (first.hint_stays j n);
      },
      record { no_data = second.data_stays id no_data; no_hint = no_hint },
    )

-- What is gone stays gone.
removal-stays :
    (ids : List ℕ) (e : Engine) (j : ℕ)
    → NoFault e.world.plan
    → IsGone e.world j
    → IsGone (remove_old_input_files ids e).1.world j
unfolding remove_old_input_files
removal-stays [] e j calm gone = gone
removal-stays (id ∷ ids) e j calm gone =
    let removed = (one_removed-IsGone id e.world calm).0 in
    removal-stays ids (forget_file id (record e { world = one_removed id e.world })).1 j
      removed.calm
      (record {
        no_data = removed.data_stays j gone.no_data;
        no_hint = removed.hint_stays j gone.no_hint;
      })

-- As long as no call fails, no data file and no hint file with one of the ids to remove is left after
-- the removal, if there was one or not.
pub remove_old_input_files-IsGone :
    (ids : List ℕ) (e : Engine)
    → NoFault e.world.plan
    → All (IsGone (remove_old_input_files ids e).1.world) ids
unfolding remove_old_input_files
remove_old_input_files-IsGone [] e calm = tt
remove_old_input_files-IsGone (id ∷ ids) e calm =
    let (removed, gone) = one_removed-IsGone id e.world calm in
    let e' = (forget_file id (record e { world = one_removed id e.world })).1 in
    (removal-stays ids e' id removed.calm gone, remove_old_input_files-IsGone ids e' removed.calm)
