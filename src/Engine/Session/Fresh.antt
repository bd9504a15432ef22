-- ===== src/Engine/Session/Fresh.antt =====
-- src/engine.rs `open`: a store that is opened to be written has the lock, and writes to a new file.

use yabiir.Base.{
  ℕ, ◌+◌, ◌%◌, ◌≤◌, ◌<◌, ◌≡◌, refl, ap, ◌∙◌, Bool, true, false, Bool-cases, inl, inr, Option, none,
  some, List, [], ◌∷◌, All, All-mono, leb, arith,
}
use yabiir.Crc32.{Crc32}
use yabiir.Io.{◌>>◌}
use yabiir.Io.After.{After, After-bind, After-mono, After-any}
use yabiir.Io.Disk.{World, syscall}
use yabiir.Io.Grows.{SameData, syscall-SameData}
use yabiir.Format.{u32_mod}
use yabiir.Keydir
use yabiir.Datafile
use yabiir.Datafile.{ActiveFile, insert_sorted, sort, ids, discover}
use yabiir.Datafile.Stays.{create-Only}
use yabiir.Recovery.{recover}
use yabiir.Engine.{Engine, Options}
use yabiir.Engine.Session.Exclusive.{Whatever, Locks, take_lock-After}
use yabiir.Engine.Session.{take_lock, last, next_id, open_active, open_engine, holds_lock}

abbrev IsSorted : List ℕ → Type 0
IsSorted [] = Unit
IsSorted (id ∷ ids) = All (λ j. id ≤ j) ids × IsSorted ids

All-insert_sorted :
    (P : ℕ → Type 0) (id : ℕ) (l : List ℕ) → P id → All P l → All P (insert_sorted id l)
unfolding insert_sorted
All-insert_sorted P id [] p h = (p, tt)
All-insert_sorted P id (j ∷ l) p (q, h) = elim (Bool-cases (leb id j)) [
  | inl le ↦ rw le (p, (q, h))
  | inr gt ↦ rw gt (q, All-insert_sorted P id l p h)
]

insert_sorted-All :
    (P : ℕ → Type 0) (id : ℕ) (l : List ℕ) → All P (insert_sorted id l) → P id × All P l
unfolding insert_sorted
insert_sorted-All P id [] h = h
insert_sorted-All P id (j ∷ l) h = elim (Bool-cases (leb id j)) [
  | inl le ↦ let (p, q) = rw le at h in (p, q)
  | inr gt ↦
      let (q, rest) = rw gt at h in let (p, more) = insert_sorted-All P id l rest in (p, (q, more))
]

insert_sorted-IsSorted : (id : ℕ) (l : List ℕ) → IsSorted l → IsSorted (insert_sorted id l)
unfolding insert_sorted
insert_sorted-IsSorted id [] h = (tt, tt)
insert_sorted-IsSorted id (j ∷ l) (below, h) = elim (Bool-cases (leb id j)) [
  | inl le ↦ rw le (
    (ground arith, All-mono (λ k. j ≤ k) (λ k. id ≤ k) l (λ k p. ground arith) below),
    (below, h),
  )
  | inr gt ↦
      rw gt
        (All-insert_sorted (λ k. j ≤ k) id l (ground arith) below, insert_sorted-IsSorted id l h)
]

sort-IsSorted : (l : List ℕ) → IsSorted (sort l)
unfolding sort
sort-IsSorted [] = tt
sort-IsSorted (id ∷ l) = insert_sorted-IsSorted id (sort l) (sort-IsSorted l)

sort-All : (P : ℕ → Type 0) (l : List ℕ) → All P (sort l) → All P l
unfolding sort
sort-All P [] h = tt
sort-All P (id ∷ l) h = let (p, rest) = insert_sorted-All P id (sort l) h in (p, sort-All P l rest)

All-sort : (P : ℕ → Type 0) (l : List ℕ) → All P l → All P (sort l)
unfolding sort
All-sort P [] h = tt
All-sort P (id ∷ l) (p, h) = All-insert_sorted P id (sort l) p (All-sort P l h)

-- The id that is taken next is above all ids of a sorted list.
next_id-above :
    (l : List ℕ) → IsSorted l → All (λ id. id + 1 < u32_mod) l → All (λ id. id < next_id (last l)) l
next_id-above [] sorted small = tt
next_id-above (id ∷ []) sorted (small, _) = (omega (arith, small), tt)
next_id-above (id ∷ j ∷ l) ((le, _), sorted) (_, small) =
    let (above, rest) = next_id-above (j ∷ l) sorted small in
    (omega (arith, le, above), (above, rest))

-- A store that may write has the lock and was not open elsewhere, and its active file has an id above those of all files.
pub record IsFresh (w : World) (is_held : Bool) (e : Engine) : Type 0 where
  pub exclusive : e.opts.is_read_write ≡ true → is_held ≡ false
  pub locked : holds_lock e ≡ e.opts.is_read_write
  pub writer :
      e.opts.is_read_write ≡ true
      → (file : ActiveFile) × (e.active ≡ some file)
        × All (λ id. id < file.file_id) (ids w.data_files)
        × (e.next_file_id ≡ (file.file_id + 1) % u32_mod)
  pub reader : e.opts.is_read_write ≡ false → e.active ≡ none

discover-After :
    (w : World) → After (discover w) (λ file_ids t. file_ids ≡ sort (ids w.data_files)) Whatever
unfolding discover
discover-After w =
    After-bind syscall _ (After-any (syscall w) {P = SameData w} (syscall-SameData w))
      (λ _ t same. record { holds = ap (λ files. sort (ids files)) same })

-- What `open_active` returns.
abbrev Active : Bool → ℕ → Option ActiveFile → Type 0
Active b next active =
    (b ≡ true → (file : ActiveFile) × (active ≡ some file) × (file.file_id ≡ next))
    × (b ≡ false → active ≡ none)

open_active-After :
    (b : Bool) (next : ℕ) (w : World)
    → After (open_active b next w) (λ active t. Active b next active) Whatever
unfolding open_active
open_active-After true next w =
    After-bind (Datafile.create next) _ (create-Only next w)
      (λ file t (id, only). record { holds = ((λ h. (file, refl, id)), λ h. cc) })
open_active-After false next w = record { holds = ((λ h. cc), λ h. refl) }

module _ {Hasher : Type 0} (crc32 : Crc32 Hasher) where
  -- Whatever calls fail, a store that is opened to be written has the lock, no other handle had it, and
  -- its active file has an id above those of all data files that were there, where these are not at
  -- the end of `u32`; a store that is opened to be read has no lock and no active file.
  pub open_engine-IsFresh :
      (opts : Options) (is_held : Bool) (w : World)
      → All (λ id. id + 1 < u32_mod) (ids w.data_files)
      → After (open_engine crc32 opts is_held w) (λ e _. IsFresh w is_held e) Whatever
  unfolding open_engine
  open_engine-IsFresh opts is_held w small =
      let b = opts.is_read_write in
      After-bind (syscall >> take_lock b is_held) _
        {Q = λ lock t. SameData w t × Locks b is_held lock}
        (After-bind syscall _ (After-any (syscall w) {P = SameData w} (syscall-SameData w))
          (λ _ t same.
            After-mono (take_lock b is_held t) (take_lock-After b is_held t)
              (λ lock u (same', locks). (same' ∙ same, locks)) (λ u h. h)))
        (λ lock s (same, locks).
          After-bind discover _ {Q = λ file_ids t. file_ids ≡ sort (ids w.data_files)}
            (After-mono (discover s) (discover-After s)
              (λ file_ids u is. is ∙ ap (λ files. sort (ids files)) same) (λ u h. h))
            (λ file_ids t is.
              After-bind (recover crc32 file_ids Keydir.new) _ {Q = λ _ u. Unit {0}}
                (After-any (recover crc32 file_ids Keydir.new t) tt)
                (λ keydir u _.
                  After-bind (open_active b (next_id (last file_ids))) _
                    (open_active-After b (next_id (last file_ids)) u)
                    (λ active v (writes, reads). record {
                      holds = record {
                        exclusive = locks.free;
                        locked = locks.held;
                        writer = λ h.
                            let (file, there, id) = writes h in
                            (
                              file,
                              there,
                              rw (id, is)
                                  (sort-All (λ j. j < next_id (last (sort (ids w.data_files))))
                                    (ids w.data_files)
                                    (next_id-above (sort (ids w.data_files))
                                      (sort-IsSorted (ids w.data_files))
                                      (All-sort (λ j. j + 1 < u32_mod) (ids w.data_files) small))),
                              rw id refl,
                            );
                        reader = reads;
                      };
                    }))))
