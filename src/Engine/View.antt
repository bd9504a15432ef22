-- ===== src/Engine/View.antt =====
-- src/engine.rs: the abstract view of a store, the map from a key to the value that its keydir entry
-- points at. Bytes added behind the files do not change it.
use yabiir.Base.{
  ℕ, ◌+◌, ◌≤◌, ◌≡◌, refl, true, Option, none, some, ◌++◌, Bytes, length, take, drop, length-append,
  take-append_of_le, drop-append_of_le, length-drop, leb, if◌then◌else◌, arith, Bool-cases, inl,
  inr,
}
use yabiir.Base.Map
use yabiir.Base.Map.{nat_eq}
use yabiir.Io.Disk.{World}
use yabiir.Io.Grows.{Extends}
use yabiir.Keydir
use yabiir.Keydir.{Keydir, KeydirEntry}
use yabiir.Engine.{Engine}

-- The bytes that an entry points at, if they are there.
abbrev pub cut : ℕ → ℕ → Option Bytes → Option Bytes
cut pos size none = none
cut pos size (some bytes) =
    if leb (pos + size) (length bytes) then some (take size (drop pos bytes)) else none

unfoldable pub stored : World → KeydirEntry → Option Bytes
stored w entry = cut entry.value_pos entry.value_size (Map.lookup entry.file_id w.data_files)

abbrev pub stored_at : World → Option KeydirEntry → Option Bytes
stored_at w none = none
stored_at w (some entry) = stored w entry

unfoldable pub view : Engine → Bytes → Option Bytes
view e key = stored_at e.world (Keydir.get e.keydir key)

pub cut-append :
    (pos size : ℕ) (bytes more v : Bytes)
    → cut pos size (some bytes) ≡ some v
    → cut pos size (some (bytes ++ more)) ≡ some v
cut-append pos size bytes more v h = elim (Bool-cases (leb (pos + size) (length bytes))) [
  | inr outside ↦ let e : none ≡ some v = rw outside at h in cc
  | inl inside ↦
      let e : some (take size (drop pos bytes)) ≡ some v = rw inside at h in
      let room : pos + size ≤ length bytes = ground arith in
      let fits : leb (pos + size) (length (bytes ++ more)) ≡ true =
        ground (arith, length-append bytes more) in
      rw
        (
          fits,
          drop-append_of_le pos bytes more (omega arith),
          take-append_of_le size (drop pos bytes) more (omega (arith, length-drop pos bytes)),
        )
        e
]

pub stored-Extends :
    {w w' : World} (entry : KeydirEntry) (v : Bytes)
    → Extends w w'
    → stored w entry ≡ some v
    → stored w' entry ≡ some v
unfolding stored
stored-Extends {w} {w'} entry v ext h = go (Map.lookup entry.file_id w.data_files) refl
  where
    go :
        (o : Option Bytes)
        → Map.lookup entry.file_id w.data_files ≡ o
        → cut entry.value_pos entry.value_size (Map.lookup entry.file_id w'.data_files) ≡ some v
    go none e = let x : none ≡ some v = rw e at h in cc
    go (some bytes) e =
        let (more, e') = ext.grown entry.file_id bytes e in
        rw e' (cut-append entry.value_pos entry.value_size bytes more v (rw e at h))
