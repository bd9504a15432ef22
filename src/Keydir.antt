-- ===== src/Keydir.antt =====
-- src/keydir.rs: the index from a key to the place of its newest value. `SharedKeydir` wraps each
-- operation in a lock, so an operation is one atomic step and the wrapper has the same functions.
pub mod Laws
pub mod Snapshot
use yabiir.Base.{
  ℕ, Bool, true, false, ◌&&◌, Option, none, some, List, [], ◌∷◌, Bytes, length, ◌==◌, if◌then◌else◌,
}
use yabiir.Base.Map
use yabiir.Base.Map.{key_eq}

pub record KeydirEntry : Type 0 where
  pub file_id : ℕ
  pub value_size : ℕ
  pub value_pos : ℕ
  pub timestamp : ℕ

-- The derived `==` of `KeydirEntry`.
unfoldable pub entry_eq : KeydirEntry → KeydirEntry → Bool
entry_eq a b =
    a.file_id == b.file_id
    && (a.value_size == b.value_size && (a.value_pos == b.value_pos && a.timestamp == b.timestamp))

pub record Keydir : Type 0 where
  pub map : List (Bytes × KeydirEntry)

abbrev pub new : Keydir
new = record { map = [] }

unfoldable pub get : Keydir → Bytes → Option KeydirEntry
get keydir key = Map.lookup key keydir.map

-- Both arms of the `match` bind the key to the entry: in its slot, or anew.
unfoldable pub insert : Keydir → Bytes → KeydirEntry → Keydir
insert keydir key entry = record { map = Map.insert key entry keydir.map }

-- The new keydir, and the entry that was there.
unfoldable pub remove : Keydir → Bytes → Keydir × Option KeydirEntry
unfolding get
remove keydir key = (record { map = Map.remove key keydir.map }, get keydir key)

unfoldable pub len : Keydir → ℕ
len keydir = length keydir.map

unfoldable pub is_empty : Keydir → Bool
unfolding len
is_empty keydir = len keydir == 0

-- Repoints the key only if it still has the entry that is expected, and says whether it did.
unfoldable pub repoint :
    Keydir → Bytes → KeydirEntry → KeydirEntry → Option KeydirEntry → Keydir × Bool
unfolding insert entry_eq
repoint keydir key expected_old new_entry none = (keydir, false)
repoint keydir key expected_old new_entry (some slot) =
    if entry_eq slot expected_old then (insert keydir key new_entry, true) else (keydir, false)

unfoldable pub cas_repoint : Keydir → Bytes → KeydirEntry → KeydirEntry → Keydir × Bool
unfolding repoint get
cas_repoint keydir key expected_old new_entry =
    repoint keydir key expected_old new_entry (get keydir key)

-- Each pair is copied, in the order of the hash table, which nothing relies on.
unfoldable pub snapshot_pairs : List (Bytes × KeydirEntry) → List (Bytes × KeydirEntry)
snapshot_pairs [] = []
snapshot_pairs ((key, entry) ∷ map) = (key, entry) ∷ snapshot_pairs map

unfoldable pub snapshot : Keydir → List (Bytes × KeydirEntry)
unfolding snapshot_pairs
snapshot keydir = snapshot_pairs keydir.map
