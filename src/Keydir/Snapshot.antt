-- ===== src/Keydir/Snapshot.antt =====
-- src/keydir.rs `snapshot`: every live key once, with its entry.
use yabiir.Base.{
  ℕ, ◌+◌, ◌≡◌, refl, ap, Option, none, some, List, [], ◌∷◌, Bytes, if◌then◌else◌, arith, bytes_eq,
  bytes_eq_iff, All, All-mono, Bool-cases, inl, inr,
}
use yabiir.Base.Map
use yabiir.Base.Map.{key_eq, insert-IsUnique, remove-IsUnique}
use yabiir.Keydir.{
  Keydir, KeydirEntry, entry_eq, get, insert, remove, cas_repoint, repoint, snapshot_pairs,
  snapshot,
}

-- No key is in the table twice: true of the empty keydir, and kept by every operation.
abbrev pub IsUnique : Keydir → Type 0
IsUnique d = Map.IsUnique d.map

pub insert-IsUnique_lem :
    (d : Keydir) (k : Bytes) (e : KeydirEntry) → IsUnique d → IsUnique (insert d k e)
unfolding insert
insert-IsUnique_lem d k e u = insert-IsUnique k e d.map u

pub remove-IsUnique_lem : (d : Keydir) (k : Bytes) → IsUnique d → IsUnique (remove d k).0
unfolding remove
remove-IsUnique_lem d k u = remove-IsUnique k d.map u

repoint-IsUnique :
    (d : Keydir) (k : Bytes) (old new : KeydirEntry) (o : Option KeydirEntry)
    → IsUnique d
    → IsUnique (repoint d k old new o).0
unfolding repoint
repoint-IsUnique d k old new none u = u
repoint-IsUnique d k old new (some e) u = elim (Bool-cases (entry_eq e old)) [
  | inl same ↦ rw same (insert-IsUnique_lem d k new u)
  | inr other ↦ rw other u
]

pub cas_repoint-IsUnique :
    (d : Keydir) (k : Bytes) (old new : KeydirEntry)
    → IsUnique d
    → IsUnique (cas_repoint d k old new).0
unfolding cas_repoint
cas_repoint-IsUnique d k old new u = repoint-IsUnique d k old new (get d k) u

-- How often a key is listed.
abbrev pub times : {A : Type 0} → Bytes → List (Bytes × A) → ℕ
times k [] = 0
times k ((j, e) ∷ m) = (if bytes_eq j k then 1 else 0) + times k m

abbrev pub times_live : {A : Type 0} → Option A → ℕ
times_live none = 0
times_live (some e) = 1

times-lookup :
    (k : Bytes) (m : List (Bytes × KeydirEntry))
    → Map.IsUnique m
    → times k m ≡ times_live (Map.lookup k m)
unfolding Map.lookup
times-lookup k [] u = refl
times-lookup k ((j, e) ∷ m) (fresh, u) = elim (Bool-cases (bytes_eq j k)) [
  | inl same ↦
      let fresh' : Map.lookup k m ≡ none = rw ((bytes_eq_iff j k).0 same) at fresh in
      rw (same, times-lookup k m u, fresh') refl
  | inr other ↦ rw (other, times-lookup k m u) (omega arith)
]

-- A pair found behind another is found with it in front.
lookup-behind :
    (j : Bytes) (e : KeydirEntry) (m : List (Bytes × KeydirEntry))
    → Map.lookup j m ≡ none
    → (p : Bytes × KeydirEntry) → Map.lookup p.0 m ≡ some p.1
    → Map.lookup p.0 ((j, e) ∷ m) ≡ some p.1
unfolding Map.lookup
lookup-behind j e m fresh (k, e') h = elim (Bool-cases (bytes_eq j k)) [
  | inl same ↦
      let fresh' : Map.lookup k m ≡ none = rw ((bytes_eq_iff j k).0 same) at fresh in cc (h, fresh')
  | inr other ↦ rw other h
]

entries-lookup :
    (m : List (Bytes × KeydirEntry)) → Map.IsUnique m → All (λ p. Map.lookup p.0 m ≡ some p.1) m
entries-lookup [] u = tt
entries-lookup ((j, e) ∷ m) (fresh, u) = (
  unfold Map.lookup in rw ((bytes_eq_iff j j).1 refl) refl,
  All-mono _ _ m (lookup-behind j e m fresh) (entries-lookup m u),
)

snapshot_pairs-same : (m : List (Bytes × KeydirEntry)) → snapshot_pairs m ≡ m
unfolding snapshot_pairs
snapshot_pairs-same [] = refl
snapshot_pairs-same ((key, entry) ∷ m) = ap (λ l. (key, entry) ∷ l) (snapshot_pairs-same m)

-- A snapshot of a keydir with no key twice lists every key that `get` finds once, and no other,
-- and each with the entry that `get` returns.
pub snapshot_lem :
    (d : Keydir)
    → IsUnique d
    → ((k : Bytes) → times k (snapshot d) ≡ times_live (get d k))
      × All (λ p. get d p.0 ≡ some p.1) (snapshot d)
unfolding snapshot get
snapshot_lem d u =
    rw (snapshot_pairs-same d.map) (λ k. times-lookup k d.map u, entries-lookup d.map u)
