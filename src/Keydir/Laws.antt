-- ===== src/Keydir/Laws.antt =====
-- src/keydir.rs: what a `get` sees after each operation.
use yabiir.Base.{
  ◌≡◌, ◌≢◌, ◌↔◌, inl, inr, refl, ap, true, false, Bool-cases, Option, none, some, Bytes,
  if◌then◌else◌, arith, bytes_eq,
}
use yabiir.Base.Map.{key_eq, lookup-insert, lookup-remove}
use yabiir.Keydir.{Keydir, KeydirEntry, entry_eq, get, insert, remove, repoint, cas_repoint}

pub entry_eq_iff : (a b : KeydirEntry) → (entry_eq a b ≡ true) ↔ (a ≡ b)
unfolding entry_eq
entry_eq_iff a b = ground arith

-- The last write of a key wins, and the other keys are left as they are.
pub get-insert :
    (d : Keydir) (k j : Bytes) (e : KeydirEntry)
    → get (insert d k e) j ≡ (if bytes_eq k j then some e else get d j)
unfolding get insert
get-insert d k j e = lookup-insert k j e d.map

pub get-remove :
    (d : Keydir) (k j : Bytes) → get (remove d k).0 j ≡ (if bytes_eq k j then none else get d j)
unfolding get remove
get-remove d k j = lookup-remove k j d.map

pub ruleset keydir_laws = (get-insert, get-remove)

repoint_same :
    (d : Keydir) (k : Bytes) (old new : KeydirEntry)
    → repoint d k old new (some old) ≡ (insert d k new, true)
unfolding repoint
repoint_same d k old new = rw ((entry_eq_iff old old).1 refl)

cas_repoint_other :
    (d : Keydir) (k : Bytes) (old new : KeydirEntry) (o : Option KeydirEntry)
    → o ≢ some old
    → repoint d k old new o ≡ (d, false)
unfolding repoint
cas_repoint_other d k old new none h = refl
cas_repoint_other d k old new (some e) h = elim (Bool-cases (entry_eq e old)) [
  | inl same ↦ absurd (h (ap some ((entry_eq_iff e old).0 same)))
  | inr other ↦ rw other
]

-- A key that still has the expected entry is repointed and no other key changes, and
-- `cas_repoint` answers true; with any other entry, or none, it answers false and changes nothing.
pub cas_repoint_lem :
    (d : Keydir) (k : Bytes) (old new : KeydirEntry)
    → (get d k ≡ some old
        → (cas_repoint d k old new).1 ≡ true
          × ((j : Bytes)
              → get (cas_repoint d k old new).0 j ≡ (if bytes_eq k j then some new else get d j)))
      × (get d k ≢ some old → cas_repoint d k old new ≡ (d, false))
unfolding cas_repoint
cas_repoint_lem d k old new = (
  λ same. let hit = repoint_same d k old new in rw (same, hit) (refl, λ j. get-insert d k j new),
  λ other. cas_repoint_other d k old new (get d k) other,
)
