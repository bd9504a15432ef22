-- ===== src/Merge/Moved.antt =====
-- src/merge/mod.rs `apply_pending_repoints`: no key is left at an entry that was queued.
use mathlib.Core.Option.{some-injective}
use yabiir.Base.{
  ℕ, refl, ◌≤◌, ◌≡◌, ◌⊎◌, inl, inr, sym, ◌∙◌, ap, Bool, true, false, Option, some, List, [], ◌∷◌,
  Bytes, All, Any, bytes_eq, bytes_eq_iff, if◌then◌else◌,
}
use yabiir.Keydir
use yabiir.Keydir.{Keydir, KeydirEntry, cas_repoint}
use yabiir.Keydir.Laws.{cas_repoint_lem}
use yabiir.Engine.{Engine}
use yabiir.Merge.{repoint_all}
use yabiir.Merge.PendingQueue.{Repoint}
use yabiir.Merge.Repoints.{no_hook, decide}

-- The entry of the key waits to be repointed.
abbrev pub IsFor : Bytes → KeydirEntry → Repoint → Type 0
IsFor key entry (k, old, new) = (k ≡ key) × (old ≡ entry)

abbrev pub Queued : Bytes → KeydirEntry → List Repoint → Type 0
Queued key entry pending = Any (IsFor key entry) pending

-- The copies are in files with new ids.
abbrev pub IsNew : ℕ → Repoint → Type 0
IsNew a (k, old, new) = a ≤ new.file_id

hit_or_not :
    (a : ℕ) (b : Bool) (o : Option KeydirEntry) (new entry : KeydirEntry)
    → a ≤ new.file_id
    → (if b then some new else o) ≡ some entry
    → ((b ≡ false) × (o ≡ some entry)) ⊎ (a ≤ entry.file_id)
hit_or_not a true o new entry above h = inr (rw (← some-injective new entry h) above)
hit_or_not a false o new entry above h = inl (cc, h)

cas_repoint-moved :
    (a : ℕ) (d : Keydir) (key : Bytes) (old new : KeydirEntry)
    → a ≤ new.file_id
    → (j : Bytes) (entry : KeydirEntry) → Keydir.get (cas_repoint d key old new).0 j ≡ some entry
    → ((Keydir.get d j ≡ some entry) × (IsFor j entry (key, old, new) → ⊥)) ⊎ (a ≤ entry.file_id)
cas_repoint-moved a d key old new above j entry h = elim (decide (Keydir.get d key) old) [
  | inr other ↦
      let there : Keydir.get d j ≡ some entry = rw ((cas_repoint_lem d key old new).1 other) at h in
      inl (there, λ (same, is). other (ap (Keydir.get d) same ∙ there ∙ ap some (sym is)))
  | inl there ↦
      let h' = sym (((cas_repoint_lem d key old new).0 there).1 j) ∙ h in
      elim (hit_or_not a (bytes_eq key j) (Keydir.get d j) new entry above h') [
        | inr is_new ↦ inr is_new
        | inl (miss, at) ↦ inl (at, λ (same, is). let hit = (bytes_eq_iff key j).1 same in cc)
      ]
]

-- After the repoints a key is at an entry that was not queued, or at a copy.
pub repoint_all-moved :
    (a : ℕ) (pending : List Repoint) (e : Engine)
    → All (IsNew a) pending
    → (j : Bytes) (entry : KeydirEntry)
    → Keydir.get (repoint_all no_hook pending e).keydir j ≡ some entry
    → ((Keydir.get e.keydir j ≡ some entry) × (Queued j entry pending → ⊥)) ⊎ (a ≤ entry.file_id)
unfolding repoint_all
repoint_all-moved a [] e news j entry h = inl (h, λ q. q)
repoint_all-moved a ((key, old, new) ∷ pending) e (is_new, news) j entry h =
    elim (repoint_all-moved a pending (record e { keydir = (cas_repoint e.keydir key old new).0 })
      news j entry h) [
        | inr above ↦ inr above
        | inl (at, none_queued) ↦
            elim (cas_repoint-moved a e.keydir key old new is_new j entry at) [
              | inr above ↦ inr above
              | inl (there, not_it) ↦ inl (there, elim [ inl q ↦ not_it q | inr q ↦ none_queued q ])
            ]
      ]

-- Nothing but the keydir changes.
pub repoint_all-engine :
    (pending : List Repoint) (e : Engine)
    → repoint_all no_hook pending e ≡ record e { keydir = (repoint_all no_hook pending e).keydir }
unfolding repoint_all
repoint_all-engine [] e = refl
repoint_all-engine ((key, old, new) ∷ pending) e =
    repoint_all-engine pending (record e { keydir = (cas_repoint e.keydir key old new).0 })
