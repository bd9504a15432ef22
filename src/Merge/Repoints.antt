-- ===== src/Merge/Repoints.antt =====
-- src/merge/mod.rs `apply_pending_repoints`: no key loses its value where the copies are in the files.
use mathlib.Core.Option.{some-injective}
use yabiir.Base.{
  All-mono, ◌≡◌, refl, ap, ◌∙◌, Bool, true, false, Bool-cases, inl, inr, Option, none, some, List,
  [], ◌∷◌, Bytes, All, if◌then◌else◌, bytes_eq, bytes_eq_iff, ◌⊎◌, ◌≢◌, sym,
}
use yabiir.Io.Disk.{World}
use yabiir.Io.Grows.{Extends}
use yabiir.Keydir
use yabiir.Keydir.{Keydir, KeydirEntry, entry_eq, cas_repoint}
use yabiir.Keydir.Laws.{entry_eq_iff, cas_repoint_lem}
use yabiir.Engine.{Engine}
use yabiir.Engine.View.{view, stored, stored_at, stored-Extends}
use yabiir.Merge.{Hook, repoint_all}
use yabiir.Merge.PendingQueue.{Repoint}

-- Each value that the one shows is shown by the other.
pub record Sees (e e' : Engine) : Type 0 where
  pub at : (key value : Bytes) → view e key ≡ some value → view e' key ≡ some value

pub Sees-refl : (e : Engine) → Sees e e
Sees-refl e = record { at = λ key value h. h }

pub Sees-trans : {a b c : Engine} → Sees a b → Sees b c → Sees a c
Sees-trans p q = record { at = λ key value h. q.at key value (p.at key value h) }

stored_at-Extends :
    {w w' : World} (o : Option KeydirEntry) (value : Bytes)
    → Extends w w'
    → stored_at w o ≡ some value
    → stored_at w' o ≡ some value
stored_at-Extends none value ext h = cc
stored_at-Extends (some entry) value ext h = stored-Extends entry value ext h

pub Sees-Extends : {e e' : Engine} → e'.keydir ≡ e.keydir → Extends e.world e'.world → Sees e e'
unfolding view
Sees-Extends {e} {e'} kept ext = record {
  at = λ key value h. rw kept (stored_at-Extends (Keydir.get e.keydir key) value ext h);
}

-- The value of the entry that was copied is there in the copy too.
pub record Kept (w : World) (repoint : Repoint) : Type 0 where
  pub value : Bytes
  pub old_lem : stored w repoint.1 ≡ some value
  pub new_lem : stored w repoint.2 ≡ some value

-- The hook of `merge` itself.
abbrev pub no_hook : Hook
no_hook key e = e

pub decide : (o : Option KeydirEntry) (entry : KeydirEntry) → (o ≡ some entry) ⊎ (o ≢ some entry)
decide none entry = inr (λ h. cc)
decide (some e) entry = elim (Bool-cases (entry_eq e entry)) [
  | inl same ↦ inl (ap some ((entry_eq_iff e entry).0 same))
  | inr other ↦ inr (λ h. let hit = (entry_eq_iff e entry).1 (some-injective e entry h) in cc)
]

stored_if :
    (w : World) (b : Bool) (new : KeydirEntry) (value : Bytes) (o : Option KeydirEntry)
    → (b ≡ true → stored w new ≡ some value)
    → stored_at w o ≡ some value
    → stored_at w (if b then some new else o) ≡ some value
stored_if w true new value o h p = h refl
stored_if w false new value o h p = p

cas_repoint-stored :
    (w : World) (d : Keydir) (key : Bytes) (old new : KeydirEntry)
    → Kept w (key, old, new)
    → (j value : Bytes) → stored_at w (Keydir.get d j) ≡ some value
    → stored_at w (Keydir.get (cas_repoint d key old new).0 j) ≡ some value
cas_repoint-stored w d key old new kept j value h = elim (decide (Keydir.get d key) old) [
  | inr other ↦ rw ((cas_repoint_lem d key old new).1 other) h
  | inl same ↦ rw (((cas_repoint_lem d key old new).0 same).1 j) (
      stored_if w (bytes_eq key j) new value (Keydir.get d j)
        (λ hit.
          let at : stored_at w (Keydir.get d key) ≡ some value =
            ap (λ k. stored_at w (Keydir.get d k)) ((bytes_eq_iff key j).0 hit) ∙ h in
          kept.new_lem ∙ sym kept.old_lem ∙ sym (ap (stored_at w) same) ∙ at)
        h)
]

repoint-Sees :
    (e : Engine) (key : Bytes) (old new : KeydirEntry)
    → Kept e.world (key, old, new)
    → Sees e (record e { keydir = (cas_repoint e.keydir key old new).0 })
unfolding view
repoint-Sees e key old new kept = record {
  at = λ j value h. cas_repoint-stored e.world e.keydir key old new kept j value h;
}

-- Where each queued copy is in a file with the value of the entry that was copied, the queued repoints
-- take no value away, of no key, and change no file.
pub repoint_all-Sees :
    (pending : List Repoint) (e : Engine)
    → All (Kept e.world) pending
    → Sees e (repoint_all no_hook pending e) × ((repoint_all no_hook pending e).world ≡ e.world)
unfolding repoint_all
repoint_all-Sees [] e kept = (Sees-refl e, refl)
repoint_all-Sees ((key, old, new) ∷ pending) e (kept, more) =
    let e' = record e { keydir = (cas_repoint e.keydir key old new).0 } in
    let (sees, world) = repoint_all-Sees pending e' more in
    (Sees-trans (repoint-Sees e key old new kept) sees, world)

Kept-Extends : {w w' : World} (repoint : Repoint) → Extends w w' → Kept w repoint → Kept w' repoint
Kept-Extends repoint ext kept = record {
  value = kept.value;
  old_lem = stored-Extends repoint.1 kept.value ext kept.old_lem;
  new_lem = stored-Extends repoint.2 kept.value ext kept.new_lem;
}

-- Every key shows the same in both, a value or none.
pub record SameView (e e' : Engine) : Type 0 where
  pub at : (key : Bytes) → view e' key ≡ view e key

stored_at_if :
    (w : World) (b : Bool) (new : KeydirEntry) (o : Option KeydirEntry)
    → (b ≡ true → stored w new ≡ stored_at w o)
    → stored_at w (if b then some new else o) ≡ stored_at w o
stored_at_if w true new o h = h refl
stored_at_if w false new o h = refl

cas_repoint-same :
    (w : World) (d : Keydir) (key : Bytes) (old new : KeydirEntry)
    → Kept w (key, old, new)
    → (j : Bytes)
    → stored_at w (Keydir.get (cas_repoint d key old new).0 j) ≡ stored_at w (Keydir.get d j)
cas_repoint-same w d key old new kept j = elim (decide (Keydir.get d key) old) [
  | inr other ↦ rw ((cas_repoint_lem d key old new).1 other) refl
  | inl same ↦ rw (((cas_repoint_lem d key old new).0 same).1 j) (
      stored_at_if w (bytes_eq key j) new (Keydir.get d j) (λ hit.
        kept.new_lem
        ∙ sym kept.old_lem
        ∙ sym (ap (stored_at w) same)
        ∙ ap (λ k. stored_at w (Keydir.get d k)) ((bytes_eq_iff key j).0 hit)))
]

repoint-SameView :
    (e : Engine) (key : Bytes) (old new : KeydirEntry)
    → Kept e.world (key, old, new)
    → SameView e (record e { keydir = (cas_repoint e.keydir key old new).0 })
unfolding view
repoint-SameView e key old new kept = record {
  at = cas_repoint-same e.world e.keydir key old new kept;
}

-- Other threads that run right before each repoint do not notice the repoints: where each queued copy
-- is in a file with the value of the entry that was copied, and these threads only add to files and
-- keep a property of the store that depends on nothing but what each key has, a value or none, the
-- property holds after all repoints too.
pub repoint_all-stable :
    (before_repoint : Hook) (P : Engine → Type 0)
    → ((e e' : Engine) → SameView e e' → P e → P e')
    → ((key : Bytes) (e : Engine) → P e → P (before_repoint key e))
    → ((key : Bytes) (e : Engine) → Extends e.world (before_repoint key e).world)
    → (pending : List Repoint) (e : Engine) → All (Kept e.world) pending
    → P e
    → P (repoint_all before_repoint pending e)
unfolding repoint_all
repoint_all-stable before_repoint P invisible kept_by adds [] e kept p = p
repoint_all-stable before_repoint P invisible kept_by adds ((key, old, new) ∷ pending) e
      (kept, more) p =
    let e' = before_repoint key e in
    let ext = adds key e in
    let e'' = record e' { keydir = (cas_repoint e'.keydir key old new).0 } in
    repoint_all-stable before_repoint P invisible kept_by adds pending e''
      (All-mono (Kept e.world) (Kept e'.world) pending (λ repoint k. Kept-Extends repoint ext k)
        more)
      (invisible e' e'' (repoint-SameView e' key old new (Kept-Extends (key, old, new) ext kept))
        (kept_by key e p))
