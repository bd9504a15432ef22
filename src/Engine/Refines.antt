-- ===== src/Engine/Refines.antt =====
-- src/engine.rs: a store as a map from keys to values, and what it is to implement an operation on it.

use yabiir.Base.{
  ℕ, ◌++◌, [], ◌≡◌, refl, sym, ◌∙◌, Bool, true, false, Option, none, some, Bytes, if◌then◌else◌,
}
use yabiir.Error.{ok, read_only}
use yabiir.Io.{Exec, pure, raise}
use yabiir.Base.Map
use yabiir.Base.Map.{nat_eq}
use yabiir.Keydir
use yabiir.Keydir.{Keydir, KeydirEntry}
use yabiir.Engine.{Engine, require_write}
use yabiir.Engine.View.{view, stored, stored_at, stored-Extends}
use yabiir.Engine.Grows.{Serves}
use yabiir.Engine.Appends.{Usable, HasRoom}

-- Every entry of the keydir points at bytes that are there.
abbrev pub IsSound : Engine → Type 0
IsSound e =
    (k : Bytes) (entry : KeydirEntry)
    → Keydir.get e.keydir k ≡ some entry
    → (v : Bytes) × (stored e.world entry ≡ some v)

pub record Healthy (e : Engine) : Type 0 where
  pub usable : Usable e
  pub sound : IsSound e

-- What a write needs beside: the handle may write, and the counters are not at their ends.
pub record CanWrite (e : Engine) : Type 0 where
  pub is_writer : e.opts.is_read_write ≡ true
  pub room : HasRoom e

-- The operation returns, leaves a healthy store, and changes the map as told.
pub record Implements (m : Exec Engine (Unit {0})) (e : Engine) (map : Bytes → Option Bytes)
    : Type 0 where
  pub result : (m e).0 ≡ ok tt
  pub healthy : Healthy (m e).1
  pub view_lem : (j : Bytes) → view (m e).1 j ≡ map j

-- The bytes that an operation appends to the active file, with what may follow them, where it
-- appends any.
abbrev pub appended_if : Option KeydirEntry → Bytes → Bytes → Bytes
appended_if none bytes more = []
appended_if (some entry) bytes more = bytes ++ more

-- The file that was active has the appended bytes behind what was in it.
pub record Logs (e' : Engine) (id : ℕ) (content appended : Bytes) : Type 0 where
  pub there : Map.lookup id e'.world.data_files ≡ some (content ++ appended)

module _ {e e' : Engine} (sound : IsSound e) (s : Serves e e') where
  -- What was readable still is, and is the same.
  pub stored_at_kept :
      (j : Bytes)
      → stored_at e'.world (Keydir.get e.keydir j) ≡ stored_at e.world (Keydir.get e.keydir j)
  stored_at_kept j = go (Keydir.get e.keydir j) refl
    where
      go :
          (o : Option KeydirEntry)
          → Keydir.get e.keydir j ≡ o
          → stored_at e'.world o ≡ stored_at e.world o
      go none h = refl
      go (some entry) h =
          let (v, there) = sound j entry h in stored-Extends entry v s.extends there ∙ sym there

  pub sound_kept :
      (k : Bytes) (entry : KeydirEntry)
      → Keydir.get e.keydir k ≡ some entry
      → (v : Bytes) × (stored e'.world entry ≡ some v)
  sound_kept k entry h =
      let (v, there) = sound k entry h in (v, stored-Extends entry v s.extends there)

-- An operation that is known to return and to leave a store behind.
pub Implements-eq :
    (m : Exec Engine (Unit {0})) {e e' : Engine} {map : Bytes → Option Bytes}
    → m e ≡ (ok tt, e')
    → Healthy e'
    → ((j : Bytes) → view e' j ≡ map j)
    → Implements m e map
Implements-eq m h healthy view_lem = record {
  result = rw h refl;
  healthy = rw h healthy;
  view_lem = rw h view_lem;
}

-- The keydir is no part of what a write needs.
abbrev pub with_keydir : Engine → Keydir → Engine
with_keydir e keydir = record e { keydir = keydir }

pub Usable-with_keydir : {e : Engine} → Usable e → (keydir : Keydir) → Usable (with_keydir e keydir)
Usable-with_keydir u keydir =
    let r = u.ready in
    record {
      id = u.id;
      content = u.content;
      ready = record {
        file = r.file;
        there = r.there;
        older = r.older;
        free = r.free;
        calm = r.calm;
      };
      idle = u.idle;
    }

pub require_write_lem : (e : Engine) → e.opts.is_read_write ≡ true → require_write e ≡ (ok tt, e)
unfolding require_write
require_write_lem e = go e.opts.is_read_write
  where
    go : (b : Bool) → b ≡ true → (if b then pure tt else raise read_only) e ≡ (ok tt, e)
    go true h = refl
    go false h = cc
