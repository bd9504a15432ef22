-- ===== src/Engine/Faults.antt =====
-- src/engine.rs: a `put` or `delete` that fails, at whatever call, loses nothing that reads see.
use yabiir.Base.{
  ℕ, ◌≡◌, ◌≢◌, refl, Bool, true, false, Option, none, some, [], Bytes, Bool-cases, inl, inr, length,
  ◌==◌,
}
use yabiir.Crc32.{Crc32}
use yabiir.Error.{Result, ok, err, blocked}
use yabiir.Io.{continue, ◌>>◌}
use yabiir.Format.Entry.{encode_entry}
use yabiir.Keydir
use yabiir.Keydir.{Keydir, KeydirEntry}
use yabiir.Engine.{Engine, require_write, append, put, delete, delete_found}
use yabiir.Engine.View.{view, stored_at, stored-Extends}
use yabiir.Engine.Grows.{
  Serves, Serves-refl, Serves-trans, Keeps, Keeps-bind, Keeps-append, Keeps-require_write,
}

stored_at-Serves :
    {e e' : Engine} (o : Option KeydirEntry) (v : Bytes)
    → Serves e e'
    → stored_at e.world o ≡ some v
    → stored_at e'.world o ≡ some v
stored_at-Serves none v s h = cc
stored_at-Serves (some entry) v s h = stored-Extends entry v s.extends h

pub view-Serves :
    {e e' : Engine} (key v : Bytes) → Serves e e' → view e key ≡ some v → view e' key ≡ some v
unfolding view
view-Serves {e} {e'} key v s h =
    rw (s.keydir_kept) (stored_at-Serves (Keydir.get e.keydir key) v s h)

-- What follows a call that fails is not run; if the whole does not return, either the call did not.
stops-Serves :
    {A : Type 0} (r : Result A) (e e' : Engine) (f : A → Engine → Engine)
    → Serves e e'
    → (continue r e' (λ a t. (ok tt, f a t))).0 ≢ ok tt
    → Serves e (continue r e' (λ a t. (ok tt, f a t))).1
stops-Serves (ok a) e e' f s h = absurd (h refl)
stops-Serves (err x) e e' f s h = s
stops-Serves blocked e e' f s h = s

then-Serves :
    (r : Result (Unit {0})) (e e' : Engine) (f : Engine → Result (Unit {0}) × Engine)
    → Serves e e'
    → ((t : Engine) → (f t).0 ≢ ok tt → Serves t (f t).1)
    → (continue r e' (λ _. f)).0 ≢ ok tt
    → Serves e (continue r e' (λ _. f)).1
then-Serves (ok a) e e' f s p h = Serves-trans s (p e' h)
then-Serves (err x) e e' f s p h = s
then-Serves blocked e e' f s p h = s

module _ {Hasher : Type 0} (crc32 : Crc32 Hasher) where
  Keeps-write :
      (key value : Bytes) (tombstone : Bool) (timestamp : ℕ)
      → Keeps (require_write >> append (encode_entry crc32 key value tombstone timestamp))
  Keeps-write key value tombstone timestamp =
      Keeps-bind require_write _ Keeps-require_write (λ _. Keeps-append _)

  put-Serves :
      (key value : Bytes) (timestamp : ℕ) (e : Engine)
      → (put crc32 key value timestamp e).0 ≢ ok tt
      → Serves e (put crc32 key value timestamp e).1
  unfolding put
  put-Serves key value timestamp e = elim (Bool-cases (length key == 0)) [
    | inl empty ↦ rw empty (λ h. Serves-refl e)
    | inr keyed ↦
        let write = require_write >> append (encode_entry crc32 key value false timestamp) in
        rw keyed
          (stops-Serves (write e).0 e (write e).1 _ ((Keeps-write key value false timestamp).at e))
  ]

  -- After a `put` that does not return without an error, whichever of its calls failed, every key
  -- that had a value still has that value.
  pub put-failed :
      (key value : Bytes) (timestamp : ℕ) (e : Engine)
      → (put crc32 key value timestamp e).0 ≢ ok tt
      → (j v : Bytes) → view e j ≡ some v
      → view (put crc32 key value timestamp e).1 j ≡ some v
  put-failed key value timestamp e h j v = view-Serves j v (put-Serves key value timestamp e h)

  delete_found-Serves :
      (o : Option KeydirEntry) (key : Bytes) (timestamp : ℕ) (e : Engine)
      → (delete_found crc32 o key timestamp e).0 ≢ ok tt
      → Serves e (delete_found crc32 o key timestamp e).1
  unfolding delete_found
  delete_found-Serves none key timestamp e = λ h. absurd (h refl)
  delete_found-Serves (some entry) key timestamp e =
      let encoded = encode_entry crc32 key [] true timestamp in
      stops-Serves (append encoded e).0 e (append encoded e).1 _ ((Keeps-append encoded).at e)

  delete-Serves :
      (key : Bytes) (timestamp : ℕ) (e : Engine)
      → (delete crc32 key timestamp e).0 ≢ ok tt
      → Serves e (delete crc32 key timestamp e).1
  unfolding delete
  delete-Serves key timestamp e = elim (Bool-cases (length key == 0)) [
    | inl empty ↦ rw empty (λ h. Serves-refl e)
    | inr keyed ↦ rw keyed (
        then-Serves (require_write e).0 e (require_write e).1 _ (Keeps-require_write.at e)
          (λ t. delete_found-Serves (Keydir.get t.keydir key) key timestamp t))
  ]

  -- After a `delete` that does not return without an error, whichever of its calls failed, every
  -- key that had a value still has that value, the key to be deleted too.
  pub delete-failed :
      (key : Bytes) (timestamp : ℕ) (e : Engine)
      → (delete crc32 key timestamp e).0 ≢ ok tt
      → (j v : Bytes) → view e j ≡ some v
      → view (delete crc32 key timestamp e).1 j ≡ some v
  delete-failed key timestamp e h j v = view-Serves j v (delete-Serves key timestamp e h)
