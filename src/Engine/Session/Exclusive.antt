-- ===== src/Engine/Session/Exclusive.antt =====
-- src/engine.rs `open` and src/lock.rs: one handle at a time has a datastore open to write.
use yabiir.Base.{◌≡◌, refl, ◌∙◌, Bool, true, false, Option, if◌then◌else◌}
use yabiir.Crc32.{Crc32}
use yabiir.Error.{already_locked}
use yabiir.Io.{pure, raise, ◌>>◌}
use yabiir.Io.After.{After, After-bind, After-mono, After-any}
use yabiir.Io.Disk.{World, syscall}
use yabiir.Io.Grows.{SameData, syscall-SameData}
use yabiir.Keydir
use yabiir.Lock.{DirLock, is_locked, dir_lock, acquire}
use yabiir.Datafile.{discover}
use yabiir.Recovery.{recover}
use yabiir.Engine.{Options}
use yabiir.Engine.Session.{take_lock, last, next_id, open_active, open_engine, holds_lock}

abbrev pub Whatever : World → Type 0
Whatever w = Unit {0}

acquire-After :
    (is_held : Bool) (w : World)
    → After (acquire is_held w) (λ _ t. SameData w t × (is_held ≡ false)) Whatever
unfolding acquire
acquire-After is_held w =
    After-bind syscall _ (After-any (syscall w) {P = SameData w} (syscall-SameData w))
      (λ _ t same. go is_held t same)
  where
    go :
        (b : Bool) (t : World)
        → SameData w t
        → After
            ((if b then raise already_locked else pure dir_lock) t)
            (λ _ t. SameData w t × (b ≡ false))
            Whatever
    go true t same = record { holds = tt }
    go false t same = record { holds = (same, refl) }

-- Who may write has the lock, which was free.
pub record Locks (b is_held : Bool) (lock : Option DirLock) : Type 0 where
  pub free : b ≡ true → is_held ≡ false
  pub held : is_locked lock ≡ b

pub take_lock-After :
    (b is_held : Bool) (w : World)
    → After (take_lock b is_held w) (λ lock t. SameData w t × Locks b is_held lock) Whatever
unfolding take_lock
take_lock-After true is_held w =
    After-bind (acquire is_held) _ (acquire-After is_held w)
      (λ lock t (same, free). record { holds = (same, record { free = λ h. free; held = refl }) })
take_lock-After false is_held w = record { holds = (refl, record { free = λ h. cc; held = refl }) }

module _ {Hasher : Type 0} (crc32 : Crc32 Hasher) where
  -- An open to write, when the lock is held, does not succeed.
  open_engine-blocked :
      (opts : Options) (is_held : Bool) (w : World)
      → opts.is_read_write ≡ true
      → is_held ≡ true
      → After (open_engine crc32 opts is_held w) (λ _ _. ⊥) Whatever
  unfolding open_engine
  open_engine-blocked opts is_held w writes held =
      After-bind (syscall >> take_lock opts.is_read_write is_held) _ {Q = λ _ _. ⊥}
        (After-bind syscall _ {Q = λ _ _. Unit {0}} (After-any (syscall w) tt) (λ _ t _.
          After-mono (take_lock opts.is_read_write is_held t)
            (take_lock-After opts.is_read_write is_held t)
            (λ lock u (_, locks). let free = locks.free writes in cc) (λ u h. h)))
        (λ lock t impossible. absurd impossible)

  -- A store that was opened to be written is the only one: whatever calls fail, as long as its handle
  -- has the lock, no other handle of the directory opens to write.
  pub open_engine-excludes :
      (opts opts' : Options) (is_held : Bool) (w w' : World)
      → opts.is_read_write ≡ true
      → opts'.is_read_write ≡ true
      → After
          (open_engine crc32 opts is_held w)
          (λ e _. After (open_engine crc32 opts' (holds_lock e) w') (λ _ _. ⊥) Whatever)
          Whatever
  unfolding open_engine
  open_engine-excludes opts opts' is_held w w' writes writes' =
      let b = opts.is_read_write in
      After-bind (syscall >> take_lock b is_held) _ {Q = λ lock _. Locks b is_held lock}
        (After-bind syscall _ {Q = λ _ _. Unit {0}} (After-any (syscall w) tt) (λ _ t _.
          After-mono (take_lock b is_held t) (take_lock-After b is_held t)
            (λ lock u (_, locks). locks) (λ u h. h)))
        (λ lock s locks.
          After-bind discover _ {Q = λ _ _. Unit {0}} (After-any (discover s) tt) (λ file_ids t _.
            After-bind (recover crc32 file_ids Keydir.new) _ {Q = λ _ _. Unit {0}}
              (After-any (recover crc32 file_ids Keydir.new t) tt)
              (λ keydir u _.
                After-bind (open_active b (next_id (last file_ids))) _ {Q = λ _ _. Unit {0}}
                  (After-any (open_active b (next_id (last file_ids)) u) tt)
                  (λ active v _. record {
                    holds =
                        open_engine-blocked opts' (is_locked lock) w' writes' (locks.held ∙ writes);
                  }))))
