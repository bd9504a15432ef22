-- ===== src/Merge/Opened.antt =====
-- src/engine.rs `open`: a store that was just opened can be merged without a loss.
use mathlib.Core.Option.{some-injective}
use mathlib.Core.Path.{subst}
use yabiir.Base.{
  ℕ, ◌≡◌, inl, refl, sym, ap, ◌∙◌, Bool, true, false, Option, none, some, [], Any, ◌==◌,
  if◌then◌else◌, arith,
}
use yabiir.Base.Map
use yabiir.Base.Map.{nat_eq, lookup}
use yabiir.Crc32.{Crc32}
use yabiir.Error.{already_locked}
use yabiir.Io.{pure, raise, ◌>>◌}
use yabiir.Io.After.{After, After-bind, After-any}
use yabiir.Io.Disk.{World, syscall}
use yabiir.Io.Grows.{SameData}
use yabiir.Keydir
use yabiir.Keydir.{Keydir}
use yabiir.Lock.{acquire, dir_lock}
use yabiir.Datafile
use yabiir.Datafile.{ActiveFile, discover}
use yabiir.Datafile.Held.{Only}
use yabiir.Datafile.Stays.{create-Only}
use yabiir.Recovery.{recover}
use yabiir.Engine.{Engine, Options}
use yabiir.Engine.Session.{take_lock, last, next_id, open_active, open_engine}
use yabiir.Merge.Progress.{IsPlace}
use yabiir.Merge.Handled.{entries_of, IsBacked}
use yabiir.Merge.Backed.{SameFiles, Whatever, syscall-SameFiles, Backs, recover-Backs}

syscall-same : (w t : World) → SameFiles w t → After (syscall t) (λ _. SameFiles w) Whatever
syscall-same w t same =
    let after = syscall-SameFiles t in
    After-any (syscall t) {P = SameFiles w} (after.0 ∙ same.0, after.1 ∙ same.1)

take_lock-same :
    (b is_held : Bool) (w t : World)
    → SameFiles w t
    → After (take_lock b is_held t) (λ _. SameFiles w) Whatever
unfolding take_lock acquire
take_lock-same true is_held w t same =
    After-bind (acquire is_held) _
      (After-bind syscall _ (syscall-same w t same) (λ _ u same'. go is_held u same'))
      (λ lock u same'. record { holds = same' })
  where
    go :
        (b : Bool) (u : World)
        → SameFiles w u
        → After ((if b then raise already_locked else pure dir_lock) u) (λ _. SameFiles w) Whatever
    go true u same' = record { holds = tt }
    go false u same' = record { holds = same' }
take_lock-same false is_held w t same = record { holds = same }

discover-same : (w t : World) → SameFiles w t → After (discover t) (λ _. SameFiles w) Whatever
unfolding discover
discover-same w t same =
    After-bind syscall _ (syscall-same w t same) (λ _ u same'. record { holds = same' })

-- The store's keydir is backed in the files older than the active one, if there is one.
abbrev BackedBelow : {Hasher : Type 0} → Crc32 Hasher → Option ActiveFile → Engine → Type 0
BackedBelow crc32 none e = Unit {0}
BackedBelow crc32 (some file) e = IsBacked crc32 file.file_id e

pub record IsBackedStore {Hasher : Type 0} (crc32 : Crc32 Hasher) (e : Engine) : Type 0 where
  pub backed : BackedBelow crc32 e.active e

-- The active file is the one of that id, and no other file changed.
abbrev Opened : ℕ → World → Option ActiveFile → World → Type 0
Opened next w active t =
    ((file : ActiveFile) → active ≡ some file → (file.file_id ≡ next) × Only next w t)

open_active-Opened :
    (b : Bool) (next : ℕ) (w : World) → After (open_active b next w) (Opened next w) Whatever
unfolding open_active
open_active-Opened true next w =
    After-bind (Datafile.create next) _ (create-Only next w) (λ file t (id, only). record {
      holds = λ other is. (ap (λ f. f.file_id) (sym (some-injective file other is)) ∙ id, only);
    })
open_active-Opened false next w = record { holds = λ file is. cc }

module _ {Hasher : Type 0} (crc32 : Crc32 Hasher) where
  new-Backs : (w : World) → Backs crc32 w Keydir.new
  unfolding Keydir.get lookup
  new-Backs w = record { at_entry = λ key at h. cc }

  Backs-same : (w u : World) (d : Keydir) → SameData w u → Backs crc32 w d → Backs crc32 u d
  Backs-same w u d same backs = record {
    at_entry = λ key at there.
        subst
          (λ files.
            Any (IsPlace at.file_id key at) (entries_of crc32 (Map.lookup at.file_id files)))
          (sym same) (backs.at_entry key at there);
  }

  backed_store :
      (active : Option ActiveFile) (e : Engine) (u : World) (next : ℕ)
      → Opened next u active e.world
      → Backs crc32 u e.keydir
      → BackedBelow crc32 active e
  backed_store none e u next opened backs = tt
  backed_store (some file) e u next opened backs =
      let (id, only) = opened file refl in
      record {
        backed = λ key at there below.
            let other : next == at.file_id ≡ false = ground (arith, id, below) in
            inl (
              subst (λ o. Any (IsPlace at.file_id key at) (entries_of crc32 o))
                (sym (only.at at.file_id other)) (backs.at_entry key at there));
      }

  -- Whatever calls fail, a store that is opened in a directory without hint files is one that merge may
  -- rely on: where its keydir has a key in a file that is there and older than the active one,
  -- that file has an intact entry of the key that is no tombstone, at that place.
  pub open_engine-IsBacked :
      (opts : Options) (is_held : Bool) (w : World)
      → w.hint_files ≡ []
      → After (open_engine crc32 opts is_held w) (λ e _. IsBackedStore crc32 e) Whatever
  unfolding open_engine
  open_engine-IsBacked opts is_held w no_hints =
      let b = opts.is_read_write in
      After-bind (syscall >> take_lock b is_held) _ {Q = λ _. SameFiles w}
        (After-bind syscall _ (syscall-same w w (refl, refl))
          (λ _ t same. take_lock-same b is_held w t same))
        (λ lock s same.
          After-bind discover _ {Q = λ _. SameFiles w} (discover-same w s same) (λ file_ids t same.
            After-bind (recover crc32 file_ids Keydir.new) _
              (recover-Backs crc32 file_ids Keydir.new w t same no_hints (new-Backs w))
              (λ keydir u (same', backs).
                After-bind (open_active b (next_id (last file_ids))) _
                  (open_active-Opened b (next_id (last file_ids)) u)
                  (λ active v opened. record {
                    holds = record {
                      backed =
                          backed_store active _ u (next_id (last file_ids)) opened
                            (Backs-same w u keydir (same'.0) backs);
                    };
                  }))))
