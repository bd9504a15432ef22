-- ===== src/Engine/Grows.antt =====
-- src/engine.rs: an append, failing or not, leaves the keydir and the bytes in the files as they are.
use yabiir.Base.{
  ℕ, zero, suc, ◌≡◌, refl, ◌∙◌, Bool, true, false, Option, none, some, leb, if◌then◌else◌,
}
use yabiir.Error.{Result, ok, err, blocked, read_only}
use yabiir.Io.{Exec, pure, raise, continue, ◌>>=◌, ◌>>◌}
use yabiir.Io.Disk.{World, syscall}
use yabiir.Io.Grows.{Extends, Extends-refl, Extends-trans, Grows, syscall-Extends}
use yabiir.Commit
use yabiir.Datafile
use yabiir.Datafile.{ActiveFile, Writing}
use yabiir.Datafile.Grows.{world, Grows-append, Grows-sync, Grows-sync_handle, create-Extends}
use yabiir.Format.Entry.{EncodedEntry}
use yabiir.Engine.{
  Engine, require_write, on_file, on_active, on_world, record_pending, mark_all_durable,
  fetch_next_id, rotate, rotate_if, do_fsync, lead, take_turn, commit_rounds, commit_if,
  after_append, append,
}

-- The files have at least the bytes that they had, and the keydir and the options are the same.
pub record Serves (e e' : Engine) : Type 0 where
  pub extends : Extends e.world e'.world
  pub keydir_kept : e'.keydir ≡ e.keydir
  pub opts_kept : e'.opts ≡ e.opts

pub Serves-refl : (e : Engine) → Serves e e
Serves-refl e = record { extends = Extends-refl e.world; keydir_kept = refl; opts_kept = refl }

pub Serves-trans : {a b c : Engine} → Serves a b → Serves b c → Serves a c
Serves-trans p q = record {
  extends = Extends-trans p.extends q.extends;
  keydir_kept = q.keydir_kept ∙ p.keydir_kept;
  opts_kept = q.opts_kept ∙ p.opts_kept;
}

pub record Keeps {A : Type 0} (m : Exec Engine A) : Type 0 where
  pub at : (e : Engine) → Serves e (m e).1

module _ {A B : Type 0} where
  continue-Serves :
      (r : Result A) (e : Engine) (f : A → Exec Engine B)
      → ((a : A) → Keeps (f a))
      → Serves e (continue r e f).1
  continue-Serves (ok a) e f h = (h a).at e
  continue-Serves (err x) e f h = Serves-refl e
  continue-Serves blocked e f h = Serves-refl e

  pub Keeps-bind :
      (m : Exec Engine A) (f : A → Exec Engine B)
      → Keeps m
      → ((a : A) → Keeps (f a))
      → Keeps (m >>= f)
  Keeps-bind m f g h = record {
    at = λ e. Serves-trans (g.at e) (continue-Serves (m e).0 (m e).1 f h);
  }

pub Keeps-pure : {A : Type 0} (a : A) → Keeps (pure a)
Keeps-pure a = record { at = Serves-refl }

-- A change of what is neither the files, the keydir nor the options.
Serves-same :
    {e e' : Engine} → e'.world ≡ e.world → e'.keydir ≡ e.keydir → e'.opts ≡ e.opts → Serves e e'
Serves-same {e} {e'} w k o = record {
  extends = rw w (Extends-refl e.world);
  keydir_kept = k;
  opts_kept = o;
}

on_file-Serves :
    {A : Type 0} (file : Option ActiveFile) (m : Exec Writing A) (e : Engine)
    → Grows world m
    → Serves e (on_file file m e).1
unfolding on_file
on_file-Serves none m e g = Serves-refl e
on_file-Serves (some file) m e g = record {
  extends = g.at (record { world = e.world; file = file });
  keydir_kept = refl;
  opts_kept = refl;
}

pub Keeps-on_active : {A : Type 0} (m : Exec Writing A) → Grows world m → Keeps (on_active m)
Keeps-on_active m g = record { at = λ e. on_file-Serves e.active m e g }

Keeps-on_world :
    {A : Type 0} (m : Exec World A) → ((w : World) → Extends w (m w).1) → Keeps (on_world m)
Keeps-on_world m g = record {
  at = λ e. record { extends = g e.world; keydir_kept = refl; opts_kept = refl };
}

Keeps-rotate : Keeps rotate
unfolding rotate fetch_next_id
Keeps-rotate =
    Keeps-bind (on_active Datafile.sync >> mark_all_durable >> fetch_next_id) _
      (Keeps-bind (on_active Datafile.sync >> mark_all_durable) _
        (Keeps-bind (on_active Datafile.sync) _ (Keeps-on_active Datafile.sync Grows-sync)
          (λ _. record { at = λ e. Serves-same refl refl refl }))
        (λ _. record { at = λ e. Serves-same refl refl refl }))
      (λ new_id.
        Keeps-bind (on_world (Datafile.create new_id)) _
          (Keeps-on_world (Datafile.create new_id) (create-Extends new_id))
          (λ file. record { at = λ e. Serves-same refl refl refl }))

pub Keeps-rotate_if : (b : Bool) → Keeps (rotate_if b)
unfolding rotate_if
Keeps-rotate_if true = Keeps-rotate
Keeps-rotate_if false = Keeps-pure tt

Keeps-do_fsync : Keeps do_fsync
unfolding do_fsync
Keeps-do_fsync =
    Keeps-bind (on_active Datafile.sync_handle) _
      (Keeps-on_active Datafile.sync_handle Grows-sync_handle)
      (λ _. Keeps-on_world syscall syscall-Extends)

Keeps-lead : (n : ℕ) (again : Exec Engine (Unit {0})) → Keeps again → Keeps (lead n again)
unfolding lead
Keeps-lead n again h = record {
  at = λ e. Serves-trans (Keeps-do_fsync.at e) (
      Serves-trans (Serves-same refl refl refl)
        (continue-Serves (do_fsync e).0 _ (λ _. again) (λ _. h)));
}

Keeps-take_turn :
    (turn : Commit.Turn) (again : Exec Engine (Unit {0}))
    → Keeps again
    → Keeps (take_turn turn again)
unfolding take_turn
Keeps-take_turn Commit.returns again h = Keeps-pure tt
Keeps-take_turn (Commit.leads n) again h = Keeps-lead n again h
Keeps-take_turn Commit.waits again h = record { at = Serves-refl }

Keeps-commit_rounds : (rounds target : ℕ) → Keeps (commit_rounds rounds target)
unfolding commit_rounds
Keeps-commit_rounds zero target = record { at = Serves-refl }
Keeps-commit_rounds (suc rounds) target = record {
  at = λ e.
      Serves-trans (Serves-same refl refl refl) (
        (Keeps-take_turn _ (commit_rounds rounds target) (Keeps-commit_rounds rounds target)).at _);
}

Keeps-commit_if : (b : Bool) (target : ℕ) → Keeps (commit_if b target)
unfolding commit_if
Keeps-commit_if true target = Keeps-commit_rounds 2 target
Keeps-commit_if false target = Keeps-pure tt

pub Keeps-after_append : (place : ℕ × ℕ) (target len : ℕ) → Keeps (after_append place target len)
unfolding after_append
Keeps-after_append place target len = record {
  at = λ e.
      let full = leb e.opts.max_file_size len in
      let shared = commit_if e.opts.should_sync_on_put target >> pure place in
      (Keeps-bind (rotate_if full) (λ _. shared) (Keeps-rotate_if full)
          (λ _.
            Keeps-bind (commit_if e.opts.should_sync_on_put target) (λ _. pure place)
              (Keeps-commit_if e.opts.should_sync_on_put target) (λ _. Keeps-pure place))).at
        e;
}

pub Keeps-append : (encoded : EncodedEntry) → Keeps (append encoded)
unfolding append
Keeps-append encoded =
    Keeps-bind (on_active (Datafile.append encoded)) _
      (Keeps-on_active (Datafile.append encoded) (Grows-append encoded))
      (λ written.
        Keeps-bind record_pending _ (record { at = λ e. Serves-same refl refl refl })
          (λ target.
            Keeps-bind (on_active Datafile.len) _
              (Keeps-on_active Datafile.len (record { at = λ s. Extends-refl s.world }))
              (λ len. Keeps-after_append (written.0, written.1) target len)))

pub Keeps-require_write : Keeps require_write
unfolding require_write
Keeps-require_write = record { at = λ e. go e.opts.is_read_write e }
  where
    go :
        (b : Bool) (e : Engine)
        → Serves e ((if b then pure {A = Unit {0}} tt else raise read_only) e).1
    go true e = Serves-refl e
    go false e = Serves-refl e
