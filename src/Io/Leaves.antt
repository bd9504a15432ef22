-- ===== src/Io/Leaves.antt =====
-- Actions that change no data file, failing or not: a `BufWriter` over a hint file is one.
use yabiir.Base.{
  ℕ, ◌-◌, refl, ◌∙◌, Bool, true, false, Option, none, some, [], Bytes, length, ltb, leb, ◌==◌,
  if◌then◌else◌,
}
use yabiir.Base.Map
use yabiir.Base.Map.{nat_eq}
use yabiir.Error.{Result, ok, err, blocked}
use yabiir.Io.{Exec, Outcome, full, part, fail, pure, continue, ◌>>=◌}
use yabiir.Io.BufWriter.{
  Buffered, flush_buffer, flush, flush_if, push, write_or_push, write_all, buffer_capacity,
}
use yabiir.Io.Disk.{
  World, next_outcome, settle, append_hint_to, written, write_hint, create_hint, syscall,
}
use yabiir.Io.Grows.{SameData, Extends-same, Grows, syscall-SameData}

pub record Leaves {S A : Type 0} (world : S → World) (m : Exec S A) : Type 0 where
  pub at : (s : S) → SameData (world s) (world (m s).1)

module _ {S A B : Type 0} (world : S → World) where
  continue-SameData :
      (r : Result A) (s : S) (f : A → Exec S B)
      → ((a : A) → Leaves world (f a))
      → SameData (world s) (world (continue r s f).1)
  continue-SameData (ok a) s f h = (h a).at s
  continue-SameData (err e) s f h = refl
  continue-SameData blocked s f h = refl

  pub Leaves-bind :
      (m : Exec S A) (f : A → Exec S B)
      → Leaves world m
      → ((a : A) → Leaves world (f a))
      → Leaves world (m >>= f)
  Leaves-bind m f g h = record { at = λ s. continue-SameData (m s).0 (m s).1 f h ∙ g.at s }

pub Leaves-Grows :
    {S A : Type 0} (world : S → World) (m : Exec S A) → Leaves world m → Grows world m
Leaves-Grows world m h = record { at = λ s. Extends-same (h.at s) }

settle-SameData : (o : Outcome) (w : World) → SameData w (settle o w).1
settle-SameData full w = refl
settle-SameData (part k) w = refl
settle-SameData (fail k) w = refl

append_hint_to-SameData :
    (id : ℕ) (bytes : Bytes) (old : Option Bytes) (w : World)
    → SameData w (append_hint_to id bytes old w)
append_hint_to-SameData id bytes none w = refl
append_hint_to-SameData id bytes (some old) w = refl

pub write_hint-SameData :
    (id : ℕ) (bytes : Bytes) (w : World) → SameData w (write_hint id bytes w).1
unfolding write_hint
write_hint-SameData id bytes w =
    let o = (next_outcome w.plan).0 in
    settle-SameData o _
    ∙ append_hint_to-SameData id (written bytes o) (Map.lookup id w.hint_files) w

pub create_hint-SameData : (id : ℕ) (w : World) → SameData w (create_hint id w).1
unfolding create_hint
create_hint-SameData id w =
    (Leaves-bind (λ w. w) syscall
        (λ _ u. pure tt (record u { hint_files = Map.insert id [] u.hint_files }))
        (record { at = syscall-SameData }) (λ _. record { at = λ u. refl })).at
      w

if-SameData :
    {S A : Type 0} (world : S → World) (b : Bool) (s : S) (x y : Result A × S)
    → SameData (world s) (world x.1)
    → SameData (world s) (world y.1)
    → SameData (world s) (world (if b then x else y).1)
if-SameData world true s x y p q = p
if-SameData world false s x y p q = q

abbrev buffered_world : Buffered → World
buffered_world s = s.world

module _ (write : Bytes → Exec World (Unit {0}))
    (same : (bytes : Bytes) (w : World) → SameData w (write bytes w).1) where
  pub Leaves-flush : Leaves buffered_world (flush write)
  unfolding flush flush_buffer
  Leaves-flush = record {
    at = λ s.
        if-SameData buffered_world (length s.buffer == 0) s (pure tt s) (flush_buffer write s) refl
          (same s.buffer s.world);
  }

  Leaves-flush_if : (b : Bool) → Leaves buffered_world (flush_if write b)
  unfolding flush_if
  Leaves-flush_if true = Leaves-flush
  Leaves-flush_if false = record { at = λ s. refl }

  Leaves-write_or_push :
      (b : Bool) (bytes : Bytes) → Leaves buffered_world (write_or_push write b bytes)
  unfolding write_or_push
  Leaves-write_or_push true bytes = record { at = λ s. same bytes s.world }
  Leaves-write_or_push false bytes = record { at = λ s. refl }

  pub Leaves-write_all : (bytes : Bytes) → Leaves buffered_world (write_all write bytes)
  unfolding write_all
  Leaves-write_all bytes = record {
    at = λ s.
        let spare = buffer_capacity - length s.buffer in
        if-SameData buffered_world (ltb (length bytes) spare) s (push write bytes s) _ refl (
          (Leaves-bind buffered_world (flush_if write (ltb spare (length bytes))) _
              (Leaves-flush_if _)
              (λ _. Leaves-write_or_push (leb buffer_capacity (length bytes)) bytes)).at
            s);
  }
