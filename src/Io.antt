-- ===== src/Io.antt =====
-- Input and output as the standard library does it: actions on a state that may fail, and the
-- outcomes that the operating system chooses for the calls. What an action wrote before it failed
-- stays written, so the state comes back beside an error too.
pub mod Read
pub mod Disk
pub mod Grows
pub mod BufWriter
pub mod After
pub mod Leaves
pub mod Calls
use yabiir.Base.{ℕ, List, [], ◌∷◌}
use yabiir.Error.{Error, Result, ok, err, blocked}

-- A call is done in full, in part (of a read: at most that many bytes, and one), or fails (of a
-- write: after that many bytes). A list of outcomes is used up call by call; when it is empty,
-- every call is done in full.
pub data Outcome : Type 0 where
  full : Outcome
  part fail : ℕ → Outcome

abbrev pub Exec {ℓ} : Type ℓ → Type ℓ → Type ℓ
Exec S A = S → Result A × S

module _ {ℓ} {S A : Type ℓ} where
  abbrev pub pure : A → Exec S A
  pure a s = (ok a, s)

  abbrev pub raise : Error → Exec S A
  raise e s = (err e, s)

module _ {ℓ} {S A B : Type ℓ} where
  abbrev pub continue : Result A → S → (A → Exec S B) → Result B × S
  continue (ok a) s f = f a s
  continue (err e) s f = (err e, s)
  continue blocked s f = (blocked, s)

  infixl 5 ◌>>=◌ ◌>>◌
  abbrev pub ◌>>=◌ : Exec S A → (A → Exec S B) → Exec S B
  ◌>>=◌ m f s = continue (m s).0 (m s).1 f

  abbrev pub ◌>>◌ : Exec S A → Exec S B → Exec S B
  m >> k = m >>= λ _. k
