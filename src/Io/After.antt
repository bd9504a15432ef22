-- ===== src/Io/After.antt =====
-- What holds after an action, one thing where it returns and another where it fails.
use yabiir.Base.{Bool, true, false, if◌then◌else◌, ◌≡◌, refl}
use yabiir.Error.{Result, ok, err, blocked}
use yabiir.Io.{Exec, continue, ◌>>=◌}

abbrev At : {S A : Type 0} → Result A × S → (A → S → Type 0) → (S → Type 0) → Type 0
At (ok a, s) Q E = Q a s
At (err x, s) Q E = E s
At (blocked, s) Q E = E s

pub record After {S A : Type 0} (x : Result A × S) (Q : A → S → Type 0) (E : S → Type 0)
    : Type 0 where
  pub holds : At x Q E

module _ {S A : Type 0} where
  pub After-mono :
      (x : Result A × S) {Q Q' : A → S → Type 0} {E E' : S → Type 0}
      → After x Q E
      → ((a : A) (s : S) → Q a s → Q' a s)
      → ((s : S) → E s → E' s)
      → After x Q' E'
  After-mono (ok a, s) h q e = record { holds = q a s h.holds }
  After-mono (err x, s) h q e = record { holds = e s h.holds }
  After-mono (blocked, s) h q e = record { holds = e s h.holds }

  -- What holds in either case.
  pub After-both :
      (x : Result A × S) {Q : A → S → Type 0} {E : S → Type 0}
      → After x Q E
      → ((a : A) (s : S) → Q a s → E s)
      → E x.1
  After-both (ok a, s) h q = q a s h.holds
  After-both (err x, s) h q = h.holds
  After-both (blocked, s) h q = h.holds

  -- What holds in any case, beside what was known.
  pub After-with :
      (x : Result A × S) {Q : A → S → Type 0} {E : S → Type 0} {P : S → Type 0}
      → After x Q E
      → P x.1
      → After x (λ a s. Q a s × P s) E
  After-with (ok a, s) h p = record { holds = (h.holds, p) }
  After-with (err x, s) h p = record { holds = h.holds }
  After-with (blocked, s) h p = record { holds = h.holds }

  pub After-and :
      (x : Result A × S) {Q Q' : A → S → Type 0} {E E' : S → Type 0}
      → After x Q E
      → After x Q' E'
      → After x (λ a s. Q a s × Q' a s) E
  After-and (ok a, s) h h' = record { holds = (h.holds, h'.holds) }
  After-and (err x, s) h h' = record { holds = h.holds }
  After-and (blocked, s) h h' = record { holds = h.holds }

  -- The same, where a failure leaves only that.
  pub After-knowing :
      (x : Result A × S) {Q : A → S → Type 0} {P : S → Type 0}
      → After x Q (λ _. Unit {0})
      → P x.1
      → After x (λ a s. Q a s × P s) P
  After-knowing (ok a, s) h p = record { holds = (h.holds, p) }
  After-knowing (err x, s) h p = record { holds = p }
  After-knowing (blocked, s) h p = record { holds = p }

  -- What holds in any case; a failure is of no interest.
  pub After-any : (x : Result A × S) {P : S → Type 0} → P x.1 → After x (λ _. P) (λ _. Unit {0})
  After-any (ok a, s) p = record { holds = p }
  After-any (err x, s) p = record { holds = tt }
  After-any (blocked, s) p = record { holds = tt }

  -- What holds at any end.
  pub After-always : (x : Result A × S) {E : S → Type 0} → E x.1 → After x (λ a. E) E
  After-always (ok a, s) h = record { holds = h }
  After-always (err x, s) h = record { holds = h }
  After-always (blocked, s) h = record { holds = h }

pub After-if :
    {S A : Type 0} (b : Bool) (x y : Exec S A) (s : S) {Q : A → S → Type 0} {E : S → Type 0}
    → (b ≡ true → After (x s) Q E)
    → (b ≡ false → After (y s) Q E)
    → After ((if b then x else y) s) Q E
After-if true x y s p q = p refl
After-if false x y s p q = q refl

-- The state of one part seen in the whole.
pub After-lift :
    {S T A : Type 0} (x : Result A × S) (f : S → T) {Q : A → S → Type 0} {E : S → Type 0}
    {Q' : A → T → Type 0} {E' : T → Type 0}
    → After x Q E
    → ((a : A) (s : S) → x.0 ≡ ok a → Q a s → Q' a (f s))
    → ((s : S) → E s → E' (f s))
    → After (x.0, f x.1) Q' E'
After-lift (ok a, s) f h q e = record { holds = q a s refl h.holds }
After-lift (err x, s) f h q e = record { holds = e s h.holds }
After-lift (blocked, s) f h q e = record { holds = e s h.holds }

module _ {S A B : Type 0} where
  After-continue :
      (r : Result A) (s : S) (f : A → Exec S B) {Q : A → S → Type 0} {R : B → S → Type 0}
      {E : S → Type 0}
      → After (r, s) Q E
      → ((a : A) (t : S) → Q a t → After (f a t) R E)
      → After (continue r s f) R E
  After-continue (ok a) s f h k = k a s h.holds
  After-continue (err x) s f h k = record { holds = h.holds }
  After-continue blocked s f h k = record { holds = h.holds }

  pub After-bind :
      (m : Exec S A) (f : A → Exec S B) {s : S} {Q : A → S → Type 0} {R : B → S → Type 0}
      {E : S → Type 0}
      → After (m s) Q E
      → ((a : A) (t : S) → Q a t → After (f a t) R E)
      → After ((m >>= f) s) R E
  After-bind m f {s} h k = After-continue (m s).0 (m s).1 f h k
