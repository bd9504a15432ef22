-- ===== src/Io/Read/Calmed.antt =====
-- A read that returns, returns what it would have returned had no call failed.
use yabiir.Base.{
  ℕ, zero, suc, ◌-◌, ◌≡◌, refl, Bool, true, false, List, [], ◌∷◌, ◌++◌, Bytes, length, ◌==◌,
  if◌then◌else◌,
}
use yabiir.Error.{Result, ok, err, blocked}
use yabiir.Io.{Exec, Outcome, full, part, fail, pure, continue, ◌>>=◌}
use yabiir.Io.Read.{Reader, read, read_loop, read_up_to}
use yabiir.Io.Read.Laws.{NoFault}

abbrev pub calmed : List Outcome → List Outcome
calmed [] = []
calmed (full ∷ plan) = full ∷ calmed plan
calmed (part k ∷ plan) = part k ∷ calmed plan
calmed (fail k ∷ plan) = full ∷ calmed plan

abbrev pub calm_reader : Reader → Reader
calm_reader r = record r { plan = calmed r.plan }

pub calmed-NoFault : (plan : List Outcome) → NoFault (calmed plan)
calmed-NoFault [] = tt
calmed-NoFault (full ∷ plan) = (tt, calmed-NoFault plan)
calmed-NoFault (part k ∷ plan) = (tt, calmed-NoFault plan)
calmed-NoFault (fail k ∷ plan) = (tt, calmed-NoFault plan)

abbrev pub Agrees : {A : Type 0} → Result A × Reader → Result A × Reader → Type 0
Agrees (ok a, r) x = x ≡ (ok a, calm_reader r)
Agrees (err e, r) x = Unit {0}
Agrees (blocked, r) x = Unit {0}

pub record Calms {A : Type 0} (m : Exec Reader A) : Type 0 where
  pub at : (r : Reader) → Agrees (m r) (m (calm_reader r))

pub Calms-pure : {A : Type 0} (a : A) → Calms (pure a)
Calms-pure a = record { at = λ r. refl }

pub Calms-blocked : {A : Type 0} → Calms {A = A} (λ r. (blocked, r))
Calms-blocked = record { at = λ r. tt }

module _ {A B : Type 0} where
  continue-Agrees :
      (r : Result A) (s : Reader) (x : Result A × Reader) (f : A → Exec Reader B)
      → Agrees (r, s) x
      → ((a : A) → Calms (f a))
      → Agrees (continue r s f) (continue x.0 x.1 f)
  continue-Agrees (ok a) s x f h g = rw h ((g a).at s)
  continue-Agrees (err e) s x f h g = tt
  continue-Agrees blocked s x f h g = tt

  pub Calms-bind :
      (m : Exec Reader A) (f : A → Exec Reader B)
      → Calms m
      → ((a : A) → Calms (f a))
      → Calms (m >>= f)
  Calms-bind m f g h = record {
    at = λ r. continue-Agrees (m r).0 (m r).1 (m (calm_reader r)) f (g.at r) h;
  }

pub Calms-if :
    {A : Type 0} (b : Bool) (m n : Exec Reader A) → Calms m → Calms n → Calms (if b then m else n)
Calms-if true m n p q = p
Calms-if false m n p q = q

Calms-read : (n : ℕ) → Calms (read n)
unfolding read
Calms-read n = record { at = λ r. go r.rest r.plan }
  where
    go :
        (rest : Bytes) (plan : List Outcome)
        → Agrees
            (read n (record { rest = rest; plan = plan }))
            (read n (record { rest = rest; plan = calmed plan }))
    go rest [] = refl
    go rest (full ∷ plan) = refl
    go rest (part k ∷ plan) = refl
    go rest (fail k ∷ plan) = tt

Calms-read_loop : (fuel n : ℕ) (got : Bytes) → Calms (read_loop fuel n got)
unfolding read_loop
Calms-read_loop zero n got = Calms-blocked
Calms-read_loop (suc fuel) n got = Calms-if (n == 0) (pure got) _ (Calms-pure got) (
    Calms-bind (read n) _ (Calms-read n) (λ bytes.
      Calms-if (length bytes == 0) (pure got) _ (Calms-pure got)
        (Calms-read_loop fuel (n - length bytes) (got ++ bytes))))

pub Calms-read_up_to : (n : ℕ) → Calms (read_up_to n)
unfolding read_up_to
Calms-read_up_to n = Calms-read_loop (suc n) n []

-- What a read returned, where that of the calm read is known.
pub calmed-result :
    {A : Type 0} (m : Exec Reader A) (r : Reader) {a b : A}
    → Calms m
    → (m r).0 ≡ ok a
    → (m (calm_reader r)).0 ≡ ok b
    → a ≡ b
calmed-result {A} m r {a} {b} h e e' = go (m r) (m (calm_reader r)) (h.at r) e e'
  where
    go : (x y : Result A × Reader) → Agrees x y → x.0 ≡ ok a → y.0 ≡ ok b → a ≡ b
    go (ok c, s) y agree e e' = let f : ok c ≡ ok b = rw agree at e' in cc
    go (err x, s) y agree e e' = cc
    go (blocked, s) y agree e e' = cc
