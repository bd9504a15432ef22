-- ===== src/Io/Calls.antt =====
-- Whether the calls to come succeed.
use yabiir.Base.{ℕ, zero, suc, Bool, true, false, List, [], ◌∷◌, ◌≡◌, refl, if◌then◌else◌}
use yabiir.Error.{Result, ok, err, io}
use yabiir.Io.{Outcome, full, part, fail}
use yabiir.Io.Disk.{World, next_outcome, syscall}

abbrev succeeds : Outcome → Bool
succeeds full = true
succeeds (part k) = true
succeeds (fail k) = false

-- None of the next calls, as many as that, fails.
abbrev pub calls_succeed : ℕ → List Outcome → Bool
calls_succeed zero plan = true
calls_succeed (suc n) plan =
    let later = calls_succeed n (next_outcome plan).1 in
    if succeeds (next_outcome plan).0 then later else false

-- What a chain of these calls returns.
abbrev pub result_of : Bool → Result (Unit {0})
result_of true = ok tt
result_of false = err io

pub syscall-result : (w : World) → (syscall w).0 ≡ result_of (calls_succeed 1 w.plan)
unfolding syscall
syscall-result w = go w.plan
  where
    go :
        (plan : List Outcome)
        → (syscall (record w { plan = plan })).0 ≡ result_of (calls_succeed 1 plan)
    go [] = refl
    go (full ∷ plan) = refl
    go (part k ∷ plan) = refl
    go (fail k ∷ plan) = refl
