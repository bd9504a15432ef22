-- ===== src/Commit/Safety.antt =====
-- src/commit.rs: what the invariant says of the threads, whatever the order of their steps.
use mathlib.Core.Path.{subst}
use yabiir.Base.{
  ℕ, ◌+◌, ◌^◌, ◌≤◌, ◌<◌, ◌≡◌, refl, sym, ◌∙◌, Bool, true, false, Option, none, some, List, [], ◌∷◌,
  length, ==-ne, ◌≢◌, ==-refl, arith,
}
use yabiir.Commit.{State, Turn, returns, leads, waits, check, mark_all_durable}
use yabiir.Commit.Threads.{
  Phase, outside, checking, waiting, leading, flushed, returned, System, woken, after_check,
  write_from, check_from, fsync_from, finish_from, Action, write, look, done, wake, sync, rotation,
  step, run, start,
}
use yabiir.Commit.Invariant.{
  PhaseFits, is_leader, leads_as, is_some, IsSafe, PhaseFits-woken, is_leader-woken,
}
use yabiir.Commit.Safe.{
  leads_as-other, move-IsSafe, write_from-IsSafe, check_from-IsSafe, fsync_from-IsSafe,
  finish_from-IsSafe,
}

rotation-IsSafe : (s : System) → IsSafe s → IsSafe (step rotation s)
unfolding step mark_all_durable
rotation-IsSafe s safe = record {
  counted = safe.counted;
  durable_le = omega (arith, safe.counted);
  synced_le = omega arith;
  fits = λ i.
      PhaseFits-woken s.commit.is_syncing s.commit.is_syncing (s.phase i)
        (omega (arith, safe.synced_le)) (omega arith) (safe.fits i);
  leader = safe.leader;
  led = record {
    who = λ i. is_leader-woken (s.phase i) ∙ safe.led.who i;
    in_flight = safe.led.in_flight;
  };
}

step-IsSafe :
    (a : Action) (s : System) → (step a s).appended < 2 ^ 64 → IsSafe s → IsSafe (step a s)
unfolding step
step-IsSafe (write i) s h safe = write_from-IsSafe (s.phase i) i s refl h safe
step-IsSafe (look i) s h safe = check_from-IsSafe (s.phase i) i s refl (safe.fits i) safe
step-IsSafe (done i) s h safe = finish_from-IsSafe (s.phase i) i s refl (safe.fits i) safe
step-IsSafe (wake i) s h safe =
    move-IsSafe i (woken (s.phase i)) safe
      (PhaseFits-woken s.commit.is_syncing s.commit.is_syncing (s.phase i) (omega arith)
        (omega arith) (safe.fits i))
      (is_leader-woken (s.phase i))
step-IsSafe (sync i ok) s h safe = fsync_from-IsSafe (s.phase i) i ok s refl (safe.fits i) safe
step-IsSafe rotation s h safe = rotation-IsSafe s safe

after_check_appended :
    (i t : ℕ) (looked : State × Turn) (s : System)
    → (after_check i t looked s).appended ≡ s.appended
after_check_appended i t (state, returns) s = refl
after_check_appended i t (state, leads c) s = refl
after_check_appended i t (state, waits) s = refl

-- A step adds one write at most.
from_appended :
    (p : Phase) (i : ℕ) (ok : Bool) (s : System)
    → ((write_from p i s).appended ≤ s.appended + 1)
      × ((check_from p i s).appended ≡ s.appended)
      × ((fsync_from p i ok s).appended ≡ s.appended)
      × ((finish_from p i s).appended ≡ s.appended)
unfolding write_from check_from fsync_from finish_from
from_appended outside i ok s = (omega arith, refl, refl, refl)
from_appended (checking t) i ok s =
    (omega arith, after_check_appended i t (check s.commit t) s, refl, refl)
from_appended (waiting t) i ok s = (omega arith, refl, refl, refl)
from_appended (leading t c) i ok s = (omega arith, refl, refl, refl)
from_appended (flushed t c before) i ok s = (omega arith, refl, refl, refl)
from_appended (returned t before) i ok s = (omega arith, refl, refl, refl)

step_appended : (a : Action) (s : System) → (step a s).appended ≤ s.appended + 1
unfolding step
step_appended (write i) s = (from_appended (s.phase i) i true s).0
step_appended (look i) s = let (_, h, _, _) = from_appended (s.phase i) i true s in omega arith
step_appended (done i) s = let (_, _, _, h) = from_appended (s.phase i) i true s in omega arith
step_appended (wake i) s = omega arith
step_appended (sync i ok) s = let (_, _, h, _) = from_appended (s.phase i) i ok s in omega arith
step_appended rotation s = omega arith

pub run-IsSafe :
    (actions : List Action) (s : System)
    → s.appended + length actions < 2 ^ 64
    → IsSafe s
    → IsSafe (run actions s)
unfolding run
run-IsSafe [] s h safe = safe
run-IsSafe (a ∷ actions) s h safe =
    let few = step_appended a s in
    run-IsSafe actions (step a s) (omega arith) (step-IsSafe a s (omega arith) safe)

start-IsSafe : IsSafe start
start-IsSafe = record {
  counted = refl;
  durable_le = omega arith;
  synced_le = omega arith;
  fits = λ i. tt;
  leader = none;
  led = record { who = λ i. refl; in_flight = refl };
}

leader_there :
    (o : Option ℕ) (phase : ℕ → Phase)
    → is_some o ≡ true
    → ((i : ℕ) → is_leader (phase i) ≡ leads_as o i)
    → (l : ℕ) × (is_leader (phase l) ≡ true)
leader_there none phase h who = cc
leader_there (some l) phase h who = (l, who l ∙ ==-refl l)

module _ (actions : List Action) (few : length actions < 2 ^ 64) where
  reached : IsSafe (run actions start)
  reached = run-IsSafe actions start (omega arith) start-IsSafe

  -- No two threads lead at a time: while one is between taking the lead and the end of its fsync's
  -- round, no other is, in any run of less than 2 ^ 64 steps.
  pub commit_one_leader :
      (i j : ℕ)
      → i ≢ j
      → is_leader ((run actions start).phase i) ≡ true
      → is_leader ((run actions start).phase j) ≡ false
  commit_one_leader i j ne first =
      reached.led.who j
      ∙ leads_as-other reached.leader i j (sym first ∙ reached.led.who i) (==-ne i j ne)

  -- No thread waits for nothing: while one waits on the condition variable, some thread leads, in
  -- any run of less than 2 ^ 64 steps.
  pub commit_waits_for_leader :
      (i t : ℕ)
      → (run actions start).phase i ≡ waiting t
      → (l : ℕ) × (is_leader ((run actions start).phase l) ≡ true)
  commit_waits_for_leader i t at =
      let b = (run actions start).commit.is_syncing in
      let fits =
        subst (λ (p : Phase). PhaseFits b (run actions start).synced (run actions start).appended p)
          at (reached.fits i) in
      leader_there reached.leader (run actions start).phase (sym reached.led.in_flight ∙ fits.1)
        reached.led.who
