-- ===== src/Tests/Threads.antt =====
-- The theorems on threads in a group commit, at concrete runs.
use yabiir.Base.{ℕ, ◌≡◌, refl, true, false, List, [], ◌∷◌, arith}
use yabiir.Commit.{record_pending, check}
use yabiir.Commit.Threads.{
  waiting, Action, write, look, done, sync, write_from, check_from, step, run, start,
}
use yabiir.Commit.Invariant.{is_leader}
use yabiir.Commit.Safety.{commit_one_leader, commit_waits_for_leader}

-- Threads 1 and 2 write, 1 leads and 2 waits.
abbrev waiting_run : List Action
waiting_run = write 1 ∷ write 2 ∷ look 1 ∷ look 2 ∷ []

-- The leader's fsync covers both, and both return.
abbrev shared_run : List Action
shared_run = write 1 ∷ write 2 ∷ look 1 ∷ look 2 ∷ sync 1 true ∷ done 1 ∷ look 2 ∷ look 1 ∷ []

waiting_2 : (run waiting_run start).phase 2 ≡ waiting 2
unfolding run step write_from check_from record_pending check
waiting_2 = refl

leader_1 : is_leader ((run waiting_run start).phase 1) ≡ true
unfolding run step write_from check_from record_pending check
leader_1 = refl

commit_one_leader_example : is_leader ((run waiting_run start).phase 2) ≡ false
commit_one_leader_example =
    commit_one_leader waiting_run (omega arith) 1 2 (λ e. omega (arith, e)) leader_1

commit_waits_for_leader_example : (l : ℕ) × (is_leader ((run waiting_run start).phase l) ≡ true)
commit_waits_for_leader_example = commit_waits_for_leader waiting_run (omega arith) 2 2 waiting_2
