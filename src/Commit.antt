-- ===== src/Commit.antt =====
-- src/commit.rs: group commit. The state stands under a mutex, so each stretch of code between
-- taking and releasing it is one atomic step: a function of the state.
pub mod Threads
pub mod Invariant
pub mod Safe
pub mod Safety
use yabiir.Base.{ℕ, ◌+◌, ◌%◌, max, Bool, true, false, leb, not, if◌then◌else◌}
use yabiir.Format.{u64_mod}

pub record State : Type 0 where
  pub pending_writes : ℕ
  pub max_durable_generation : ℕ
  pub is_syncing : Bool

abbrev pub new : State
new = record { pending_writes = 0; max_durable_generation = 0; is_syncing = false }

-- The generation of the write.
unfoldable pub record_pending : State → State × ℕ
record_pending s =
    let pending_writes = (s.pending_writes + 1) % u64_mod in
    (record s { pending_writes = pending_writes }, pending_writes)

unfoldable pub mark_all_durable : State → State
mark_all_durable s = record s { max_durable_generation = s.pending_writes }

-- What a thread does after its look at the state: it returns, runs an fsync that covers the
-- generations up to a number, or waits on the condition variable.
pub data Turn : Type 0 where
  returns : Turn
  leads : ℕ → Turn
  waits : Turn

-- The body of the loop in `commit`, up to where the mutex is released.
unfoldable pub check : State → ℕ → State × Turn
check s target_generation =
    if leb target_generation s.max_durable_generation
    then (s, returns)
    else if not s.is_syncing
    then (record s { is_syncing = true }, leads s.pending_writes)
    else (s, waits)

-- What the leader does when it has the mutex again, with the outcome of its fsync.
unfoldable pub finish : State → ℕ → Bool → State
finish s covers_up_to succeeded = record s {
  is_syncing = false;
  max_durable_generation =
      if succeeded then max s.max_durable_generation covers_up_to else s.max_durable_generation;
}
