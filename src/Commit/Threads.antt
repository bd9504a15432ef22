-- ===== src/Commit/Threads.antt =====
-- src/commit.rs and src/engine.rs `append`: threads that write and wait for a shared fsync. A thread's
-- steps are the stretches of code under one of the two mutexes, and the fsync between them. The
-- active file's mutex makes an append and its `record_pending` one step, and a rotation's sync and its
-- `mark_all_durable` another.
use yabiir.Base.{ℕ, ◌+◌, Bool, true, false, List, [], ◌∷◌, ◌==◌, if◌then◌else◌}
use yabiir.Commit.{
  State, Turn, returns, leads, waits, record_pending, mark_all_durable, check, finish,
}

-- Where a thread is: before its write; at the head of the loop in `commit` with its generation;
-- on the condition variable; a leader before its fsync, which is to cover the generations up to a
-- number; a leader after it, with the outcome; and out of `commit`, with its result.
pub data Phase : Type 0 where
  outside : Phase
  checking waiting : ℕ → Phase
  leading : ℕ → ℕ → Phase
  flushed : ℕ → ℕ → Bool → Phase
  returned : ℕ → Bool → Phase

-- Beside the state under the mutex: how many writes were appended, and how many of them, from the
-- first on, an fsync has covered.
pub record System : Type 0 where
  pub commit : State
  pub appended : ℕ
  pub synced : ℕ
  pub phase : ℕ → Phase

abbrev pub set_phase : ℕ → Phase → (ℕ → Phase) → ℕ → Phase
set_phase i p phase j = if i == j then p else phase j

-- `notify_all`
abbrev pub woken : Phase → Phase
woken outside = outside
woken (checking t) = checking t
woken (waiting t) = checking t
woken (leading t c) = leading t c
woken (flushed t c ok) = flushed t c ok
woken (returned t ok) = returned t ok

abbrev pub after_check : ℕ → ℕ → State × Turn → System → System
after_check i t (state, returns) s = record s {
  commit = state;
  phase = set_phase i (returned t true) s.phase;
}
after_check i t (state, leads c) s = record s {
  commit = state;
  phase = set_phase i (leading t c) s.phase;
}
after_check i t (state, waits) s = record s {
  commit = state;
  phase = set_phase i (waiting t) s.phase;
}

abbrev pub after_finish : Bool → ℕ → Phase
after_finish true t = checking t
after_finish false t = returned t false

-- A step of a thread that is elsewhere changes nothing.
unfoldable pub write_from : Phase → ℕ → System → System
write_from outside i s =
    let counted = record_pending s.commit in
    record s {
      commit = counted.0;
      appended = s.appended + 1;
      phase = set_phase i (checking counted.1) s.phase;
    }
write_from (checking t) i s = s
write_from (waiting t) i s = s
write_from (leading t c) i s = s
write_from (flushed t c ok) i s = s
write_from (returned t ok) i s = s

unfoldable pub check_from : Phase → ℕ → System → System
check_from outside i s = s
check_from (checking t) i s = after_check i t (check s.commit t) s
check_from (waiting t) i s = s
check_from (leading t c) i s = s
check_from (flushed t c ok) i s = s
check_from (returned t ok) i s = s

-- An fsync that succeeds covers what was appended before it. Files before the active one were synced
-- when they were rotated.
unfoldable pub fsync_from : Phase → ℕ → Bool → System → System
fsync_from outside i ok s = s
fsync_from (checking t) i ok s = s
fsync_from (waiting t) i ok s = s
fsync_from (leading t c) i ok s = record s {
  synced = if ok then s.appended else s.synced;
  phase = set_phase i (flushed t c ok) s.phase;
}
fsync_from (flushed t c done) i ok s = s
fsync_from (returned t done) i ok s = s

unfoldable pub finish_from : Phase → ℕ → System → System
finish_from outside i s = s
finish_from (checking t) i s = s
finish_from (waiting t) i s = s
finish_from (leading t c) i s = s
finish_from (flushed t c ok) i s = record s {
  commit = finish s.commit c ok;
  phase = set_phase i (after_finish ok t) (λ j. woken (s.phase j));
}
finish_from (returned t ok) i s = s

-- Steps of a thread; a rotation, whoever does it; and a wait that ends without a notification.
pub data Action : Type 0 where
  write look done wake : ℕ → Action
  sync : ℕ → Bool → Action
  rotation : Action

unfoldable pub step : Action → System → System
unfolding write_from check_from fsync_from finish_from
step (write i) s = write_from (s.phase i) i s
step (look i) s = check_from (s.phase i) i s
step (done i) s = finish_from (s.phase i) i s
step (wake i) s = record s { phase = set_phase i (woken (s.phase i)) s.phase }
step (sync i ok) s = fsync_from (s.phase i) i ok s
step rotation s = record s {
  commit = mark_all_durable s.commit;
  synced = s.appended;
  phase = λ j. woken (s.phase j);
}

unfoldable pub run : List Action → System → System
unfolding step
run [] s = s
run (action ∷ actions) s = run actions (step action s)

abbrev pub start : System
start = record {
  commit = record { pending_writes = 0; max_durable_generation = 0; is_syncing = false };
  appended = 0;
  synced = 0;
  phase = λ i. outside;
}
