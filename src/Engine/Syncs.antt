-- ===== src/Engine/Syncs.antt =====
-- src/commit.rs `commit` as src/engine.rs calls it: on one thread it returns, with one fsync at most.

use mathlib.Core.Path.{subst}
use yabiir.Base.{
  Bool, List, [], ◌∷◌, some, ◌<◌, max, if◌then◌else◌, ℕ, suc, ◌≤◌, ◌≡◌, refl, sym, ap, ◌∙◌, true,
  false, Bytes, leb, arith, Bool-cases, inl, inr,
}
use yabiir.Base.Map
use yabiir.Base.Map.{nat_eq, lookup-insert, lookup-cons}
use yabiir.Error.{Result, ok}
use yabiir.Io.{Exec, Outcome, full, part, fail, ◌>>◌}
use yabiir.Io.Calls.{calls_succeed, result_of, syscall-result}
use yabiir.Io.Disk.{syscall}
use yabiir.Recovery.Scan.{syscall-Settles}
use yabiir.Commit
use yabiir.Datafile
use yabiir.Datafile.{ActiveFile, Writing}
use yabiir.Engine.{Engine, on_file, on_active, on_world, do_fsync, lead, take_turn, commit_rounds}
use yabiir.Engine.Writes.{Ready, Goes, Goes-bind, sync_handle-Goes}

-- A call that changes nothing.
syscall-Goes :
    {e : Engine} {id : ℕ} {content : Bytes}
    → Ready e id content
    → Goes (on_world syscall) e tt id content
syscall-Goes {e} {id} r =
    let called = syscall-Settles e.world r.calm in
    record {
      result = called.result;
      ready = record {
        file = r.file;
        there = ap (Map.lookup id) called.data_kept ∙ r.there;
        older = r.older;
        free = λ j h. ap (Map.lookup j) called.data_kept ∙ r.free j h;
        calm = called.calm;
      };
      next_kept = refl;
      writes_kept = refl;
      syncing_kept = refl;
    }

-- The fsync of a leader.
do_fsync-Goes :
    {e : Engine} {id : ℕ} {content : Bytes} → Ready e id content → Goes do_fsync e tt id content
unfolding do_fsync
do_fsync-Goes r =
    Goes-bind (on_active Datafile.sync_handle) (λ _. on_world syscall) (sync_handle-Goes r)
      syscall-Goes

-- The state of the group commit is no part of it.
abbrev pub with_commit : Engine → Commit.State → Engine
with_commit e state = record e { group_commit = state }

pub Ready-with_commit :
    {e : Engine} {id : ℕ} {content : Bytes}
    → Ready e id content
    → (state : Commit.State) → Ready (with_commit e state) id content
Ready-with_commit r state = record {
  file = r.file;
  there = r.there;
  older = r.older;
  free = r.free;
  calm = r.calm;
}

-- A commit whose write is durable returns at once.
commit_rounds-durable :
    (rounds target : ℕ) (e : Engine)
    → target ≤ e.group_commit.max_durable_generation
    → commit_rounds (suc rounds) target e ≡ (ok tt, e)
unfolding commit_rounds take_turn Commit.check
commit_rounds-durable rounds target e h =
    let done : leb target e.group_commit.max_durable_generation ≡ true = ground arith in
    rw done refl

-- An action that is known to return and to leave an engine behind.
Goes-eq :
    {A : Type 0} (m : Exec Engine A) {e e' : Engine} {a : A} {id : ℕ} {content : Bytes}
    → m e ≡ (ok a, e')
    → Ready e' id content
    → e'.next_file_id ≡ e.next_file_id
    → e'.group_commit.pending_writes ≡ e.group_commit.pending_writes
    → e'.group_commit.is_syncing ≡ e.group_commit.is_syncing
    → Goes m e a id content
Goes-eq m h r next writes syncing = record {
  result = rw h refl;
  ready = rw h r;
  next_kept = rw h next;
  writes_kept = rw h writes;
  syncing_kept = rw h syncing;
}

module _ {e : Engine} {id : ℕ} {content : Bytes} (r : Ready e id content) (target : ℕ)
    (covered : target ≤ e.group_commit.pending_writes) where
  -- The engine when the leader takes the fsync, and when it has done it.
  abbrev started : Engine
  started = with_commit e (record e.group_commit { is_syncing = true })

  abbrev synced : Engine
  synced = (do_fsync started).1

  abbrev finished : Engine
  finished =
      with_commit synced (Commit.finish synced.group_commit e.group_commit.pending_writes true)

  started-Goes : Goes do_fsync started tt id content
  started-Goes = do_fsync-Goes (Ready-with_commit r (record e.group_commit { is_syncing = true }))

  finished_durable : target ≤ finished.group_commit.max_durable_generation
  unfolding Commit.finish
  finished_durable = omega arith

  -- The round of a leader, when its fsync does not fail.
  lead_lem : lead e.group_commit.pending_writes (commit_rounds 1 target) started ≡ (ok tt, finished)
  unfolding lead
  lead_lem = rw (started-Goes.result) (commit_rounds-durable 0 target finished finished_durable)

  -- A write that is recorded is covered by the next fsync: the commit returns after one round as the
  -- leader, if not at once.
  pub commit_rounds-Goes :
      e.group_commit.is_syncing ≡ false → Goes (commit_rounds 2 target) e tt id content
  unfolding commit_rounds take_turn Commit.check Commit.finish
  commit_rounds-Goes idle = elim (Bool-cases (leb target e.group_commit.max_durable_generation)) [
    | inl done ↦
        Goes-eq (commit_rounds 2 target) (commit_rounds-durable 1 target e (ground arith)) r refl
          refl refl
    | inr wanted ↦
        Goes-eq (commit_rounds 2 target) {e' = finished} (rw (wanted, idle) lead_lem)
          (Ready-with_commit started-Goes.ready _) started-Goes.next_kept started-Goes.writes_kept
          (sym idle)
  ]

-- The fsync of a leader makes two calls, one for the descriptor and `sync_data`, where the buffer
-- is empty.
abbrev empty_file : ℕ → ℕ → ActiveFile
empty_file id offset = record { file_id = id; buffer = []; offset = offset }

abbrev with_plan : Engine → List Outcome → Engine
with_plan e plan = record e { world = record e.world { plan = plan } }

do_fsync-plan :
    (e : Engine) (file : ActiveFile) (plan : List Outcome)
    → file.buffer ≡ []
    → let m = on_file (some file) Datafile.sync_handle >> on_world syscall in
      ((m (with_plan e plan)).0 ≡ result_of (calls_succeed 2 plan))
      × ((m (with_plan e plan)).1.group_commit ≡ e.group_commit)
unfolding on_file Datafile.sync_handle Datafile.flush syscall
do_fsync-plan e file [] h = rw h (refl, refl)
do_fsync-plan e file (full ∷ plan) h = rw h (syscall-result (record e.world { plan = plan }), refl)
do_fsync-plan e file (part k ∷ plan) h =
    rw h (syscall-result (record e.world { plan = plan }), refl)
do_fsync-plan e file (fail k ∷ plan) h = rw h (refl, refl)

do_fsync-result :
    (e : Engine) (file : ActiveFile)
    → e.active ≡ some file
    → file.buffer ≡ []
    → ((do_fsync e).0 ≡ result_of (calls_succeed 2 e.world.plan))
      × ((do_fsync e).1.group_commit ≡ e.group_commit)
unfolding do_fsync
do_fsync-result e file active h =
    rw active (do_fsync-plan (record e { active = some file }) file e.world.plan h)

-- What a commit returns, whose write is not yet durable, and the counters that it leaves.
pub record Commits (b : Bool) (e : Engine) (result : Result (Unit {0}) × Engine) : Type 0 where
  pub result_lem : result.0 ≡ result_of b
  pub durable_lem : result.1.group_commit.max_durable_generation ≡ (
      if b
      then max e.group_commit.max_durable_generation e.group_commit.pending_writes
      else e.group_commit.max_durable_generation)
  pub idle_lem : result.1.group_commit.is_syncing ≡ false
  pub writes_kept : result.1.group_commit.pending_writes ≡ e.group_commit.pending_writes

module _ (e : Engine) (file : ActiveFile) (active : e.active ≡ some file) (empty : file.buffer ≡ [])
    (target : ℕ) (covered : target ≤ e.group_commit.pending_writes) where
  abbrev leading : Engine
  leading = with_commit e (record e.group_commit { is_syncing = true })

  abbrev led : Engine
  led = (do_fsync leading).1

  lead-Commits :
      (b : Bool)
      → calls_succeed 2 e.world.plan ≡ b
      → Commits b e (lead e.group_commit.pending_writes (commit_rounds 1 target) leading)
  unfolding lead Commit.finish
  lead-Commits true h =
      let (result, counters) = do_fsync-result leading file active empty in
      let covers = e.group_commit.pending_writes in
      let ended = with_commit led (Commit.finish led.group_commit covers true) in
      let durable : target ≤ ended.group_commit.max_durable_generation = omega arith in
      rw (result, h, commit_rounds-durable 0 target ended durable)
        (record {
          result_lem = refl;
          durable_lem = rw counters refl;
          idle_lem = refl;
          writes_kept = rw counters refl;
        })
  lead-Commits false h =
      let (result, counters) = do_fsync-result leading file active empty in
      rw (result, h)
        (record {
          result_lem = refl;
          durable_lem = rw counters refl;
          idle_lem = refl;
          writes_kept = rw counters refl;
        })

  first_round :
      e.group_commit.is_syncing ≡ false
      → e.group_commit.max_durable_generation < target
      → commit_rounds 2 target e
        ≡ lead e.group_commit.pending_writes (commit_rounds 1 target) leading
  unfolding commit_rounds take_turn Commit.check
  first_round idle wanted =
      let late : leb target e.group_commit.max_durable_generation ≡ false = ground arith in
      rw (late, idle) refl

  -- Let an active file have an empty buffer, and let no fsync be in flight. A commit, on one thread,
  -- of a write that is recorded and not yet durable then makes two calls, that for the descriptor and
  -- `sync_data`, and ends in two rounds at most. If neither call fails, it returns, and all recorded
  -- writes count as durable; if one fails, it returns an error, and what counts as durable is what did
  -- before. In both cases no fsync is in flight then.
  pub commit_rounds_lem :
      e.group_commit.is_syncing ≡ false
      → e.group_commit.max_durable_generation < target
      → Commits (calls_succeed 2 e.world.plan) e (commit_rounds 2 target e)
  commit_rounds_lem idle wanted =
      subst (Commits (calls_succeed 2 e.world.plan) e) (sym (first_round idle wanted))
        (lead-Commits (calls_succeed 2 e.world.plan) refl)
