-- ===== src/Commit/Safe.antt =====
-- src/commit.rs: every step keeps the invariant.
use yabiir.Base.{
  ℕ, ◌+◌, ◌%◌, ◌^◌, ◌≤◌, ◌<◌, max, ◌≡◌, refl, sym, ap, ◌∙◌, Bool, true, false, Bool-cases, inl, inr,
  Option, none, some, leb, ◌==◌, ==_iff, ==-refl, if◌then◌else◌, arith,
}
use yabiir.Commit.{State, returns, leads, waits, record_pending, check, finish}
use yabiir.Commit.Threads.{
  Phase, outside, checking, waiting, leading, flushed, returned, System, set_phase, woken,
  after_finish, write_from, check_from, fsync_from, finish_from,
}
use yabiir.Commit.Invariant.{
  PhaseFits, is_leader, leads_as, is_some, Led, IsSafe, PhaseFits-mono, PhaseFits-woken,
  is_leader-woken, set_phase_all,
}

-- A thread moves on without becoming the leader or ceasing to be.
move-Led :
    {s : System} {leader : Option ℕ} (i : ℕ) (p : Phase)
    → Led s leader
    → is_leader p ≡ is_leader (s.phase i)
    → (j : ℕ) → is_leader (set_phase i p s.phase j) ≡ leads_as leader j
move-Led {s} {leader} i p led h =
    set_phase_all (λ j q. is_leader q ≡ leads_as leader j) i p s.phase (h ∙ led.who i)
      (λ j _. led.who j)

pub write_from-IsSafe :
    (p : Phase) (i : ℕ) (s : System)
    → s.phase i ≡ p
    → (write_from p i s).appended < 2 ^ 64
    → IsSafe s
    → IsSafe (write_from p i s)
unfolding write_from record_pending
write_from-IsSafe outside i s at room safe =
    let counted : (s.commit.pending_writes + 1) % 2 ^ 64 ≡ s.appended + 1 =
      omega (arith, safe.counted) in
    record {
      counted = counted;
      durable_le = safe.durable_le;
      synced_le = omega (arith, safe.synced_le);
      fits =
          set_phase_all (λ j q. PhaseFits s.commit.is_syncing s.synced (s.appended + 1) q) i
            (checking ((s.commit.pending_writes + 1) % 2 ^ 64)) s.phase (omega arith)
            (λ j _. PhaseFits-mono (s.phase j) (λ b. b) (omega arith) (omega arith) (safe.fits j));
      leader = safe.leader;
      led = record {
        who = move-Led i _ safe.led (ap is_leader (sym at));
        in_flight = safe.led.in_flight;
      };
    }
write_from-IsSafe (checking t) i s at room safe = safe
write_from-IsSafe (waiting t) i s at room safe = safe
write_from-IsSafe (leading t c) i s at room safe = safe
write_from-IsSafe (flushed t c ok) i s at room safe = safe
write_from-IsSafe (returned t ok) i s at room safe = safe

-- What one thread's own move asks for where the counters stay as they are.
pub move-IsSafe :
    {s : System} (i : ℕ) (p : Phase)
    → IsSafe s
    → PhaseFits s.commit.is_syncing s.synced s.appended p
    → is_leader p ≡ is_leader (s.phase i)
    → IsSafe (record s { phase = set_phase i p s.phase })
move-IsSafe {s} i p safe f h = record {
  counted = safe.counted;
  durable_le = safe.durable_le;
  synced_le = safe.synced_le;
  fits =
      set_phase_all (λ j q. PhaseFits s.commit.is_syncing s.synced s.appended q) i p s.phase f
        (λ j _. safe.fits j);
  leader = safe.leader;
  led = record { who = move-Led i p safe.led h; in_flight = safe.led.in_flight };
}

nobody : (o : Option ℕ) → false ≡ is_some o → o ≡ none
nobody none h = refl
nobody (some l) h = cc

start-IsSafe :
    {s : System} (i t : ℕ)
    → IsSafe s
    → s.commit.is_syncing ≡ false
    → t ≤ s.appended
    → IsSafe (record s {
      commit = record s.commit { is_syncing = true };
      phase = set_phase i (leading t s.commit.pending_writes) s.phase;
    })
start-IsSafe {s} i t safe idle h =
    let none_leads = nobody safe.leader (sym idle ∙ safe.led.in_flight) in
    record {
      counted = safe.counted;
      durable_le = safe.durable_le;
      synced_le = safe.synced_le;
      fits =
          set_phase_all (λ j q. PhaseFits true s.synced s.appended q) i
            (leading t s.commit.pending_writes) s.phase (h, omega (arith, safe.counted))
            (λ j _.
              PhaseFits-mono (s.phase j) (λ _. refl) (omega arith) (omega arith) (safe.fits j));
      leader = some i;
      led = record {
        who =
            set_phase_all (λ j q. is_leader q ≡ (i == j)) i (leading t s.commit.pending_writes)
              s.phase (sym (==-refl i))
              (λ j other. safe.led.who j ∙ ap (λ o. leads_as o j) none_leads ∙ sym other);
        in_flight = refl;
      };
    }

module _ (state : State) (t : ℕ) where
  check_durable : leb t state.max_durable_generation ≡ true → check state t ≡ (state, returns)
  unfolding check
  check_durable durable = rw durable refl

  module _ (wanted : leb t state.max_durable_generation ≡ false) where
    check_busy : state.is_syncing ≡ true → check state t ≡ (state, waits)
    unfolding check
    check_busy busy = rw (wanted, busy) refl

    check_idle :
        state.is_syncing ≡ false
        → check state t ≡ (record state { is_syncing = true }, leads state.pending_writes)
    unfolding check
    check_idle idle = rw (wanted, idle) refl

pub check_from-IsSafe :
    (p : Phase) (i : ℕ) (s : System)
    → s.phase i ≡ p
    → PhaseFits s.commit.is_syncing s.synced s.appended p
    → IsSafe s
    → IsSafe (check_from p i s)
unfolding check_from
check_from-IsSafe (checking t) i s at f safe =
    elim (Bool-cases (leb t s.commit.max_durable_generation)) [
      | inl durable ↦
          let le : t ≤ s.commit.max_durable_generation = ground arith in
          rw (check_durable s.commit t durable) (
            move-IsSafe i (returned t true) safe (λ _. omega (arith, safe.durable_le))
              (ap is_leader (sym at)))
      | inr wanted ↦ elim (Bool-cases s.commit.is_syncing) [
        | inl busy ↦
            rw (check_busy s.commit t wanted busy)
              (move-IsSafe i (waiting t) safe (f, busy) (ap is_leader (sym at)))
        | inr idle ↦ rw (check_idle s.commit t wanted idle) (start-IsSafe i t safe idle f)
      ]
    ]
check_from-IsSafe outside i s at f safe = safe
check_from-IsSafe (waiting t) i s at f safe = safe
check_from-IsSafe (leading t c) i s at f safe = safe
check_from-IsSafe (flushed t c ok) i s at f safe = safe
check_from-IsSafe (returned t ok) i s at f safe = safe

pub fsync_from-IsSafe :
    (p : Phase) (i : ℕ) (ok : Bool) (s : System)
    → s.phase i ≡ p
    → PhaseFits s.commit.is_syncing s.synced s.appended p
    → IsSafe s
    → IsSafe (fsync_from p i ok s)
unfolding fsync_from
fsync_from-IsSafe (leading t c) i true s at f safe = record {
  counted = safe.counted;
  durable_le = omega (arith, safe.durable_le, safe.synced_le);
  synced_le = omega arith;
  fits =
      set_phase_all (λ j q. PhaseFits s.commit.is_syncing s.appended s.appended q) i
        (flushed t c true) s.phase (f.0, f.1, λ _. f.1)
        (λ j _.
          PhaseFits-mono (s.phase j) (λ b. b) (omega (arith, safe.synced_le)) (omega arith)
            (safe.fits j));
  leader = safe.leader;
  led = record {
    who = move-Led i _ safe.led (ap is_leader (sym at));
    in_flight = safe.led.in_flight;
  };
}
fsync_from-IsSafe (leading t c) i false s at f safe =
    move-IsSafe i (flushed t c false) safe (f.0, f.1, λ h. cc) (ap is_leader (sym at))
fsync_from-IsSafe outside i ok s at f safe = safe
fsync_from-IsSafe (checking t) i ok s at f safe = safe
fsync_from-IsSafe (waiting t) i ok s at f safe = safe
fsync_from-IsSafe (flushed t c before) i ok s at f safe = safe
fsync_from-IsSafe (returned t before) i ok s at f safe = safe

-- Nobody leads beside the leader.
pub leads_as-other :
    (o : Option ℕ) (i j : ℕ) → true ≡ leads_as o i → (i == j) ≡ false → leads_as o j ≡ false
leads_as-other none i j h other = refl
leads_as-other (some l) i j h other = rw ((==_iff l i).0 (sym h)) other

finish_durable :
    (ok : Bool) (m c y : ℕ) → m ≤ y → (ok ≡ true → c ≤ y) → (if ok then max m c else m) ≤ y
finish_durable true m c y h f = let covered = f refl in omega arith
finish_durable false m c y h f = h

after_finish_lem :
    (ok : Bool) (t y n : ℕ)
    → t ≤ n
    → PhaseFits false y n (after_finish ok t) × (is_leader (after_finish ok t) ≡ false)
after_finish_lem true t y n h = (h, refl)
after_finish_lem false t y n h = (λ e. cc, refl)

pub finish_from-IsSafe :
    (p : Phase) (i : ℕ) (s : System)
    → s.phase i ≡ p
    → PhaseFits s.commit.is_syncing s.synced s.appended p
    → IsSafe s
    → IsSafe (finish_from p i s)
unfolding finish_from finish
finish_from-IsSafe (flushed t c ok) i s at f safe = record {
  counted = safe.counted;
  durable_le = finish_durable ok s.commit.max_durable_generation c s.synced safe.durable_le f.2;
  synced_le = safe.synced_le;
  fits =
      set_phase_all (λ j q. PhaseFits false s.synced s.appended q) i (after_finish ok t)
        (λ j. woken (s.phase j)) (after_finish_lem ok t s.synced s.appended f.0).0
        (λ j _.
          PhaseFits-woken s.commit.is_syncing false (s.phase j) (omega arith) (omega arith)
            (safe.fits j));
  leader = none;
  led = record {
    who =
        set_phase_all (λ j q. is_leader q ≡ false) i (after_finish ok t) (λ j. woken (s.phase j))
          (after_finish_lem ok t s.synced s.appended f.0).1
          (λ j other.
            is_leader-woken (s.phase j)
            ∙ safe.led.who j
            ∙ leads_as-other safe.leader i j (ap is_leader (sym at) ∙ safe.led.who i) other);
    in_flight = refl;
  };
}
finish_from-IsSafe outside i s at f safe = safe
finish_from-IsSafe (checking t) i s at f safe = safe
finish_from-IsSafe (waiting t) i s at f safe = safe
finish_from-IsSafe (leading t c) i s at f safe = safe
finish_from-IsSafe (returned t ok) i s at f safe = safe
