-- ===== src/Commit/Invariant.antt =====
-- src/commit.rs: what holds at every moment, whatever the threads do.
use yabiir.Base.{
  ℕ, ◌≤◌, ◌≡◌, refl, Bool, true, false, Bool-cases, inl, inr, Option, none, some, ◌==◌, ==_iff,
  arith,
}
use yabiir.Commit.Threads.{
  Phase, outside, checking, waiting, leading, flushed, returned, System, set_phase, woken,
}

-- What is known of a thread, with whether an fsync is in flight, how many writes are synced, and how
-- many there are.
abbrev pub PhaseFits : Bool → ℕ → ℕ → Phase → Type 0
PhaseFits b y n outside = Unit
PhaseFits b y n (checking t) = t ≤ n
PhaseFits b y n (waiting t) = (t ≤ n) × (b ≡ true)
PhaseFits b y n (leading t c) = (t ≤ n) × (c ≤ n)
PhaseFits b y n (flushed t c ok) = (t ≤ n) × (c ≤ n) × (ok ≡ true → c ≤ y)
PhaseFits b y n (returned t ok) = ok ≡ true → t ≤ y

abbrev pub is_leader : Phase → Bool
is_leader outside = false
is_leader (checking t) = false
is_leader (waiting t) = false
is_leader (leading t c) = true
is_leader (flushed t c ok) = true
is_leader (returned t ok) = false

abbrev pub leads_as : Option ℕ → ℕ → Bool
leads_as none i = false
leads_as (some l) i = l == i

abbrev pub is_some : {A : Type 0} → Option A → Bool
is_some none = false
is_some (some a) = true

-- The one thread that leads, if any does, and that it is the fsync in flight.
pub record Led (s : System) (leader : Option ℕ) : Type 0 where
  pub who : (i : ℕ) → is_leader (s.phase i) ≡ leads_as leader i
  pub in_flight : s.commit.is_syncing ≡ is_some leader

pub record IsSafe (s : System) : Type 0 where
  pub counted : s.commit.pending_writes ≡ s.appended
  pub durable_le : s.commit.max_durable_generation ≤ s.synced
  pub synced_le : s.synced ≤ s.appended
  pub fits : (i : ℕ) → PhaseFits s.commit.is_syncing s.synced s.appended (s.phase i)
  pub leader : Option ℕ
  pub led : Led s leader

-- What fits goes on fitting as writes are added and synced.
pub PhaseFits-mono :
    {b b' : Bool} {y n y' n' : ℕ} (p : Phase)
    → (b ≡ true → b' ≡ true)
    → y ≤ y'
    → n ≤ n'
    → PhaseFits b y n p
    → PhaseFits b' y' n' p
PhaseFits-mono outside e hy hn f = tt
PhaseFits-mono (checking t) e hy hn f = omega arith
PhaseFits-mono (waiting t) e hy hn f = (omega (arith, f.0), e f.1)
PhaseFits-mono (leading t c) e hy hn f = (omega (arith, f.0), omega (arith, f.1))
PhaseFits-mono (flushed t c ok) e hy hn f =
    (omega (arith, f.0), omega (arith, f.1), λ h. let covered = f.2 h in omega arith)
PhaseFits-mono (returned t ok) e hy hn f = λ h. let covered = f h in omega arith

-- The same across a notification, which leaves nobody waiting, so an fsync may be over then.
pub PhaseFits-woken :
    (b b' : Bool) {y n y' n' : ℕ} (p : Phase)
    → y ≤ y'
    → n ≤ n'
    → PhaseFits b y n p
    → PhaseFits b' y' n' (woken p)
PhaseFits-woken b b' outside hy hn f = tt
PhaseFits-woken b b' (checking t) hy hn f = omega arith
PhaseFits-woken b b' (waiting t) hy hn f = omega (arith, f.0)
PhaseFits-woken b b' (leading t c) hy hn f = (omega (arith, f.0), omega (arith, f.1))
PhaseFits-woken b b' (flushed t c ok) hy hn f =
    (omega (arith, f.0), omega (arith, f.1), λ h. let covered = f.2 h in omega arith)
PhaseFits-woken b b' (returned t ok) hy hn f = λ h. let covered = f h in omega arith

pub is_leader-woken : (p : Phase) → is_leader (woken p) ≡ is_leader p
is_leader-woken outside = refl
is_leader-woken (checking t) = refl
is_leader-woken (waiting t) = refl
is_leader-woken (leading t c) = refl
is_leader-woken (flushed t c ok) = refl
is_leader-woken (returned t ok) = refl

-- What holds of a thread that moves, and of all others.
pub set_phase_all :
    (P : ℕ → Phase → Type 0) (i : ℕ) (p : Phase) (phase : ℕ → Phase)
    → P i p
    → ((j : ℕ) → (i == j) ≡ false → P j (phase j))
    → (j : ℕ) → P j (set_phase i p phase j)
set_phase_all P i p phase h others j = elim (Bool-cases (i == j)) [
  | inl same ↦ rw (same, ← (==_iff i j).0 same) h
  | inr other ↦ rw other (others j other)
]
