-- ===== src/Io/Read.antt =====
-- `std::io::Read` on a file or a cursor, and src/format/mod.rs `read_up_to`, which loops over it.
pub mod Laws
pub mod Calmed
use yabiir.Base.{
  ℕ, zero, suc, ◌-◌, ◌+◌, min, List, [], ◌∷◌, ◌++◌, Bytes, length, take, drop, ◌==◌, if◌then◌else◌,
}
use yabiir.Error.{Result, ok, err, blocked, io}
use yabiir.Io.{Exec, Outcome, full, part, fail, pure, ◌>>=◌}

-- What is left of the input, and the outcomes of the calls to come.
pub record Reader : Type 0 where
  pub rest : Bytes
  pub plan : List Outcome

abbrev serve : ℕ → Bytes → List Outcome → Result Bytes × Reader
serve n rest [] = (ok (take n rest), record { rest = drop n rest; plan = [] })
serve n rest (full ∷ plan) = (ok (take n rest), record { rest = drop n rest; plan = plan })
serve n rest (part k ∷ plan) =
    (ok (take (min n (suc k)) rest), record { rest = drop (min n (suc k)) rest; plan = plan })
serve n rest (fail k ∷ plan) = (err io, record { rest = rest; plan = plan })

-- One call of `read` on a buffer of `n` bytes.
pub read : ℕ → Exec Reader Bytes
read n r = serve n r.rest r.plan

-- The `while` of `read_up_to`: `n` bytes are still wanted, and `got` are in the buffer.
pub read_loop : ℕ → ℕ → Bytes → Exec Reader Bytes
read_loop zero n got = λ r. (blocked, r)
read_loop (suc fuel) n got =
    if n == 0
    then pure got
    else read n >>= λ bytes.
        let more = read_loop fuel (n - length bytes) (got ++ bytes) in
        if length bytes == 0 then pure got else more

-- Every round but the last reads a byte, so `n` rounds and one are enough.
pub read_up_to : ℕ → Exec Reader Bytes
read_up_to n = read_loop (suc n) n []
