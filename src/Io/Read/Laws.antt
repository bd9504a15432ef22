-- ===== src/Io/Read/Laws.antt =====
-- What `read_up_to` returns, however the reads are cut up.
use yabiir.Base.{
  ℕ, zero, suc, ◌-◌, ◌≤◌, ◌<◌, min, ◌≡◌, refl, sym, ap, ◌∙◌, List, [], ◌∷◌, ◌++◌, Bytes, length,
  take, drop, ◌==◌, if◌then◌else◌, Bool, true, false, arith, All, append-nil, append_assoc,
  length-take, eq-nil_of_length, Bool-cases, ==_iff, ◌≢◌, inl, inr,
}
use mathlib.Core.Path.{subst}
use yabiir.Error.{ok}
use yabiir.Io.{Exec, Outcome, full, part, fail, pure, ◌>>=◌}
use yabiir.Io.Read.{Reader, read, read_loop, read_up_to}

abbrev pub Succeeds : Outcome → Type 0
Succeeds full = Unit
Succeeds (part k) = Unit
Succeeds (fail k) = ⊥

-- No call to come fails; it may still be done in part.
abbrev pub NoFault : List Outcome → Type 0
NoFault = All Succeeds

-- The action returns `a` and leaves `rest` to read, and no call to come fails.
pub record Reads {A : Type 0} (m : Exec Reader A) (r : Reader) (a : A) (rest : Bytes) : Type 0 where
  pub result : (m r).0 ≡ ok a
  pub left : (m r).1.rest ≡ rest
  pub calm : NoFault (m r).1.plan

module _ {A B : Type 0} where
  pub Reads-bind :
      (m : Exec Reader A) (f : A → Exec Reader B) {r : Reader} {a : A} {b : B} {rest rest' : Bytes}
      → Reads m r a rest
      → Reads (f a) (m r).1 b rest'
      → Reads (m >>= f) r b rest'
  Reads-bind m f p q = record {
    result = rw (p.result) q.result;
    left = rw (p.result) q.left;
    calm = rw (p.result) q.calm;
  }

-- A read takes some bytes off the front: at least one where there is one to take.
pub record Took (n : ℕ) (r : Reader) (k : ℕ) : Type 0 where
  pub reads : Reads (read n) r (take k r.rest) (drop k r.rest)
  pub most : k ≤ n
  pub some_bytes : 0 < k

read-Took :
    (n : ℕ) (rest : Bytes) (plan : List Outcome)
    → 0 < n
    → NoFault plan
    → (k : ℕ) × Took n (record { rest = rest; plan = plan }) k
unfolding read
read-Took n rest [] h ok_plan = (
  n,
  record {
    reads = record { result = refl; left = refl; calm = tt };
    most = omega arith;
    some_bytes = h;
  },
)
read-Took n rest (full ∷ plan) h ok_plan = (
  n,
  record {
    reads = record { result = refl; left = refl; calm = ok_plan.1 };
    most = omega arith;
    some_bytes = h;
  },
)
read-Took n rest (part k ∷ plan) h ok_plan = (
  min n (suc k),
  record {
    reads = record { result = refl; left = refl; calm = ok_plan.1 };
    most = omega arith;
    some_bytes = omega arith;
  },
)
read-Took n rest (fail k ∷ plan) h ok_plan = absurd ok_plan.0

take-nil : (n : ℕ) → ◌≡◌ {A = Bytes} (take n []) []
take-nil zero = refl
take-nil (suc n) = refl

drop-nil : (n : ℕ) → ◌≡◌ {A = Bytes} (drop n []) []
drop-nil zero = refl
drop-nil (suc n) = refl

take-Took :
    (n k : ℕ) (xs : Bytes)
    → k ≤ n
    → take k xs ++ take (n - length (take k xs)) (drop k xs) ≡ take n xs
take-Took n zero xs h = ap (λ i. take i xs) (omega arith)
take-Took n (suc k) [] h = take-nil (n - 0) ∙ sym (take-nil n)
take-Took zero (suc k) (x ∷ xs) h = absurd (omega arith)
take-Took (suc n) (suc k) (x ∷ xs) h =
    let e : suc n - suc (length (take k xs)) ≡ n - length (take k xs) = omega arith in
    rw e (ap (λ l. x ∷ l) (take-Took n k xs (omega arith)))

drop-Took : (n k : ℕ) (xs : Bytes) → k ≤ n → drop (n - length (take k xs)) (drop k xs) ≡ drop n xs
drop-Took n zero xs h = ap (λ i. drop i xs) (omega arith)
drop-Took n (suc k) [] h = drop-nil (n - 0) ∙ sym (drop-nil n)
drop-Took zero (suc k) (x ∷ xs) h = absurd (omega arith)
drop-Took (suc n) (suc k) (x ∷ xs) h =
    let e : suc n - suc (length (take k xs)) ≡ n - length (take k xs) = omega arith in
    rw e (drop-Took n k xs (omega arith))

-- At the end of the input a read brings nothing.
read_nothing : (k : ℕ) (xs : Bytes) → 0 < k → length (take k xs) ≡ 0 → xs ≡ []
read_nothing k xs h e = eq-nil_of_length xs (omega (arith, length-take k xs))

-- The round after a read: the loop stops at the end of the input, and goes on otherwise.
module _ (fuel n k : ℕ) (got : Bytes) (r : Reader) (took : Took n r k)
    (again : n - length (take k r.rest) < fuel
      → Reads
          (read_loop fuel (n - length (take k r.rest)) (got ++ take k r.rest))
          (read n r).1
          ((got ++ take k r.rest) ++ take (n - length (take k r.rest)) (read n r).1.rest)
          (drop (n - length (take k r.rest)) (read n r).1.rest)) where
  stop-Reads :
      length (take k r.rest) ≡ 0
      → Reads (pure got) (read n r).1 (got ++ take n r.rest) (drop n r.rest)
  stop-Reads e =
      let over = read_nothing k r.rest took.some_bytes e in
      record {
        result =
            ap (λ l. ok l)
              (sym (append-nil got) ∙ ap (λ l. got ++ l) (sym (ap (take n) over ∙ take-nil n)));
        left =
            took.reads.left ∙ ap (drop k) over ∙ drop-nil k ∙ sym (ap (drop n) over ∙ drop-nil n);
        calm = took.reads.calm;
      }

  go_on-Reads :
      n < suc fuel
      → length (take k r.rest) ≢ 0
      → Reads
          (read_loop fuel (n - length (take k r.rest)) (got ++ take k r.rest))
          (read n r).1
          (got ++ take n r.rest)
          (drop n r.rest)
  go_on-Reads h e =
      let rest = again (omega (arith, length-take k r.rest, took.most)) in
      record {
        result =
            rest.result
            ∙ ap (λ l. ok ((got ++ take k r.rest) ++ take (n - length (take k r.rest)) l))
                took.reads.left
            ∙ ap (λ l. ok l) (append_assoc got (take k r.rest) _)
            ∙ ap (λ l. ok (got ++ l)) (take-Took n k r.rest took.most);
        left =
            rest.left
            ∙ ap (drop (n - length (take k r.rest))) took.reads.left
            ∙ drop-Took n k r.rest took.most;
        calm = rest.calm;
      }

pub read_loop-Reads :
    (fuel n : ℕ) (got : Bytes) (r : Reader)
    → n < fuel
    → NoFault r.plan
    → Reads (read_loop fuel n got) r (got ++ take n r.rest) (drop n r.rest)
unfolding read_loop
read_loop-Reads zero n got r h calm = absurd (omega arith)
read_loop-Reads (suc fuel) n got r h calm = elim (Bool-cases (n == 0)) [
  | inl done ↦
      rw (done, (==_iff n 0).0 done, append-nil)
        (record { result = refl; left = refl; calm = calm })
  | inr wanted ↦
      let (k, took) = read-Took n r.rest r.plan (ground arith) calm in
      let len = length (take k r.rest) in
      let again = λ (lt : n - len < fuel).
        read_loop-Reads fuel (n - len) (got ++ take k r.rest) (read n r).1 lt took.reads.calm in
      rw wanted (
        Reads-bind (read n) _ took.reads (elim (Bool-cases (len == 0)) [
          | inl empty ↦ rw empty (stop-Reads fuel n k got r took again ((==_iff len 0).0 empty))
          | inr some ↦ rw some (go_on-Reads fuel n k got r took again h (ground arith))
        ]))
]

-- `read_up_to n` returns the first `n` bytes, or what there is of them, into however many reads
-- the operating system cuts the request, as long as no read fails.
pub read_up_to-Reads :
    (n : ℕ) (r : Reader) → NoFault r.plan → Reads (read_up_to n) r (take n r.rest) (drop n r.rest)
unfolding read_up_to
read_up_to-Reads n r calm = read_loop-Reads (suc n) n [] r (omega arith) calm

-- The same where what is left of the input is known by an equation.
pub read_up_to-Reads_of :
    (n : ℕ) (r : Reader) (rest : Bytes)
    → r.rest ≡ rest
    → NoFault r.plan
    → Reads (read_up_to n) r (take n rest) (drop n rest)
read_up_to-Reads_of n r rest e calm =
    let plain = read_up_to-Reads n r calm in
    record {
      result = plain.result ∙ ap (λ l. ok (take n l)) e;
      left = plain.left ∙ ap (drop n) e;
      calm = plain.calm;
    }

pub Reads-pure :
    {A : Type 0} (a : A) (r : Reader) (rest : Bytes)
    → r.rest ≡ rest
    → NoFault r.plan
    → Reads (pure a) r a rest
Reads-pure a r rest e calm = record { result = refl; left = e; calm = calm }

pub Reads-if :
    {A : Type 0} (b : Bool) (m n : Exec Reader A) (r : Reader) (p q : A × Bytes)
    → (b ≡ true → Reads m r p.0 p.1)
    → (b ≡ false → Reads n r q.0 q.1)
    → Reads (if b then m else n) r (if b then p else q).0 (if b then p else q).1
Reads-if true m n r p q yes_case no_case = yes_case refl
Reads-if false m n r p q yes_case no_case = no_case refl

pub Reads-eq :
    {A : Type 0} {m : Exec Reader A} {r : Reader} {p q : A × Bytes}
    → Reads m r p.0 p.1
    → p ≡ q
    → Reads m r q.0 q.1
Reads-eq {A} {m} {r} h e = subst (λ (x : A × Bytes). Reads m r x.0 x.1) e h
