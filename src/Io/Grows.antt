-- ===== src/Io/Grows.antt =====
-- Writing to a data file: whatever fails, the bytes that are there stay where they are.
use yabiir.Base.{
  ℕ, ◌≡◌, refl, ap, ◌∙◌, Option, none, some, List, [], ◌∷◌, ◌++◌, Bytes, append-nil, append_assoc,
  ◌==◌, Bool-cases, inl, inr, ==_iff,
}
use yabiir.Base.Map
use yabiir.Base.Map.{nat_eq, lookup-insert, lookup-cons}
use yabiir.Error.{Result, ok, err, blocked}
use yabiir.Io.{Exec, Outcome, full, part, fail, continue, ◌>>=◌}
use yabiir.Io.After.{After, After-always}
use yabiir.Io.Disk.{
  World, next_outcome, settle, append_to, create_missing, syscall, write_data, create_data,
  data_len,
}

-- Every data file is still there, with what it had at its front.
pub record Extends (w w' : World) : Type 0 where
  pub grown :
      (id : ℕ) (bytes : Bytes)
      → Map.lookup id w.data_files ≡ some bytes
      → (more : Bytes) × (Map.lookup id w'.data_files ≡ some (bytes ++ more))

pub Extends-refl : (w : World) → Extends w w
Extends-refl w = record { grown = λ id bytes h. ([], rw append-nil h) }

pub Extends-trans : {u v w : World} → Extends u v → Extends v w → Extends u w
Extends-trans p q = record {
  grown = λ id bytes h.
      let (more, h') = p.grown id bytes h in
      let (more', h'') = q.grown id (bytes ++ more) h' in
      (more ++ more', rw (← append_assoc bytes more more') h'');
}

-- A world with the same files.
pub Extends-same : {w w' : World} → w'.data_files ≡ w.data_files → Extends w w'
Extends-same d = record { grown = λ id bytes e. ([], rw append-nil (ap (Map.lookup id) d ∙ e)) }

-- No data file is another one.
abbrev pub SameData : World → World → Type 0
SameData w t = t.data_files ≡ w.data_files

pub syscall-SameData : (w : World) → SameData w (syscall w).1
unfolding syscall
syscall-SameData w = go (next_outcome w.plan).0
  where
    go : (o : Outcome) → SameData w (settle o (record w { plan = (next_outcome w.plan).1 })).1
    go full = refl
    go (part k) = refl
    go (fail k) = refl

pub syscall-After : (w : World) → After (syscall w) (λ _ t. SameData w t) (SameData w)
syscall-After w = After-always (syscall w) (syscall-SameData w)

pub syscall-Extends : (w : World) → Extends w (syscall w).1
syscall-Extends w = Extends-same (syscall-SameData w)

-- Bytes put behind those of one file.
insert-Extends :
    (w : World) (id : ℕ) (old more : Bytes) (plan : List Outcome)
    → Map.lookup id w.data_files ≡ some old
    → Extends w (record w { data_files = Map.insert id (old ++ more) w.data_files; plan = plan })
insert-Extends w id old more plan h = record {
  grown = λ j bytes e. elim (Bool-cases (id == j)) [
    | inl same ↦ (more, rw (lookup-insert, same) (cc ((==_iff id j).0 same, h, e)))
    | inr other ↦ ([], rw (lookup-insert, other, append-nil) e)
  ];
}

write-Extends :
    (w : World) (id : ℕ) (bytes : Bytes) (plan : List Outcome) (old : Option Bytes)
    → Map.lookup id w.data_files ≡ old
    → Extends w (record (append_to id bytes old w) { plan = plan })
write-Extends w id bytes plan none h = Extends-same refl
write-Extends w id bytes plan (some old) h = insert-Extends w id old bytes plan h

settle-world : (o : Outcome) (w : World) → (settle o w).1 ≡ w
settle-world full w = refl
settle-world (part k) w = refl
settle-world (fail k) w = refl

pub write_data-Extends : (id : ℕ) (bytes : Bytes) (w : World) → Extends w (write_data id bytes w).1
unfolding write_data
write_data-Extends id bytes w =
    rw settle-world (write-Extends w id _ (next_outcome w.plan).1 (Map.lookup id w.data_files) refl)

create-Extends :
    (w : World) (id : ℕ) (old : Option Bytes)
    → Map.lookup id w.data_files ≡ old
    → Extends w (create_missing id old w)
create-Extends w id (some old) h = Extends-refl w
create-Extends w id none h = record {
  grown = λ j bytes e. ([], rw append-nil (new_file w.data_files id j h e));
}
  where
    new_file :
        (files : List (ℕ × Bytes)) (id j : ℕ) {bytes : Bytes}
        → Map.lookup id files ≡ none
        → Map.lookup j files ≡ some bytes
        → Map.lookup j ((id, []) ∷ files) ≡ some bytes
    new_file files id j h e = elim (Bool-cases (id == j)) [
      | inl same ↦ cc ((==_iff id j).0 same, h, e)
      | inr other ↦ rw (lookup-cons, other) e
    ]

-- Actions on a state that has a world in it.
pub record Grows {S A : Type 0} (world : S → World) (m : Exec S A) : Type 0 where
  pub at : (s : S) → Extends (world s) (world (m s).1)

module _ {S A B : Type 0} (world : S → World) where
  continue-Extends :
      (r : Result A) (s : S) (f : A → Exec S B)
      → ((a : A) → Grows world (f a))
      → Extends (world s) (world (continue r s f).1)
  continue-Extends (ok a) s f h = (h a).at s
  continue-Extends (err e) s f h = Extends-refl (world s)
  continue-Extends blocked s f h = Extends-refl (world s)

  pub Grows-bind :
      (m : Exec S A) (f : A → Exec S B)
      → Grows world m
      → ((a : A) → Grows world (f a))
      → Grows world (m >>= f)
  Grows-bind m f g h = record {
    at = λ s. Extends-trans (g.at s) (continue-Extends (m s).0 (m s).1 f h);
  }

pub create_data-Extends : (id : ℕ) (w : World) → Extends w (create_data id w).1
unfolding create_data
create_data-Extends id w =
    (Grows-bind (λ w. w) syscall _ (record { at = syscall-Extends })
        (λ _. record { at = λ w. create-Extends w id (Map.lookup id w.data_files) refl })).at
      w

pub data_len-Extends : (id : ℕ) (w : World) → Extends w (data_len id w).1
unfolding data_len
data_len-Extends id w =
    (Grows-bind (λ w. w) syscall _ (record { at = syscall-Extends })
        (λ _. record { at = λ w. Extends-refl w })).at
      w
