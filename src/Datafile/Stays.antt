-- ===== src/Datafile/Stays.antt =====
-- src/datafile.rs: the calls on an active file, failing or not, change no other data file.
use mathlib.Core.Path.{subst}
use yabiir.Base.{
  ℕ, ◌-◌, ◌≡◌, refl, ap, ◌∙◌, Bool, true, false, Option, none, some, List, Bytes, length, ltb, leb,
  ◌==◌, if◌then◌else◌,
}
use yabiir.Base.Map
use yabiir.Base.Map.{nat_eq, lookup-insert, lookup-cons}
use yabiir.Error.{Result, ok, err, blocked}
use yabiir.Io.{Exec, Outcome, full, part, fail, pure, continue, ◌>>=◌, ◌>>◌}
use yabiir.Io.After.{After, After-bind, After-any}
use yabiir.Io.Disk.{
  World, next_outcome, settle, written, append_to, create_missing, syscall, write_data, create_data,
  data_len,
}
use yabiir.Io.Grows.{SameData, syscall-SameData}
use yabiir.Format.Entry.{EncodedEntry}
use yabiir.Datafile.{
  Writing, push, flush, flush_buffer, flush_if, write_or_push, write_cold, write_all, advance,
  write_unflushed, append_buffered, sync, create, buffer_capacity,
}
use yabiir.Datafile.Held.{Only, Only-same}

pub Only-refl : (id : ℕ) (w : World) → Only id w w
Only-refl id w = record { at = λ j other. refl }

pub Only-trans : {id : ℕ} {u v w : World} → Only id u v → Only id v w → Only id u w
Only-trans p q = record { at = λ j other. q.at j other ∙ p.at j other }

append_to-Only :
    (id : ℕ) (bytes : Bytes) (old : Option Bytes) (w : World) (plan : List Outcome)
    → Only id w (record (append_to id bytes old w) { plan = plan })
append_to-Only id bytes none w plan = record { at = λ j other. refl }
append_to-Only id bytes (some old) w plan = record {
  at = λ j other. rw (lookup-insert, other) refl;
}

settle-Only :
    {id : ℕ} {w : World} (o : Outcome) (t : World) → Only id w t → Only id w (settle o t).1
settle-Only full t only = only
settle-Only (part k) t only = only
settle-Only (fail k) t only = only

write_data-Only : (id : ℕ) (bytes : Bytes) (w : World) → Only id w (write_data id bytes w).1
unfolding write_data
write_data-Only id bytes w = settle-Only (next_outcome w.plan).0 _ (
    append_to-Only id (written bytes (next_outcome w.plan).0) (Map.lookup id w.data_files) w
      (next_outcome w.plan).1)

-- The file is still the one, and no other changed.
pub record Same (s t : Writing) : Type 0 where
  pub file_lem : t.file.file_id ≡ s.file.file_id
  pub only : Only s.file.file_id s.world t.world

Same-trans : {s t u : Writing} → Same s t → Same t u → Same s u
Same-trans {s} {t} {u} p q = record {
  file_lem = q.file_lem ∙ p.file_lem;
  only = Only-trans p.only (subst (λ i. Only i t.world u.world) p.file_lem q.only);
}

pub record Stays {A : Type 0} (m : Exec Writing A) : Type 0 where
  pub at : (s : Writing) → Same s (m s).1

module _ {A B : Type 0} where
  continue-Same :
      (r : Result A) (s : Writing) (f : A → Exec Writing B)
      → ((a : A) → Stays (f a))
      → Same s (continue r s f).1
  continue-Same (ok a) s f h = (h a).at s
  continue-Same (err e) s f h = record { file_lem = refl; only = Only-refl s.file.file_id s.world }
  continue-Same blocked s f h = record { file_lem = refl; only = Only-refl s.file.file_id s.world }

  Stays-bind :
      (m : Exec Writing A) (f : A → Exec Writing B)
      → Stays m
      → ((a : A) → Stays (f a))
      → Stays (m >>= f)
  Stays-bind m f g h = record { at = λ s. Same-trans (g.at s) (continue-Same (m s).0 (m s).1 f h) }

Stays-still :
    {A : Type 0} (a : A) (f : Writing → Writing)
    → ((s : Writing) → (f s).file.file_id ≡ s.file.file_id)
    → ((s : Writing) → (f s).world ≡ s.world)
    → Stays (λ s. (ok a, f s))
Stays-still a f id world = record {
  at = λ s. record {
    file_lem = id s;
    only = Only-same (ap (λ w. w.data_files) (world s)) (Only-refl s.file.file_id s.world);
  };
}

if-Same :
    {A : Type 0} (b : Bool) (s : Writing) (x y : Result A × Writing)
    → Same s x.1
    → Same s y.1
    → Same s (if b then x else y).1
if-Same true s x y p q = p
if-Same false s x y p q = q

pub Stays-flush : Stays flush
unfolding flush flush_buffer
Stays-flush = record {
  at = λ s.
      if-Same (length s.file.buffer == 0) s (pure tt s) (flush_buffer s)
        (record { file_lem = refl; only = Only-refl s.file.file_id s.world })
        (record { file_lem = refl; only = write_data-Only s.file.file_id s.file.buffer s.world });
}

Stays-flush_if : (b : Bool) → Stays (flush_if b)
unfolding flush_if
Stays-flush_if true = Stays-flush
Stays-flush_if false = Stays-still tt (λ s. s) (λ s. refl) (λ s. refl)

Stays-write_or_push : (b : Bool) (bytes : Bytes) → Stays (write_or_push b bytes)
unfolding write_or_push
Stays-write_or_push true bytes = record {
  at = λ s. record { file_lem = refl; only = write_data-Only s.file.file_id bytes s.world };
}
Stays-write_or_push false bytes = record {
  at = λ s. record { file_lem = refl; only = Only-refl s.file.file_id s.world };
}

Stays-write_all : (bytes : Bytes) → Stays (write_all bytes)
unfolding write_all write_cold
Stays-write_all bytes = record {
  at = λ s.
      let spare = buffer_capacity - length s.file.buffer in
      if-Same (ltb (length bytes) spare) s (push bytes s) _
        (record { file_lem = refl; only = Only-refl s.file.file_id s.world })
        ((Stays-bind (flush_if (ltb spare (length bytes)))
            (λ _. write_or_push (leb buffer_capacity (length bytes)) bytes) (Stays-flush_if _)
            (λ _. Stays-write_or_push (leb buffer_capacity (length bytes)) bytes)).at
          s);
}

pub Stays-append_buffered : (encoded : EncodedEntry) → Stays (append_buffered encoded)
unfolding append_buffered write_unflushed advance
Stays-append_buffered encoded =
    Stays-bind (write_all encoded.bytes) _ (Stays-write_all encoded.bytes) (λ _. record {
      at = λ s. record { file_lem = refl; only = Only-refl s.file.file_id s.world };
    })

pub Stays-sync : Stays sync
unfolding sync
Stays-sync = Stays-bind flush _ Stays-flush (λ _. record {
  at = λ s. record {
    file_lem = refl;
    only = Only-same (syscall-SameData s.world) (Only-refl s.file.file_id s.world);
  };
})

create_missing-Only :
    (id : ℕ) (old : Option Bytes) (w : World) → Only id w (create_missing id old w)
create_missing-Only id none w = record { at = λ j other. rw (lookup-cons, other) refl }
create_missing-Only id (some bytes) w = Only-refl id w

-- A new file has its id, and no other file changed.
pub create-Only :
    (id : ℕ) (w : World)
    → After (create id w) (λ file t. (file.file_id ≡ id) × Only id w t) (λ t. Unit {0})
unfolding create create_data data_len
create-Only id w =
    After-bind (create_data id >> data_len id) _ {Q = λ len t. Only id w t}
      (After-bind (create_data id) _ {Q = λ _ t. Only id w t}
        (After-bind syscall _ (After-any (syscall w) {P = SameData w} (syscall-SameData w))
          (λ _ t same. record {
            holds =
                Only-trans (Only-same same (Only-refl id w))
                  (create_missing-Only id (Map.lookup id t.data_files) t);
          }))
        (λ _ t only.
          After-bind syscall _ (After-any (syscall t) {P = SameData t} (syscall-SameData t))
            (λ _ u same. record { holds = Only-same same only })))
      (λ len t only.
        After-bind syscall _ (After-any (syscall t) {P = SameData t} (syscall-SameData t))
          (λ _ u same. record { holds = (refl, Only-same same only) }))
