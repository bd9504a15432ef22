-- ===== src/Datafile/Held.antt =====
-- src/datafile.rs: what the active file holds, on disk and in its buffer, after calls that may fail.
use mathlib.Core.Path.{subst}
use yabiir.Base.{
  ℕ, ◌-◌, ◌≡◌, refl, sym, ap, ◌∙◌, Bool, true, false, Bool-cases, inl, inr, some, List, [], ◌++◌,
  Bytes, length, drop, drop-eq_of_le, append-nil, append_assoc, eq-nil_of_length, ltb, leb, ◌==◌,
  ==-refl, arith,
}
use yabiir.Base.Map
use yabiir.Base.Map.{nat_eq, lookup-insert, lookup-cons}
use yabiir.Error.{ok}
use yabiir.Io.{Outcome, full, part, fail}
use yabiir.Io.After.{After, After-bind, After-mono, After-lift}
use yabiir.Io.Disk.{World, next_outcome, settle, written, append_to, write_data}
use yabiir.Io.Grows.{SameData}
use yabiir.Datafile.{
  Writing, push, flush, flush_buffer, flush_if, write_or_push, write_cold, write_all,
  buffer_capacity,
}

-- No data file but the one is another.
pub record Only (id : ℕ) (w t : World) : Type 0 where
  pub at : (j : ℕ) → (id == j) ≡ false → Map.lookup j t.data_files ≡ Map.lookup j w.data_files

-- The file holds the bytes, what is in the buffer included, and the next entry is to start at
-- `start`; since `w` no other file changed.
pub record Held (w : World) (id start : ℕ) (bytes : Bytes) (s : Writing) : Type 0 where
  pub on_disk : Bytes
  pub there : Map.lookup id s.world.data_files ≡ some on_disk
  pub whole : on_disk ++ s.file.buffer ≡ bytes
  pub same_id : s.file.file_id ≡ id
  pub starts : s.file.offset ≡ start
  pub only : Only id w s.world

-- The same, with nothing in the buffer.
pub record Flushed (w : World) (id start : ℕ) (bytes : Bytes) (s : Writing) : Type 0 where
  pub held : Held w id start bytes s
  pub empty : s.file.buffer ≡ []

abbrev pub OnlyIn : World → ℕ → Writing → Type 0
OnlyIn w id s = Only id w s.world

pub Only-same : {id : ℕ} {w t u : World} → SameData t u → Only id w t → Only id w u
Only-same same only = record { at = λ j other. ap (Map.lookup j) same ∙ only.at j other }

insert-Only :
    {w : World} (id : ℕ) (bytes : Bytes) (t : World) (plan : List Outcome)
    → Only id w t
    → Only id w (record t { data_files = Map.insert id bytes t.data_files; plan = plan })
insert-Only id bytes t plan only = record {
  at = λ j other. rw (lookup-insert, other) (only.at j other);
}

-- What a write that succeeds leaves of the buffer.
rest_of_buffer :
    (o : Outcome) (bytes : Bytes) (t : World)
    → (settle o t).0 ≡ ok tt
    → drop (length (written bytes o)) bytes ≡ []
rest_of_buffer full bytes t h = drop-eq_of_le (length bytes) bytes (omega arith)
rest_of_buffer (part k) bytes t h = drop-eq_of_le (length bytes) bytes (omega arith)
rest_of_buffer (fail k) bytes t h = cc

rest-write_data :
    (id : ℕ) (bytes : Bytes) (w : World)
    → (write_data id bytes w).0 ≡ ok tt
    → drop (length (written bytes (next_outcome w.plan).0)) bytes ≡ []
unfolding write_data
rest-write_data id bytes w h = rest_of_buffer (next_outcome w.plan).0 bytes _ h

-- The bytes are behind those that were there.
abbrev Wrote : World → ℕ → Bytes → Unit {0} → World → Type 0
Wrote w id bytes _ t = (Map.lookup id t.data_files ≡ some bytes) × Only id w t

-- One write call, with its outcome.
settle-Wrote :
    {w : World} {id : ℕ} (o : Outcome) (plan : List Outcome) (bytes : Bytes) (t : World)
    (old : Bytes)
    → Only id w t
    → After
        (settle o (record (append_to id (written bytes o) (some old) t) { plan = plan }))
        (Wrote w id (old ++ bytes))
        (Only id w)
settle-Wrote {w} {id} full plan bytes t old only = record {
  holds = (rw (lookup-insert, ==-refl id) refl, insert-Only id (old ++ bytes) t plan only);
}
settle-Wrote {w} {id} (part k) plan bytes t old only = record {
  holds = (rw (lookup-insert, ==-refl id) refl, insert-Only id (old ++ bytes) t plan only);
}
settle-Wrote {w} {id} (fail k) plan bytes t old only = record {
  holds = insert-Only id (old ++ written bytes (fail k)) t plan only;
}

write_data-After :
    {w : World} (id : ℕ) (bytes : Bytes) (t : World) {old : Bytes}
    → Map.lookup id t.data_files ≡ some old
    → Only id w t
    → After (write_data id bytes t) (Wrote w id (old ++ bytes)) (Only id w)
unfolding write_data
write_data-After id bytes t {old} there only =
    rw there (settle-Wrote (next_outcome t.plan).0 (next_outcome t.plan).1 bytes t old only)

-- Bytes that fill the buffer and fit behind what is in it.
nothing_held :
    (held new : ℕ)
    → leb buffer_capacity new ≡ true
    → ltb (buffer_capacity - held) new ≡ false
    → held ≡ 0
nothing_held held new fills room = ground arith

module _ {w : World} {id start : ℕ} where
  -- The call that writes to the file of a state.
  write-Held :
      {held_bytes : Bytes} (bytes : Bytes) (s : Writing) (held : Held w id start held_bytes s)
      → After
          (write_data s.file.file_id bytes s.world)
          (Wrote w id (held.on_disk ++ bytes))
          (Only id w)
  write-Held bytes s held =
      subst
        (λ i. After (write_data i bytes s.world) (Wrote w id (held.on_disk ++ bytes)) (Only id w))
        (sym held.same_id) (write_data-After id bytes s.world held.there held.only)

  flush_buffer-After :
      (s : Writing) {bytes : Bytes}
      → Held w id start bytes s
      → After (flush_buffer s) (λ _. Flushed w id start bytes) (OnlyIn w id)
  unfolding flush_buffer
  flush_buffer-After s {bytes} held =
      After-lift (write_data s.file.file_id s.file.buffer s.world)
        (λ t. record {
          world = t;
          file = record s.file {
            buffer =
                drop (length (written s.file.buffer (next_outcome s.world.plan).0)) s.file.buffer;
          };
        })
        (write-Held s.file.buffer s held)
        (λ _ t result (there, only).
          let empty = rest-write_data s.file.file_id s.file.buffer s.world result in
          record {
            held = record {
              on_disk = held.on_disk ++ s.file.buffer;
              there = there;
              whole = rw (empty, append-nil) held.whole;
              same_id = held.same_id;
              starts = held.starts;
              only = only;
            };
            empty = empty;
          })
        (λ t only. only)

  pub flush-After :
      (s : Writing) {bytes : Bytes}
      → Held w id start bytes s
      → After (flush s) (λ _. Flushed w id start bytes) (OnlyIn w id)
  unfolding flush
  flush-After s {bytes} held = elim (Bool-cases (length s.file.buffer == 0)) [
    | inl empty ↦ rw empty (record {
      holds = record { held = held; empty = eq-nil_of_length s.file.buffer (ground arith) };
    })
    | inr full_buffer ↦ rw full_buffer (flush_buffer-After s held)
  ]

  flush_if-After :
      (b : Bool) (s : Writing) {bytes : Bytes}
      → Held w id start bytes s
      → After
          (flush_if b s)
          (λ _ t.
            Held w id start bytes t
            × (b ≡ true → t.file.buffer ≡ [])
            × (s.file.buffer ≡ [] → t.file.buffer ≡ []))
          (OnlyIn w id)
  unfolding flush_if
  flush_if-After true s held =
      After-mono (flush s) (flush-After s held) (λ _ t f. (f.held, (λ _. f.empty), λ _. f.empty))
        (λ t only. only)
  flush_if-After false s held = record { holds = (held, (λ h. cc), λ h. h) }

  push-Held :
      (new_bytes : Bytes) (s : Writing) {bytes : Bytes}
      → Held w id start bytes s
      → After (push new_bytes s) (λ _. Held w id start (bytes ++ new_bytes)) (OnlyIn w id)
  push-Held new_bytes s {bytes} held = record {
    holds = record {
      on_disk = held.on_disk;
      there = held.there;
      whole =
          sym (append_assoc held.on_disk s.file.buffer new_bytes)
          ∙ ap (λ l. l ++ new_bytes) held.whole;
      same_id = held.same_id;
      starts = held.starts;
      only = held.only;
    };
  }

  -- Bytes may go past the buffer only when it is empty.
  write_or_push-After :
      (b : Bool) (new_bytes : Bytes) (s : Writing) {bytes : Bytes}
      → Held w id start bytes s
      → (b ≡ true → s.file.buffer ≡ [])
      → After
          (write_or_push b new_bytes s)
          (λ _. Held w id start (bytes ++ new_bytes))
          (OnlyIn w id)
  unfolding write_or_push
  write_or_push-After false new_bytes s held empty = push-Held new_bytes s held
  write_or_push-After true new_bytes s {bytes} held empty =
      let nothing = empty refl in
      After-lift (write_data s.file.file_id new_bytes s.world) (λ t. record s { world = t })
        (write-Held new_bytes s held)
        (λ _ t _ (there, only). record {
          on_disk = held.on_disk ++ new_bytes;
          there = there;
          whole =
              ap (λ l. (held.on_disk ++ new_bytes) ++ l) nothing
              ∙ append-nil (held.on_disk ++ new_bytes)
              ∙ ap (λ l. l ++ new_bytes)
                  (sym (append-nil held.on_disk)
                    ∙ ap (λ l. held.on_disk ++ l) (sym nothing)
                    ∙ held.whole);
          same_id = held.same_id;
          starts = held.starts;
          only = only;
        })
        (λ t only. only)

  pub write_all-After :
      (new_bytes : Bytes) (s : Writing) {bytes : Bytes}
      → Held w id start bytes s
      → After (write_all new_bytes s) (λ _. Held w id start (bytes ++ new_bytes)) (OnlyIn w id)
  unfolding write_all write_cold
  write_all-After new_bytes s {bytes} held =
      let spare = buffer_capacity - length s.file.buffer in
      elim (Bool-cases (ltb (length new_bytes) spare)) [
        | inl small ↦ rw small (push-Held new_bytes s held)
        | inr large ↦ rw large (
            After-bind (flush_if (ltb spare (length new_bytes))) _
              (flush_if-After (ltb spare (length new_bytes)) s held)
              (λ _ t (held', emptied, still).
                write_or_push-After (leb buffer_capacity (length new_bytes)) new_bytes t held'
                  (λ fills. elim (Bool-cases (ltb spare (length new_bytes))) [
                    | inl no_room ↦ emptied no_room
                    | inr room ↦ still (
                        eq-nil_of_length s.file.buffer
                          (nothing_held (length s.file.buffer) (length new_bytes) fills room))
                  ])))
      ]
