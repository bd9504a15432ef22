-- ===== src/Engine/Session/Synced.antt =====
-- src/engine.rs `sync`: the buffered bytes are written and the file is synced, or an error is returned.

use yabiir.Base.{
  ℕ, ◌≡◌, refl, sym, ap, ◌∙◌, Bool-cases, inl, inr, some, List, [], ◌∷◌, ◌++◌, Bytes, length, ◌==◌,
  append-nil, if◌then◌else◌,
}
use yabiir.Base.Map
use yabiir.Base.Map.{nat_eq}
use yabiir.Io.{Outcome, full, part, fail, ◌>>◌}
use yabiir.Io.After.{After, After-bind, After-lift, After-always}
use yabiir.Io.Calls.{calls_succeed, result_of, syscall-result}
use yabiir.Io.Disk.{World, syscall, write_data}
use yabiir.Io.Grows.{syscall-SameData}
use yabiir.Datafile
use yabiir.Datafile.{ActiveFile, Writing, on_world, flush, flush_buffer}
use yabiir.Datafile.Held.{Only, OnlyIn, Only-same, Flushed, flush-After}
use yabiir.Engine.{Engine, on_file}
use yabiir.Engine.Session.{sync_active, sync}

-- The calls of a sync: the write of the buffer, where there is something in it, and `sync_data`.
abbrev pub sync_calls : ActiveFile → ℕ
sync_calls file = if length file.buffer == 0 then 1 else 2

abbrev writing : List (ℕ × Bytes) → List (ℕ × Bytes) → List Outcome → ActiveFile → Writing
writing d h plan file = record {
  world = record { data_files = d; hint_files = h; plan = plan };
  file = file;
}

flushed-result :
    (d h : List (ℕ × Bytes)) (file : ActiveFile) (plan : List Outcome)
    → ((flush_buffer >> on_world syscall) (writing d h plan file)).0
      ≡ result_of (calls_succeed 2 plan)
unfolding flush_buffer write_data
flushed-result d h file [] = syscall-result _
flushed-result d h file (full ∷ plan) = syscall-result _
flushed-result d h file (part k ∷ plan) = syscall-result _
flushed-result d h file (fail k ∷ plan) = refl

sync-result :
    (d h : List (ℕ × Bytes)) (file : ActiveFile) (plan : List Outcome)
    → (Datafile.sync (writing d h plan file)).0 ≡ result_of (calls_succeed (sync_calls file) plan)
unfolding Datafile.sync flush
sync-result d h file plan = elim (Bool-cases (length file.buffer == 0)) [
  | inl empty ↦ rw empty (syscall-result _)
  | inr bytes ↦ rw bytes (flushed-result d h file plan)
]

-- What is on disk and in the buffer after a sync.
pub record Synced (file : ActiveFile) (old : Bytes) (e e' : Engine) : Type 0 where
  pub on_disk : Map.lookup file.file_id e'.world.data_files ≡ some (old ++ file.buffer)
  pub emptied : e'.active ≡ some (record file { buffer = [] })
  pub others : Only file.file_id e.world e'.world
  pub keydir_kept : e'.keydir ≡ e.keydir

-- The state of the active file after a sync that returned.
sync-Flushed :
    (w : World) (file : ActiveFile) (old : Bytes)
    → Map.lookup file.file_id w.data_files ≡ some old
    → After
        (Datafile.sync (record { world = w; file = file }))
        (λ _. Flushed w file.file_id file.offset (old ++ file.buffer))
        (OnlyIn w file.file_id)
unfolding Datafile.sync
sync-Flushed w file old there =
    After-bind flush _
      (flush-After (record { world = w; file = file })
        (record {
          on_disk = old;
          there = there;
          whole = refl;
          same_id = refl;
          starts = refl;
          only = record { at = λ j other. refl };
        }))
      (λ _ s f.
        After-lift (syscall s.world) (λ t. record s { world = t })
          (After-always (syscall s.world) (syscall-SameData s.world))
          (λ _ t _ same. record {
            held = record {
              on_disk = f.held.on_disk;
              there = ap (Map.lookup file.file_id) same ∙ f.held.there;
              whole = f.held.whole;
              same_id = f.held.same_id;
              starts = f.held.starts;
              only = Only-same same f.held.only;
            };
            empty = f.empty;
          })
          (λ t same. Only-same same f.held.only))

-- A flushed file has all bytes on disk.
Flushed-disk :
    {w : World} {bytes : Bytes} (file : ActiveFile) (s : Writing)
    → Flushed w file.file_id file.offset bytes s
    → (Map.lookup file.file_id s.world.data_files ≡ some bytes)
      × (s.file ≡ record file { buffer = [] })
Flushed-disk file s f = (
  f.held.there
      ∙ ap (λ l. some l)
          (sym (append-nil f.held.on_disk)
            ∙ ap (λ l. f.held.on_disk ++ l) (sym f.empty)
            ∙ f.held.whole),
  cc (f.held.same_id, f.held.starts, f.empty),
)

-- Let a store have an active file, with bytes in its buffer or none, and let that file be there.
-- `sync` returns an error exactly if one of its calls fails: the write of the buffer, if there is
-- something in it, and `sync_data` always. If it returns without an error, the file on disk has what it
-- had and behind that the bytes of the buffer, the buffer is empty, and no other data file and nothing of
-- the keydir is changed.
pub sync_lem :
    (e : Engine) (file : ActiveFile) (old : Bytes)
    → e.active ≡ some file
    → Map.lookup file.file_id e.world.data_files ≡ some old
    → ((sync e).0 ≡ result_of (calls_succeed (sync_calls file) e.world.plan))
      × After (sync e) (λ _ e'. Synced file old e e') (λ e'. Unit {0})
unfolding sync sync_active on_file
sync_lem e file old active there = rw active (
  sync-result e.world.data_files e.world.hint_files file e.world.plan,
  After-lift (Datafile.sync (record { world = e.world; file = file }))
      (λ s. record e { world = s.world; active = some s.file })
      (sync-Flushed e.world file old there)
      (λ _ s _ f.
        let (disk, empty) = Flushed-disk file s f in
        record {
          on_disk = disk;
          emptied = ap (λ a. some a) empty;
          others = f.held.only;
          keydir_kept = refl;
        })
      (λ s h. tt),
)
