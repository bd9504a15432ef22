-- ===== src/Merge/OutputWriter/Writes/Contents.antt =====
-- src/merge/output_writer.rs: what an output file holds, on disk and in its buffer.
use yabiir.Base.{
  ℕ, ◌≡◌, refl, sym, ap, ◌∙◌, Bool, true, false, some, [], ◌++◌, Bytes, length, append-nil,
  append_assoc,
}
use yabiir.Base.Map
use yabiir.Base.Map.{nat_eq}
use yabiir.Io.Disk.{World}
use yabiir.Io.Grows.{Extends, SameData}
use yabiir.Datafile.{Writing}
use yabiir.Datafile.Held.{Held, Flushed}
use yabiir.Merge.OutputWriter.{Output}

abbrev pub Whatever : {S : Type 0} → S → Type 0
Whatever s = Unit {0}

-- The bytes are in a file.
pub record OnDisk (id : ℕ) (bytes : Bytes) (w : World) : Type 0 where
  pub more : Bytes
  pub there : Map.lookup id w.data_files ≡ some (bytes ++ more)

pub OnDisk-Extends :
    {id : ℕ} {bytes : Bytes} {w w' : World} → OnDisk id bytes w → Extends w w' → OnDisk id bytes w'
OnDisk-Extends {id} {bytes} on ext =
    let (more, there) = ext.grown id (bytes ++ on.more) on.there in
    record {
      more = on.more ++ more;
      there = there ∙ ap (λ b. some b) (append_assoc bytes on.more more);
    }

pub Flushed-OnDisk :
    {w : World} {id start : ℕ} {bytes : Bytes} {s : Writing}
    → Flushed w id start bytes s
    → OnDisk id bytes s.world
Flushed-OnDisk {bytes = bytes} f = record {
  more = [];
  there =
      f.held.there
      ∙ ap (λ b. some b)
          (sym (append-nil f.held.on_disk)
            ∙ ap (λ l. f.held.on_disk ++ l) (sym f.empty)
            ∙ f.held.whole
            ∙ sym (append-nil bytes));
}

module _ {Hasher : Type 0} where
  abbrev pub data_of : Output Hasher → Writing
  data_of s = record { world = s.opening.world; file = s.writer.current_data }

  -- The output file holds the bytes, those in the buffer included, and its offset is at their end.
  pub record Holds (id : ℕ) (bytes : Bytes) (s : Output Hasher) : Type 0 where
    pub held : Held s.opening.world id (length bytes) bytes (data_of s)

  -- There is an output file.
  pub record IsOpen (s : Output Hasher) : Type 0 where
    pub id : ℕ
    pub bytes : Bytes
    pub holds : Holds id bytes s

  pub Held-Holds :
      {w : World} {id start : ℕ} {bytes : Bytes} {s : Output Hasher}
      → Held w id start bytes (data_of s)
      → start ≡ length bytes
      → Holds id bytes s
  Held-Holds held at = record {
    held = record {
      on_disk = held.on_disk;
      there = held.there;
      whole = held.whole;
      same_id = held.same_id;
      starts = held.starts ∙ at;
      only = record { at = λ j other. refl };
    };
  }

  -- The data file and its handle are the same.
  pub record SameFile (s t : Output Hasher) : Type 0 where
    pub world_lem : SameData s.opening.world t.opening.world
    pub file_lem : t.writer.current_data ≡ s.writer.current_data

  pub SameFile-Holds :
      {id : ℕ} {bytes : Bytes} {s t : Output Hasher}
      → Holds id bytes s
      → SameFile s t
      → Holds id bytes t
  SameFile-Holds {id} holds same =
      let held = holds.held in
      record {
        held = record {
          on_disk = held.on_disk;
          there = ap (Map.lookup id) same.world_lem ∙ held.there;
          whole = ap (λ file. held.on_disk ++ file.buffer) same.file_lem ∙ held.whole;
          same_id = ap (λ file. file.file_id) same.file_lem ∙ held.same_id;
          starts = ap (λ file. file.offset) same.file_lem ∙ held.starts;
          only = record { at = λ j other. refl };
        };
      }

  -- After a flush, or none.
  pub record Turned (id : ℕ) (bytes : Bytes) (flushed : Bool) (s : Output Hasher) : Type 0 where
    pub waits : flushed ≡ false → Holds id bytes s
    pub on_disk : flushed ≡ true → OnDisk id bytes s.opening.world
    pub is_open : IsOpen s
