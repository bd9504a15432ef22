-- ===== src/Datafile/Outputs.antt =====
-- src/datafile.rs: what the calls that a merge makes leave of its output file.
use yabiir.Base.{
  ℕ, ◌+◌, ◌-◌, ◌≡◌, refl, ap, ◌∙◌, Option, none, some, [], ◌++◌, Bytes, length, ==-refl,
}
use yabiir.Base.Map
use yabiir.Base.Map.{nat_eq, lookup-cons}
use yabiir.Io.{◌>>◌}
use yabiir.Io.After.{After, After-bind, After-mono, After-lift}
use yabiir.Io.Grows.{SameData, syscall-After}
use yabiir.Io.Disk.{World, syscall, create_missing, create_data, data_len, length_of}
use yabiir.Format.Entry.{EncodedEntry}
use yabiir.Datafile.{
  ActiveFile, Writing, flush, write_all, write_unflushed, append_buffered, advance, sync, create,
}
use yabiir.Datafile.Held.{Only-same, Held, Flushed, OnlyIn, flush-After, write_all-After}

module _ {w : World} {id start : ℕ} where
  pub sync-After :
      (s : Writing) {bytes : Bytes}
      → Held w id start bytes s
      → After (sync s) (λ _. Flushed w id start bytes) (OnlyIn w id)
  unfolding sync
  sync-After s held = After-bind flush _ (flush-After s held) (λ _ t flushed.
      After-lift (syscall t.world) (λ u. record t { world = u }) (syscall-After t.world)
        (λ _ u _ same. record {
          held = record {
            on_disk = flushed.held.on_disk;
            there = ap (Map.lookup id) same ∙ flushed.held.there;
            whole = flushed.held.whole;
            same_id = flushed.held.same_id;
            starts = flushed.held.starts;
            only = Only-same same flushed.held.only;
          };
          empty = flushed.empty;
        })
        (λ u same. Only-same same flushed.held.only))

  pub append_buffered-After :
      (encoded : EncodedEntry) (s : Writing) {bytes : Bytes}
      → Held w id start bytes s
      → After
          (append_buffered encoded s)
          (λ found t.
            (found ≡ (id, start + (length encoded.bytes - encoded.value_len), length encoded.bytes))
            × Held w id (start + length encoded.bytes) (bytes ++ encoded.bytes) t)
          (OnlyIn w id)
  unfolding append_buffered write_unflushed advance
  append_buffered-After encoded s {bytes} held =
      After-bind (write_all encoded.bytes) _ (write_all-After encoded.bytes s held) (λ _ t h.
        record {
          holds = (
            rw (h.same_id, h.starts) refl,
            record {
              on_disk = h.on_disk;
              there = h.there;
              whole = h.whole;
              same_id = h.same_id;
              starts = rw h.starts refl;
              only = h.only;
            },
          );
        })

-- A file that was created or was there, seen from the handle on it.
pub record Created (id : ℕ) (file : ActiveFile) (w : World) : Type 0 where
  pub bytes : Bytes
  pub there : Map.lookup id w.data_files ≡ some bytes
  pub named : file ≡ record { file_id = id; buffer = []; offset = length bytes }

create_missing-there :
    (id : ℕ) (old : Option Bytes) (w : World)
    → Map.lookup id w.data_files ≡ old
    → (bytes : Bytes) × (Map.lookup id (create_missing id old w).data_files ≡ some bytes)
create_missing-there id none w h = ([], rw (lookup-cons, ==-refl id) refl)
create_missing-there id (some bytes) w h = (bytes, h)

-- What a failure leaves is of no interest here.
abbrev Whatever : World → Type 0
Whatever w = Unit {0}

syscall-Same : (w : World) → After (syscall w) (λ _ t. SameData w t) Whatever
syscall-Same w = After-mono (syscall w) (syscall-After w) (λ _ t same. same) (λ t same. tt)

create_data-there :
    (id : ℕ) (w : World)
    → After
        (create_data id w)
        (λ _ t. (bytes : Bytes) × (Map.lookup id t.data_files ≡ some bytes))
        Whatever
unfolding create_data
create_data-there id w =
    After-bind syscall _ (syscall-Same w)
      (λ _ t same. record { holds = create_missing-there id (Map.lookup id t.data_files) t refl })

data_len-After :
    (id : ℕ) (w : World) (bytes : Bytes)
    → Map.lookup id w.data_files ≡ some bytes
    → After
        (data_len id w)
        (λ len t. (len ≡ length bytes) × (Map.lookup id t.data_files ≡ some bytes))
        Whatever
unfolding data_len
data_len-After id w bytes there = After-bind syscall _ (syscall-Same w) (λ _ t same.
    let there' = ap (Map.lookup id) same ∙ there in
    record { holds = (ap length_of there', there') })

abbrev Measured : ℕ → ℕ → World → Type 0
Measured id len w =
    (bytes : Bytes) × (len ≡ length bytes) × (Map.lookup id w.data_files ≡ some bytes)

-- The handle of a new file stands at the end of what is in the file.
pub create-After : (id : ℕ) (w : World) → After (create id w) (Created id) Whatever
unfolding create
create-After id w =
    After-bind (create_data id >> data_len id) _ {Q = Measured id}
      (After-bind (create_data id) _ (create_data-there id w) (λ _ t (bytes, there).
        After-mono (data_len id t) (data_len-After id t bytes there) (λ len u h. (bytes, h.0, h.1))
          (λ u h. h)))
      (λ len t (bytes, len_lem, there). After-bind syscall _ (syscall-Same t) (λ _ u same. record {
        holds = record {
          bytes = bytes;
          there = ap (Map.lookup id) same ∙ there;
          named = rw len_lem refl;
        };
      }))
