-- ===== src/Engine/Gets.antt =====
-- src/engine.rs `get` where no call fails.
use mathlib.Core.Path.{subst}
use yabiir.Base.{
  ℕ, ◌+◌, ◌≡◌, refl, ◌∙◌, Bool-cases, inl, inr, Option, none, some, List, Bytes, length, take, drop,
  leb, arith,
}
use yabiir.Base.Map
use yabiir.Base.Map.{nat_eq}
use yabiir.Error.{ok}
use yabiir.Io.{Exec}
use yabiir.Io.Read.Laws.{NoFault}
use yabiir.Io.Disk.{World}
use yabiir.Keydir
use yabiir.Keydir.{Keydir, KeydirEntry}
use yabiir.Datafile.{DataFileSet, read_at}
use yabiir.Datafile.Reads.{Finds, read_at-Finds}
use yabiir.Engine.{Engine, read_value, get_found, get}
use yabiir.Engine.View.{cut, view, stored, stored_at}
use yabiir.Engine.Refines.{Healthy, IsSound}

-- What an entry points at is what `read_at` gives.
pub stored-Finds :
    (s : DataFileSet) (entry : KeydirEntry) (v : Bytes)
    → NoFault s.world.plan
    → stored s.world entry ≡ some v
    → Finds (read_at entry.file_id entry.value_pos entry.value_size) s v
unfolding stored
stored-Finds s entry v calm h = go (Map.lookup entry.file_id s.world.data_files) refl h
  where
    go :
        (o : Option Bytes)
        → Map.lookup entry.file_id s.world.data_files ≡ o
        → cut entry.value_pos entry.value_size o ≡ some v
        → Finds (read_at entry.file_id entry.value_pos entry.value_size) s v
    go none there e = cc
    go (some bytes) there e =
        elim (Bool-cases (leb (entry.value_pos + entry.value_size) (length bytes))) [
          | inl inside ↦
              let found : some (take entry.value_size (drop entry.value_pos bytes)) ≡ some v =
                rw inside at e in
              let same : take entry.value_size (drop entry.value_pos bytes) ≡ v = cc in
              subst
                (λ (b : Bytes). Finds (read_at entry.file_id entry.value_pos entry.value_size) s b)
                same
                (read_at-Finds entry.file_id s calm there entry.value_pos entry.value_size
                  (ground arith))
          | inr outside ↦ let x : none ≡ some v = rw outside at e in cc
        ]

-- Reads change the cached handles and use up outcomes.
abbrev pub with_files : Engine → World → List ℕ → Engine
with_files e w readers = record e { world = w; readers = readers }

-- No call to come fails, and every keydir entry points at bytes that are there.
pub record Readable (e : Engine) : Type 0 where
  pub sound : IsSound e
  pub calm : NoFault e.world.plan

pub Healthy-Readable : {e : Engine} → Healthy e → Readable e
Healthy-Readable healthy = record { sound = healthy.sound; calm = healthy.usable.ready.calm }

module _ {e : Engine} (readable : Readable e) (w : World) (readers : List ℕ)
    (kept : w.data_files ≡ e.world.data_files) (calm : NoFault w.plan) where
  stored_kept : (entry : KeydirEntry) → stored w entry ≡ stored e.world entry
  unfolding stored
  stored_kept entry = rw kept refl

  pub stored_at_same : (o : Option KeydirEntry) → stored_at w o ≡ stored_at e.world o
  stored_at_same none = refl
  stored_at_same (some entry) = stored_kept entry

  pub with_files-Readable : Readable (with_files e w readers)
  with_files-Readable = record {
    sound =
        λ k entry h. let (v, there) = readable.sound k entry h in (v, stored_kept entry ∙ there);
    calm = calm;
  }

-- What a `get` returns and leaves behind: nothing changes but the cached handles and the calls to
-- come.
pub record Answers (m : Exec Engine (Option Bytes)) (e : Engine) (value : Option Bytes)
    : Type 0 where
  pub world : World
  pub readers : List ℕ
  pub result : m e ≡ (ok value, with_files e world readers)
  pub data_kept : world.data_files ≡ e.world.data_files
  pub readable : Readable (with_files e world readers)
  pub view_kept : (j : Bytes) → view (with_files e world readers) j ≡ view e j

get_found-Answers :
    {e : Engine} (key : Bytes) (o : Option KeydirEntry)
    → Readable e
    → Keydir.get e.keydir key ≡ o
    → Answers (get_found o) e (stored_at e.world o)
unfolding get_found read_value view
get_found-Answers {e} key none readable h = record {
  world = e.world;
  readers = e.readers;
  result = refl;
  data_kept = refl;
  readable = readable;
  view_kept = λ j. refl;
}
get_found-Answers {e} key (some entry) readable h =
    let (v, there) = readable.sound key entry h in
    let s : DataFileSet = record { world = e.world; readers = e.readers } in
    let found = stored-Finds s entry v readable.calm there in
    let after = (read_at entry.file_id entry.value_pos entry.value_size s).1 in
    record {
      world = after.world;
      readers = after.readers;
      result = rw (found.result, there) refl;
      data_kept = found.data_kept;
      readable = with_files-Readable readable after.world after.readers found.data_kept found.calm;
      view_kept = λ j.
          stored_at_same readable after.world after.readers found.data_kept found.calm
            (Keydir.get e.keydir j);
    }

-- On a store that was opened to be written or only to be read, where no call to come fails and every
-- keydir entry points at bytes that are there, `get` returns what the map has for the key, a value or
-- none. Of the store only the files, the cached handles and the calls to come can change then; the
-- data files do not, every key has what it had, and the two conditions still hold.
pub get-Answers : {e : Engine} (key : Bytes) → Readable e → Answers (get key) e (view e key)
unfolding get view
get-Answers {e} key readable =
    let found = get_found-Answers key (Keydir.get e.keydir key) readable refl in
    record {
      world = found.world;
      readers = found.readers;
      result = found.result;
      data_kept = found.data_kept;
      readable = found.readable;
      view_kept = found.view_kept;
    }
