-- ===== src/Engine/Folds.antt =====
-- src/engine.rs `list_keys` and `fold`, and what a fold goes through where no call fails.
use yabiir.Base.{
  ℕ, ◌+◌, bytes_eq, if◌then◌else◌, Option, none, ◌≡◌, refl, sym, ap, ◌∙◌, some, List, [], ◌∷◌,
  Bytes, All, All-mono,
}
use yabiir.Error.{ok}
use yabiir.Io.{Exec, pure, ◌>>=◌}
use yabiir.Io.Read.Laws.{NoFault}
use yabiir.Io.Disk.{World}
use yabiir.Keydir
use yabiir.Keydir.{KeydirEntry, snapshot}
use yabiir.Keydir.Snapshot.{IsUnique, times, times_live, snapshot_lem}
use yabiir.Datafile.{DataFileSet, read_at}
use yabiir.Engine.{Engine, read_value}
use yabiir.Engine.View.{view, stored, stored_at}
use yabiir.Engine.Gets.{stored-Finds, with_files, with_files-Readable, Readable, stored_at_same}

abbrev pub keys {ℓ} : {A : Type ℓ} → List (Bytes × A) → List Bytes
keys [] = []
keys ((key, a) ∷ m) = key ∷ keys m

unfoldable pub list_keys : Exec Engine (List Bytes)
list_keys e = pure (keys (snapshot e.keydir)) e

module _ {A : Type 0} (f : Bytes → Bytes → A → A) where
  -- The `for` of `fold`.
  unfoldable pub fold_entries : List (Bytes × KeydirEntry) → A → Exec Engine A
  fold_entries [] acc = pure acc
  fold_entries ((key, entry) ∷ m) acc =
      read_value entry >>= λ value. fold_entries m (f key value acc)

  unfoldable pub fold : A → Exec Engine A
  fold init e = fold_entries (snapshot e.keydir) init e

  -- The function applied to pairs, from the first on.
  abbrev pub fold_pairs : List (Bytes × Bytes) → A → A
  fold_pairs [] acc = acc
  fold_pairs ((key, value) ∷ m) acc = fold_pairs m (f key value acc)

-- What a read of a stored value leaves behind.
record Fetched (entry : KeydirEntry) (e : Engine) (v : Bytes) : Type 0 where
  world : World
  readers : List ℕ
  result : read_value entry e ≡ (ok v, with_files e world readers)
  kept : world.data_files ≡ e.world.data_files
  calm : NoFault world.plan

fetch :
    {e : Engine} (entry : KeydirEntry) (v : Bytes)
    → Readable e
    → stored e.world entry ≡ some v
    → Fetched entry e v
unfolding read_value
fetch {e} entry v readable there =
    let s : DataFileSet = record { world = e.world; readers = e.readers } in
    let found = stored-Finds s entry v readable.calm there in
    let after = (read_at entry.file_id entry.value_pos entry.value_size s).1 in
    record {
      world = after.world;
      readers = after.readers;
      result = rw (found.result) refl;
      kept = found.data_kept;
      calm = found.calm;
    }

-- The fold has gone through these pairs.
pub record Folds {A : Type 0} (f : Bytes → Bytes → A → A) (m : List (Bytes × KeydirEntry)) (acc : A)
    (e : Engine) : Type 0 where
  pub pairs : List (Bytes × Bytes)
  pub result : (fold_entries f m acc e).0 ≡ ok (fold_pairs f pairs acc)
  pub keys_lem : keys pairs ≡ keys m
  pub times_lem : (k : Bytes) → times k pairs ≡ times k m
  pub values_lem : All (λ p. view e p.0 ≡ some p.1) pairs

fold_entries-Folds :
    {A : Type 0} (f : Bytes → Bytes → A → A) (m : List (Bytes × KeydirEntry)) (acc : A) (e : Engine)
    → Readable e
    → All (λ p. Keydir.get e.keydir p.0 ≡ some p.1) m
    → Folds f m acc e
unfolding fold_entries view
fold_entries-Folds f [] acc e readable found = record {
  pairs = [];
  result = refl;
  keys_lem = refl;
  times_lem = λ k. refl;
  values_lem = tt;
}
fold_entries-Folds f ((key, entry) ∷ m) acc e readable (here, found) =
    let (v, there) = readable.sound key entry here in
    let got = fetch entry v readable there in
    let e' = with_files e got.world got.readers in
    let rest =
      fold_entries-Folds f m (f key v acc) e'
        (with_files-Readable readable got.world got.readers got.kept got.calm) found in
    record {
      pairs = (key, v) ∷ rest.pairs;
      result = rw (got.result) rest.result;
      keys_lem = ap (λ l. key ∷ l) rest.keys_lem;
      times_lem = λ k. ap (λ n. (if bytes_eq key k then 1 else 0) + n) (rest.times_lem k);
      values_lem = (
        rw here there,
        All-mono _ _ rest.pairs
            (λ p h.
              sym (
                stored_at_same readable got.world got.readers got.kept got.calm
                  (Keydir.get e.keydir p.0))
              ∙ h)
            rest.values_lem,
      );
    }

-- A key has a value where it is in the keydir.
view-times :
    (e : Engine) (k : Bytes)
    → Readable e
    → times_live (Keydir.get e.keydir k) ≡ times_live (view e k)
unfolding view
view-times e k readable = go (Keydir.get e.keydir k) refl
  where
    go :
        (o : Option KeydirEntry)
        → Keydir.get e.keydir k ≡ o
        → times_live o ≡ times_live (stored_at e.world o)
    go none h = refl
    go (some entry) h = let (v, there) = readable.sound k entry h in rw there refl

-- The fold has gone through these pairs, which are the map of the store.
pub record FoldsAll {A : Type 0} (f : Bytes → Bytes → A → A) (init : A) (e : Engine) : Type 0 where
  pub pairs : List (Bytes × Bytes)
  pub result : (fold f init e).0 ≡ ok (fold_pairs f pairs init)
  pub listed : (list_keys e).0 ≡ ok (keys pairs)
  pub once : (k : Bytes) → times k pairs ≡ times_live (view e k)
  pub values_lem : All (λ p. view e p.0 ≡ some p.1) pairs

-- On a store that was opened to be written or only to be read, where no call to come fails, every
-- keydir entry points at bytes that are there and the keydir has no key twice, `fold` returns the
-- function applied to pairs of a key and its value. Each key that has a value is in one of the pairs
-- and in no other, no other key is in one, and the keys of the pairs are, in order, those that
-- `list_keys` returns.
pub fold_lem :
    {A : Type 0} (f : Bytes → Bytes → A → A) (init : A) (e : Engine)
    → Readable e
    → IsUnique e.keydir
    → FoldsAll f init e
unfolding fold list_keys
fold_lem f init e readable unique =
    let listed = snapshot_lem e.keydir unique in
    let folds = fold_entries-Folds f (snapshot e.keydir) init e readable listed.1 in
    record {
      pairs = folds.pairs;
      result = folds.result;
      listed = ap (λ l. ok l) (sym folds.keys_lem);
      once = λ k. folds.times_lem k ∙ listed.0 k ∙ view-times e k readable;
      values_lem = folds.values_lem;
    }
