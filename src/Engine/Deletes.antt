-- ===== src/Engine/Deletes.antt =====
-- src/engine.rs `delete` where no call fails.

use yabiir.Base.{
  ℕ, ◌<◌, ◌≡◌, refl, ap, ◌∙◌, true, Bool-cases, inl, inr, Option, none, some, [], Bytes, length,
  append-nil, append_assoc, ==-ne, bytes_eq, bytes_eq_iff, if◌then◌else◌, arith,
}
use yabiir.Crc32.{Crc32}
use yabiir.Format.Entry.{EncodedEntry, encode_entry}
use yabiir.Format.Entry.RoundTrip.{Fits, total_len_lem}
use yabiir.Keydir
use yabiir.Keydir.{Keydir, KeydirEntry}
use yabiir.Keydir.Laws.{get-remove}
use yabiir.Engine.{Engine, append, delete, delete_found}
use yabiir.Engine.View.{view}
use yabiir.Engine.Grows.{Serves, Keeps-append}
use yabiir.Engine.Appends.{append-Returns, append-logged}
use yabiir.Engine.Refines.{
  Healthy, CanWrite, IsSound, Implements, Implements-eq, Logs, appended_if, stored_at_kept,
  sound_kept, with_keydir, Usable-with_keydir, require_write_lem,
}

module _ {Hasher : Type 0} (crc32 : Crc32 Hasher) {key : Bytes} (tstamp : ℕ) {e : Engine}
    (healthy : Healthy e) (can : CanWrite e) (keyed : 0 < length key)
    (fits : Fits key [] tstamp) where
  abbrev encoded : EncodedEntry
  encoded = encode_entry crc32 key [] true tstamp

  some_bytes : 0 < length encoded.bytes
  some_bytes = omega (arith, total_len_lem crc32 true fits)

  abbrev wrote : Engine
  wrote = (append encoded e).1

  wrote-Serves : Serves e wrote
  wrote-Serves = (Keeps-append encoded).at e

  abbrev delete_keydir : Keydir
  delete_keydir = (Keydir.remove wrote.keydir key).0

  get_deleted :
      (j : Bytes)
      → Keydir.get delete_keydir j ≡ (if bytes_eq key j then none else Keydir.get e.keydir j)
  get_deleted j = get-remove wrote.keydir key j ∙ rw (wrote-Serves.keydir_kept) refl

  delete_view :
      (j : Bytes)
      → view (with_keydir wrote delete_keydir) j ≡ (if bytes_eq key j then none else view e j)
  unfolding view
  delete_view j = elim (Bool-cases (bytes_eq key j)) [
    | inl same ↦ rw (get_deleted j, same) refl
    | inr other ↦ rw (get_deleted j, other) (stored_at_kept healthy.sound wrote-Serves j)
  ]

  delete-IsSound : IsSound (with_keydir wrote delete_keydir)
  delete-IsSound k entry h = elim (Bool-cases (bytes_eq key k)) [
    | inl same ↦ let found : none ≡ some entry = rw (get_deleted k, same) at h in cc
    | inr other ↦
        let found : Keydir.get e.keydir k ≡ some entry = rw (get_deleted k, other) at h in
        sound_kept healthy.sound wrote-Serves k entry found
  ]

  -- A key that is not there needs no tombstone.
  absent_view :
      Keydir.get e.keydir key ≡ none
      → (j : Bytes) → view e j ≡ (if bytes_eq key j then none else view e j)
  unfolding view
  absent_view h j = elim (Bool-cases (bytes_eq key j)) [
    | inl same ↦ rw (same, ← (bytes_eq_iff key j).0 same, h) refl
    | inr other ↦ rw other refl
  ]

  delete_found-Implements :
      (o : Option KeydirEntry)
      → Keydir.get e.keydir key ≡ o
      → Implements
          (delete_found crc32 o key tstamp)
          e
          (λ j. if bytes_eq key j then none else view e j)
  unfolding delete_found
  delete_found-Implements none h = record {
    result = refl;
    healthy = healthy;
    view_lem = absent_view h;
  }
  delete_found-Implements (some entry) h =
      let appended = append-Returns healthy.usable can.room encoded some_bytes in
      Implements-eq (delete_found crc32 (some entry) key tstamp)
        {e' = with_keydir wrote delete_keydir} (rw (appended.result) refl)
        (record {
          usable = Usable-with_keydir appended.usable delete_keydir;
          sound = delete-IsSound;
        })
        delete_view

  delete_eq : delete crc32 key tstamp e ≡ delete_found crc32 (Keydir.get e.keydir key) key tstamp e
  unfolding delete
  delete_eq = rw (==-ne (length key) 0 (omega arith), require_write_lem e can.is_writer) refl

  delete_map :
      Implements (delete crc32 key tstamp) e (λ j. if bytes_eq key j then none else view e j)
  delete_map =
      let found = delete_found-Implements (Keydir.get e.keydir key) refl in
      Implements-eq (delete crc32 key tstamp)
        {e' = (delete_found crc32 (Keydir.get e.keydir key) key tstamp e).1}
        (delete_eq
          ∙ ap (λ r. (r, (delete_found crc32 (Keydir.get e.keydir key) key tstamp e).1))
              found.result)
        found.healthy found.view_lem

  delete_found-Logs :
      (o : Option KeydirEntry)
      → (more : Bytes) × Logs
          (delete_found crc32 o key tstamp e).1
          healthy.usable.id
          healthy.usable.content
          (appended_if o encoded.bytes more)
  unfolding delete_found
  delete_found-Logs none =
      ([], record { there = rw (append-nil healthy.usable.content) healthy.usable.ready.there })
  delete_found-Logs (some entry) =
      let appended = append-Returns healthy.usable can.room encoded some_bytes in
      let (more, there) = append-logged healthy.usable can.room encoded some_bytes in
      (
        more,
        record {
          there =
              rw (appended.result)
                (there ∙ ap (λ l. some l) (append_assoc healthy.usable.content encoded.bytes more));
        },
      )

  -- Let a store be healthy: its active file is there with the id and the contents that `healthy`
  -- names, its buffer is empty and its offset is the length of the file; its id is below the next
  -- id, and from the next id on no file has an id; every keydir entry points at bytes that are
  -- there; no fsync is in flight, and no call to come fails. Let it be opened to be written too,
  -- with the two counters not at their ends. Then `delete` of a key that is not empty and fits the
  -- header returns. After it the key has no value, every other key has what it had, a value or
  -- none, and the store is healthy. If the key was in the keydir, its tombstone stands behind what
  -- was in the active file; if not, the file has what it had.
  pub delete-Implements :
      Implements (delete crc32 key tstamp) e (λ j. if bytes_eq key j then none else view e j)
      × ((more : Bytes) × Logs
            (delete crc32 key tstamp e).1
            healthy.usable.id
            healthy.usable.content
            (appended_if (Keydir.get e.keydir key) encoded.bytes more))
  delete-Implements = (delete_map, rw delete_eq (delete_found-Logs (Keydir.get e.keydir key)))
