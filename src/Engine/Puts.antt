-- ===== src/Engine/Puts.antt =====
-- src/engine.rs `put` where no call fails.
use mathlib.Core.Path.{subst}
use native.Mathlib.Nat.{mod-eq_of_lt}
use yabiir.Base.{
  ℕ, ◌≤◌, ◌<◌, ◌≡◌, refl, ap, ◌∙◌, false, Bool-cases, inl, inr, Option, some, Bytes, length,
  length-append, ◌++◌, append_assoc, ==-ne, bytes_eq, if◌then◌else◌, arith,
}
use yabiir.Crc32.{Crc32}
use yabiir.Error.{ok}
use yabiir.Format.Entry.{EncodedEntry, encode_entry}
use yabiir.Format.Entry.RoundTrip.{Fits, total_len_lem}
use yabiir.Keydir
use yabiir.Keydir.{Keydir, KeydirEntry}
use yabiir.Keydir.Laws.{get-insert}
use yabiir.Engine.{Engine, append, put}
use yabiir.Engine.View.{view, stored, stored_at}
use yabiir.Engine.Grows.{Serves, Keeps-append}
use yabiir.Engine.Appends.{
  value_at, append-Returns, append-logged, append-stored, encode_entry_value,
}
use yabiir.Engine.Refines.{
  Healthy, CanWrite, IsSound, Implements, Implements-eq, Logs, stored_at_kept, sound_kept,
  with_keydir, Usable-with_keydir, require_write_lem,
}

module _ {Hasher : Type 0} (crc32 : Crc32 Hasher) {key : Bytes} (tstamp : ℕ) {e : Engine}
    (healthy : Healthy e) (can : CanWrite e) (keyed : 0 < length key) where
  module _ (value : Bytes) (fits : Fits key value tstamp) where
    abbrev encoded : EncodedEntry
    encoded = encode_entry crc32 key value false tstamp

    some_bytes : 0 < length encoded.bytes
    some_bytes = omega (arith, total_len_lem crc32 false fits)

    abbrev wrote : Engine
    wrote = (append encoded e).1

    abbrev entry_put : KeydirEntry
    entry_put = record {
      file_id = healthy.usable.id;
      value_size = length value;
      value_pos = value_at healthy.usable can.room encoded some_bytes;
      timestamp = tstamp;
    }

    put_eq :
        put crc32 key value tstamp e
        ≡ (ok tt, record wrote { keydir = Keydir.insert wrote.keydir key entry_put })
    unfolding put
    put_eq =
        rw
          (
            ==-ne (length key) 0 (omega arith),
            require_write_lem e can.is_writer,
            (append-Returns healthy.usable can.room encoded some_bytes).result,
            mod-eq_of_lt fits.value_fits,
          )
          refl

    value_part : length value ≤ length encoded.bytes
    value_part = omega (arith, total_len_lem crc32 false fits, length-append key value)

    put_stored : stored wrote.world entry_put ≡ some value
    unfolding encode_entry
    put_stored =
        append-stored healthy.usable can.room encoded some_bytes entry_put refl refl refl value_part
        ∙ ap (λ v. some v) (encode_entry_value crc32 key value false tstamp)

    wrote-Serves : Serves e wrote
    wrote-Serves = (Keeps-append encoded).at e

    abbrev put_keydir : Keydir
    put_keydir = Keydir.insert wrote.keydir key entry_put

    get_put :
        (j : Bytes)
        → Keydir.get put_keydir j
          ≡ (if bytes_eq key j then some entry_put else Keydir.get e.keydir j)
    get_put j = get-insert wrote.keydir key j entry_put ∙ rw (wrote-Serves.keydir_kept) refl

    put_view :
        (j : Bytes)
        → view (with_keydir wrote put_keydir) j ≡ (if bytes_eq key j then some value else view e j)
    unfolding view
    put_view j = elim (Bool-cases (bytes_eq key j)) [
      | inl same ↦ rw (get_put j, same) put_stored
      | inr other ↦ rw (get_put j, other) (stored_at_kept healthy.sound wrote-Serves j)
    ]

    put-IsSound : IsSound (with_keydir wrote put_keydir)
    put-IsSound k entry h = elim (Bool-cases (bytes_eq key k)) [
      | inl same ↦
          let found : some entry_put ≡ some entry = rw (get_put k, same) at h in
          (
            value,
            subst (λ (o : Option KeydirEntry). stored_at wrote.world o ≡ some value) found
                put_stored,
          )
      | inr other ↦
          let found : Keydir.get e.keydir k ≡ some entry = rw (get_put k, other) at h in
          sound_kept healthy.sound wrote-Serves k entry found
    ]

    put_map :
        Implements
          (put crc32 key value tstamp)
          e
          (λ j. if bytes_eq key j then some value else view e j)
    put_map =
        Implements-eq (put crc32 key value tstamp) put_eq
          (record {
            usable =
                Usable-with_keydir
                  (append-Returns healthy.usable can.room encoded some_bytes).usable put_keydir;
            sound = put-IsSound;
          })
          put_view

    put-Logs :
        (more : Bytes) × Logs
          (put crc32 key value tstamp e).1
          healthy.usable.id
          healthy.usable.content
          (encoded.bytes ++ more)
    put-Logs =
        let (more, there) = append-logged healthy.usable can.room encoded some_bytes in
        (
          more,
          rw put_eq (record {
            there =
                there ∙ ap (λ l. some l) (append_assoc healthy.usable.content encoded.bytes more);
          }),
        )

    -- Let a store be healthy: its active file is there with the id and the contents that `healthy`
    -- names, its buffer is empty and its offset is the length of the file; its id is below the
    -- next id, and from the next id on no file has an id; every keydir entry points at bytes that
    -- are there; no fsync is in flight, and no call to come fails. Let it be opened to be written
    -- too, with the two counters not at their ends. Then `put` of a key that is not empty, with
    -- sizes that fit the header, returns. After it the key has the value, every other key has what
    -- it had, a value or none, and the store is healthy, whether the file was rotated or synced.
    -- The encoded entry stands behind what was in the active file.
    pub put-Implements :
        Implements
          (put crc32 key value tstamp)
          e
          (λ j. if bytes_eq key j then some value else view e j)
        × ((more : Bytes) × Logs
              (put crc32 key value tstamp e).1
              healthy.usable.id
              healthy.usable.content
              (encoded.bytes ++ more))
    put-Implements = (put_map, put-Logs)
