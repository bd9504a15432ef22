-- ===== src/Recovery/Newest.antt =====
-- What a log says of a key: the place of the value of its newest intact entry, worked out from the
-- entries' lengths on disk, and nothing where that entry is a tombstone.
use yabiir.Base.{
  ℕ, ◌+◌, ◌-◌, ◌≡◌, refl, ap, ◌∙◌, Bool, true, false, Option, none, some, List, [], ◌∷◌, Bytes,
  length, length-append, All, arith, bytes_eq, if◌then◌else◌,
}
use yabiir.Crc32.{Crc32}
use yabiir.Format.Entry.RoundTrip.{total_len_lem}
use yabiir.Keydir
use yabiir.Keydir.{Keydir, KeydirEntry}
use yabiir.Keydir.Laws.{get-insert, get-remove}
use yabiir.Recovery.{place, apply_entry}
use yabiir.Recovery.Parsed.{apply_all}
use yabiir.Recovery.Log.{
  Write, Item, intact, bitrot, ItemFits, entry_written, write_bytes, item_bytes, file_entries,
}

module _ {Hasher : Type 0} (crc32 : Crc32 Hasher) where
  -- The value is the last part of its entry.
  abbrev pub value_place : ℕ → ℕ → Write → KeydirEntry
  value_place file_id start w = record {
    file_id = file_id;
    value_size = length w.value;
    value_pos = start + (length (write_bytes crc32 w) - length w.value);
    timestamp = w.tstamp;
  }

  -- What a write makes of what was known of a key.
  abbrev pub written_over : ℕ → ℕ → Write → Bytes → Option KeydirEntry → Option KeydirEntry
  written_over file_id start w key before =
      if bytes_eq w.key key
      then if w.tombstone then none else some (value_place file_id start w)
      else before

  -- What the items from an offset on make of it; one that has rotted makes nothing.
  abbrev pub newest : ℕ → ℕ → List Item → Bytes → Option KeydirEntry → Option KeydirEntry
  newest file_id pos [] key before = before
  newest file_id pos (intact w ∷ items) key before =
      newest file_id (pos + length (item_bytes crc32 (intact w))) items key
        (written_over file_id pos w key before)
  newest file_id pos (bitrot w crc ∷ items) key before =
      newest file_id (pos + length (item_bytes crc32 (bitrot w crc))) items key before

  get-place :
      (d : Keydir) (k : Bytes) (b : Bool) (at : KeydirEntry) (key : Bytes)
      → Keydir.get (place d k b at) key
        ≡ (if bytes_eq k key then if b then none else some at else Keydir.get d key)
  get-place d k true at key = get-remove d k key
  get-place d k false at key = get-insert d k key at

  get-apply_entry :
      (file_id pos : ℕ) (w : Write) (d : Keydir) (key : Bytes)
      → ItemFits crc32 (intact w)
      → Keydir.get (apply_entry d file_id pos (entry_written w)) key
        ≡ written_over file_id pos w key (Keydir.get d key)
  unfolding apply_entry
  get-apply_entry file_id pos w d key fits =
      let same : pos + 16 + length w.key ≡ pos + (length (write_bytes crc32 w) - length w.value) =
        omega (arith, total_len_lem crc32 w.tombstone fits, length-append w.key w.value) in
      get-place d w.key w.tombstone _ key
      ∙ ap
          (λ p.
            if bytes_eq w.key key
            then if w.tombstone
              then none
              else some (record {
                file_id = file_id;
                value_size = length w.value;
                value_pos = p;
                timestamp = w.tstamp;
              })
            else Keydir.get d key)
          same

  -- The entries of a file applied to a keydir, seen through `get`.
  pub get-apply_all :
      (file_id pos : ℕ) (items : List Item) (d : Keydir) (key : Bytes)
      → All (ItemFits crc32) items
      → Keydir.get (apply_all file_id (file_entries crc32 pos items) d) key
        ≡ newest file_id pos items key (Keydir.get d key)
  get-apply_all file_id pos [] d key fits = refl
  get-apply_all file_id pos (intact w ∷ items) d key (fit, fits) =
      let next = pos + length (item_bytes crc32 (intact w)) in
      get-apply_all file_id next items (apply_entry d file_id pos (entry_written w)) key fits
      ∙ ap (newest file_id next items key) (get-apply_entry file_id pos w d key fit)
  get-apply_all file_id pos (bitrot w crc ∷ items) d key (fit, fits) =
      get-apply_all file_id (pos + length (item_bytes crc32 (bitrot w crc))) items d key fits
