-- ===== src/Recovery/Log.antt =====
-- A data file as the store leaves it: entries one after the other, some of which may have rotted,
-- and at most one torn entry at the end.
use yabiir.Base.{
  ℕ, zero, suc, ◌+◌, ◌^◌, ◌<◌, ◌≡◌, ◌≢◌, refl, ap, Bool, List, [], ◌∷◌, ◌++◌, Bytes, length, drop,
  length-append, length-drop, All, arith, append_assoc, eq-nil_of_length,
}
use native.Mathlib.Decide.{dec_lt}
use yabiir.Crc32.{Crc32}
use yabiir.Format.{to_le_bytes}
use yabiir.Format.Entry.{Entry, encode_entry}
use yabiir.Format.Entry.Parse.{parse_entry}
use yabiir.Format.Entry.RoundTrip.{
  Fits, entry_of, total_len_lem, parse_entry-encode_entry, parse_entry-bitrot, parse_entry-torn,
}
use yabiir.Recovery.Parsed.{next_entries, entries}

-- What `encode_entry` was given for one entry.
pub record Write : Type 0 where
  pub key : Bytes
  pub value : Bytes
  pub tombstone : Bool
  pub tstamp : ℕ

abbrev pub WriteFits : Write → Type 0
WriteFits w = Fits w.key w.value w.tstamp

abbrev pub entry_written : Write → Entry
entry_written w = entry_of w.key w.value w.tombstone w.tstamp

-- An entry on disk: as it was written, or with another stored checksum.
pub data Item : Type 0 where
  intact : Write → Item
  bitrot : Write → ℕ → Item

module _ {Hasher : Type 0} (crc32 : Crc32 Hasher) where
  abbrev pub write_bytes : Write → Bytes
  write_bytes w = (encode_entry crc32 w.key w.value w.tombstone w.tstamp).bytes

  abbrev pub item_bytes : Item → Bytes
  item_bytes (intact w) = write_bytes w
  item_bytes (bitrot w crc) = to_le_bytes 4 crc ++ drop 4 (write_bytes w)

  -- What an item is: its sizes fit the header, and a rotted checksum is not the right one.
  abbrev pub ItemFits : Item → Type 0
  ItemFits (intact w) = WriteFits w
  ItemFits (bitrot w crc) =
      WriteFits w × (crc < 2 ^ 32) × (crc ≢ crc32.hash (drop 4 (write_bytes w)))

  abbrev pub file_bytes : List Item → Bytes
  file_bytes [] = []
  file_bytes (item ∷ items) = item_bytes item ++ file_bytes items

  -- The intact entries and where they start.
  abbrev pub file_entries : ℕ → List Item → List (ℕ × Entry)
  file_entries pos [] = []
  file_entries pos (intact w ∷ items) =
      (pos, entry_written w) ∷ file_entries (pos + length (item_bytes (intact w))) items
  file_entries pos (bitrot w crc ∷ items) =
      file_entries (pos + length (item_bytes (bitrot w crc))) items

  -- The end of a file: nothing, or what a crash left of an entry.
  pub data IsTail (tail : Bytes) : Type 0 where
    clean : tail ≡ [] → IsTail tail
    torn :
        (w : Write) (back : Bytes)
        → WriteFits w
        → tail ++ back ≡ write_bytes w
        → 0 < length back
        → IsTail tail

  entries-nil : (fuel pos : ℕ) → entries crc32 fuel pos [] ≡ []
  unfolding entries next_entries parse_entry
  entries-nil zero pos = refl
  entries-nil (suc fuel) pos = refl

  entries-tail : (fuel pos : ℕ) (tail : Bytes) → IsTail tail → entries crc32 fuel pos tail ≡ []
  unfolding entries next_entries
  entries-tail fuel pos tail (clean e) = rw e (entries-nil fuel pos)
  entries-tail zero pos tail (torn w back fits e some_bytes) = refl
  entries-tail (suc fuel) pos tail (torn w back fits e some_bytes) = elim (dec_lt 0 (length tail)) [
    | yes h ↦ rw (parse_entry-torn crc32 w.tombstone fits tail back e h some_bytes) refl
    | no h ↦ rw (eq-nil_of_length tail (omega arith)) (entries-nil (suc fuel) pos)
  ]

  length-bitrot :
      (w : Write) (crc : ℕ)
      → WriteFits w
      → length (item_bytes (bitrot w crc)) ≡ length (write_bytes w)
  length-bitrot w crc fits =
      omega (arith, length-drop 4 (write_bytes w), total_len_lem crc32 w.tombstone fits)

  item_pos : (item : Item) → ItemFits item → 0 < length (item_bytes item)
  item_pos (intact w) fits = omega (arith, total_len_lem crc32 w.tombstone fits)
  item_pos (bitrot w crc) fits = omega arith

  entries-item :
      (fuel pos : ℕ) (item : Item) (items : List Item) (rest : Bytes)
      → ItemFits item
      → ((p : ℕ) → entries crc32 fuel p (file_bytes items ++ rest) ≡ file_entries p items)
      → entries crc32 (suc fuel) pos ((item_bytes item ++ file_bytes items) ++ rest)
        ≡ file_entries pos (item ∷ items)
  unfolding entries next_entries
  entries-item fuel pos (intact w) items rest fits h =
      rw (append_assoc, parse_entry-encode_entry crc32 w.tombstone fits)
        (ap (λ l. (pos, entry_written w) ∷ l) (h _))
  entries-item fuel pos (bitrot w crc) items rest (fits, lt, ne) h =
      rw
        (
          append_assoc (to_le_bytes 4 crc ++ drop 4 (write_bytes w)),
          append_assoc (to_le_bytes 4 crc),
          parse_entry-bitrot crc32 w.tombstone fits crc (file_bytes items ++ rest) lt ne,
          length-bitrot w crc fits,
        )
        (h _)

  -- A scan finds exactly the intact entries, in order and where they start.
  pub entries-file :
      (fuel pos : ℕ) (items : List Item) (tail : Bytes)
      → All ItemFits items
      → IsTail tail
      → length (file_bytes items ++ tail) < fuel
      → entries crc32 fuel pos (file_bytes items ++ tail) ≡ file_entries pos items
  entries-file fuel pos [] tail fits t h = entries-tail fuel pos tail t
  entries-file zero pos (item ∷ items) tail fits t h = absurd (omega arith)
  entries-file (suc fuel) pos (item ∷ items) tail fits t h =
      entries-item fuel pos item items tail fits.0 (λ p. entries-file fuel p items tail fits.1 t (
        omega (
          arith,
          item_pos item fits.0,
          length-append (item_bytes item ++ file_bytes items) tail,
          length-append (item_bytes item) (file_bytes items),
          length-append (file_bytes items) tail,
        )))
