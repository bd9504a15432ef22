-- ===== src/Format/Entry/RoundTrip.antt =====
-- src/format/entry.rs: what `encode_entry` writes is what `read_entry` reads.
use yabiir.Base.{
  ℕ, ◌+◌, ◌^◌, ◌<◌, ◌≡◌, ◌≢◌, refl, sym, ap, ◌∙◌, Bool, not, some, [], ◌++◌, Bytes, length, drop,
  length-append, take-length, drop-length, ◌==◌, if◌then◌else◌, arith, append_assoc, ==-refl, ==-ne,
}
use native.Mathlib.Nat.{mod-eq_of_lt}
use yabiir.Crc32.{Crc32}
use yabiir.Io.Read.{Reader}
use yabiir.Io.Read.Laws.{NoFault, Reads, Reads-eq}
use yabiir.Format.{u32_mod, encode_key_size, to_le_bytes}
use yabiir.Format.Words.{encode_key_size-lt, decode_key_size-encode_key_size}
use yabiir.Format.Entry.{
  Entry, EntryRead, truncated, crc_mismatch, decode_entry_header, check_body, body_len,
  encode_entry, read_entry,
}
use yabiir.Format.Entry.Parse.{parse_entry, read_entry-parse}
use yabiir.Format.Entry.Layout.{
  header_bytes, decode_entry_header_lem, parse_entry-whole, parse_entry-part,
}

-- The sizes that the words of a header hold.
pub record Fits (key value : Bytes) (tstamp : ℕ) : Type 0 where
  pub key_fits : length key < 2 ^ 31
  pub value_fits : length value < 2 ^ 32
  pub tstamp_fits : tstamp < 2 ^ 32

-- The entry that is read back.
abbrev pub entry_of : Bytes → Bytes → Bool → ℕ → Entry
entry_of key value tombstone tstamp = record {
  header = record {
    timestamp = tstamp;
    key_size = length key;
    value_size = length value;
    tombstone = tombstone;
  };
  key = key;
  value = value;
}

module _ {Hasher : Type 0} (crc32 : Crc32 Hasher) {key value : Bytes} {tstamp : ℕ}
    (tombstone : Bool) (fits : Fits key value tstamp) where
  open fits use {key_fits, value_fits, tstamp_fits}

  word : ℕ
  word = encode_key_size (length key) tombstone

  abbrev checked : Bytes
  checked =
      to_le_bytes 4 tstamp
      ++ (to_le_bytes 4 word ++ (to_le_bytes 4 (length value) ++ (key ++ value)))

  abbrev head : ℕ → Bytes
  head crc = header_bytes crc tstamp word (length value)

  encode_entry_layout :
      (encode_entry crc32 key value tombstone tstamp).bytes
      ≡ head (crc32.hash checked) ++ (key ++ value)
  unfolding encode_entry word
  encode_entry_layout =
      rw
        (
          mod-eq_of_lt {n = length key} {m = u32_mod} (omega arith),
          mod-eq_of_lt {n = length value} {m = u32_mod} value_fits,
        )
        refl

  decode_head :
      (crc : ℕ)
      → crc < 2 ^ 32
      → decode_entry_header (head crc) ≡ (crc, (entry_of key value tombstone tstamp).header)
  unfolding word
  decode_head crc h =
      decode_entry_header_lem h tstamp_fits (encode_key_size-lt _ tombstone key_fits) value_fits
      ∙ rw (decode_key_size-encode_key_size (length key) tombstone key_fits)

  body_len-head : (crc : ℕ) → crc < 2 ^ 32 → body_len crc32 (head crc) ≡ length (key ++ value)
  unfolding body_len
  body_len-head crc h = rw (decode_head crc h) (omega (arith, length-append key value))

  -- The checksum decides whether a complete entry is accepted.
  check_body-head :
      (crc : ℕ)
      → crc < 2 ^ 32
      → check_body crc32 (head crc) (key ++ value) ≡ (
          if not (crc32.hash checked == crc)
          then crc_mismatch (16 + length (key ++ value))
          else EntryRead.ok (entry_of key value tombstone tstamp) (16 + length (key ++ value)))
  unfolding check_body
  check_body-head crc h = rw (decode_head crc h, take-length, drop-length) refl

  abbrev pub total_len : ℕ
  total_len = length (encode_entry crc32 key value tombstone tstamp).bytes

  pub total_len_lem : total_len ≡ 16 + length (key ++ value)
  total_len_lem = rw encode_entry_layout (omega arith)

  -- An encoded entry at the front of the bytes is parsed, with its length, whatever follows it.
  pub parse_entry-encode_entry :
      (rest : Bytes)
      → parse_entry crc32 ((encode_entry crc32 key value tombstone tstamp).bytes ++ rest)
        ≡ (some (EntryRead.ok (entry_of key value tombstone tstamp) total_len), rest)
  parse_entry-encode_entry rest =
      let crc = crc32.hash checked in
      let lt : crc < 2 ^ 32 = crc32.hash-lt checked in
      rw (total_len_lem, encode_entry_layout)
        (parse_entry-whole crc32 crc tstamp word (length value) (key ++ value) rest
            (body_len-head crc lt)
          ∙ ap (λ e. (some e, rest)) (check_body-head crc lt ∙ rw (==-refl crc)))

  -- A complete entry whose stored checksum is another number is parsed as a mismatch.
  parse_entry-mismatch :
      (crc : ℕ) (rest : Bytes)
      → crc < 2 ^ 32
      → crc ≢ crc32.hash checked
      → parse_entry crc32 (head crc ++ (key ++ (value ++ rest)))
        ≡ (some (crc_mismatch total_len), rest)
  parse_entry-mismatch crc rest lt ne =
      rw (total_len_lem, ← append_assoc key value rest)
        (parse_entry-whole crc32 crc tstamp word (length value) (key ++ value) rest
            (body_len-head crc lt)
          ∙ ap (λ e. (some e, rest))
              (check_body-head crc lt ∙ rw (==-ne (crc32.hash checked) crc (λ e. ne (sym e)))))

  -- The same said of the encoded entry, with another number for its first four bytes.
  pub parse_entry-bitrot :
      (crc : ℕ) (rest : Bytes)
      → crc < 2 ^ 32
      → crc ≢ crc32.hash (drop 4 (encode_entry crc32 key value tombstone tstamp).bytes)
      → parse_entry crc32 (
          to_le_bytes 4 crc
          ++ (drop 4 (encode_entry crc32 key value tombstone tstamp).bytes ++ rest))
        ≡ (some (crc_mismatch total_len), rest)
  parse_entry-bitrot crc rest lt ne =
      ap (parse_entry crc32) (rw (encode_entry_layout, append_assoc))
      ∙ parse_entry-mismatch crc rest lt (λ same. ne (same ∙ rw encode_entry_layout))

  -- What is left of an encoded entry that was cut off.
  pub parse_entry-torn :
      (front back : Bytes)
      → front ++ back ≡ (encode_entry crc32 key value tombstone tstamp).bytes
      → 0 < length front
      → 0 < length back
      → parse_entry crc32 front ≡ (some truncated, [])
  parse_entry-torn front back e hf hb =
      let crc = crc32.hash checked in
      parse_entry-part crc32 crc tstamp word (length value) (key ++ value) front back
        (body_len-head crc (crc32.hash-lt checked)) (e ∙ encode_entry_layout) hf hb

  module _ (r : Reader) (calm : NoFault r.plan) where
    -- `read_entry` returns what `encode_entry` was given, with the length of the entry on disk,
    -- and stops right behind the entry, however the reads are cut up, as long as the key is
    -- shorter than 2 ^ 31 bytes, the value than 2 ^ 32, the timestamp has 32 bits, and no read
    -- fails.
    pub read_entry-encode_entry :
        (rest : Bytes)
        → r.rest ≡ (encode_entry crc32 key value tombstone tstamp).bytes ++ rest
        → Reads
            (read_entry crc32)
            r
            (some (EntryRead.ok (entry_of key value tombstone tstamp) total_len))
            rest
    read_entry-encode_entry rest e =
        Reads-eq (read_entry-parse crc32 r calm)
          (ap (parse_entry crc32) e ∙ parse_entry-encode_entry rest)

    -- Where no read fails, a complete entry whose sizes fit the header and whose stored checksum
    -- is any but the right one is read as a mismatch with its whole length, and reading goes on
    -- right behind it.
    pub read_entry-mismatch :
        (crc : ℕ) (rest : Bytes)
        → crc < 2 ^ 32
        → crc ≢ crc32.hash (drop 4 (encode_entry crc32 key value tombstone tstamp).bytes)
        → r.rest
          ≡ to_le_bytes 4 crc
            ++ (drop 4 (encode_entry crc32 key value tombstone tstamp).bytes ++ rest)
        → Reads (read_entry crc32) r (some (crc_mismatch total_len)) rest
    read_entry-mismatch crc rest lt ne e =
        Reads-eq (read_entry-parse crc32 r calm)
          (ap (parse_entry crc32) e ∙ parse_entry-bitrot crc rest lt ne)

    -- Where no read fails, a torn write, that is any part of an encoded entry from its first byte
    -- on and not up to its last, is read as truncated, and leaves nothing to read. The entry's
    -- sizes fit the header.
    pub read_entry-torn :
        (back : Bytes)
        → r.rest ++ back ≡ (encode_entry crc32 key value tombstone tstamp).bytes
        → 0 < length r.rest
        → 0 < length back
        → Reads (read_entry crc32) r (some truncated) []
    read_entry-torn back e hf hb =
        Reads-eq (read_entry-parse crc32 r calm) (parse_entry-torn r.rest back e hf hb)
