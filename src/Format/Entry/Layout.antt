-- ===== src/Format/Entry/Layout.antt =====
-- src/format/entry.rs: the bytes of an entry, field by field, and how they are parsed.
use yabiir.Base.{
  ℕ, ◌+◌, ◌^◌, ◌≤◌, ◌<◌, ◌≡◌, refl, ap, sym, ◌∙◌, some, [], ◌++◌, Bytes, length, take, drop,
  length-append, length-drop, take-length, drop-length, arith, le→ltb-false, lt→ltb, take-eq_of_le,
  drop-eq_of_le, take-append_of_le,
}
use native.Mathlib.Decide.{dec_le}
use yabiir.Crc32.{Crc32}
use yabiir.Format.{decode_key_size, to_le_bytes}
use yabiir.Format.Words.{from_le_bytes-to_le_bytes}
use yabiir.Format.Entry.{truncated, decode_entry_header, check_body, body_len}
use yabiir.Format.Entry.Parse.{parse_entry}

-- The sixteen bytes of a header with these words.
abbrev pub header_bytes : ℕ → ℕ → ℕ → ℕ → Bytes
header_bytes crc t k v =
    to_le_bytes 4 crc ++ (to_le_bytes 4 t ++ (to_le_bytes 4 k ++ to_le_bytes 4 v))

pub decode_entry_header_lem :
    {crc t k v : ℕ}
    → crc < 2 ^ 32
    → t < 2 ^ 32
    → k < 2 ^ 32
    → v < 2 ^ 32
    → decode_entry_header (header_bytes crc t k v) ≡ (
      crc,
      record {
        timestamp = t;
        key_size = (decode_key_size k).0;
        value_size = v;
        tombstone = (decode_key_size k).1;
      },
    )
unfolding decode_entry_header
decode_entry_header_lem {crc} {t} {k} {v} hc ht hk hv =
    rw
      (
        from_le_bytes-to_le_bytes 4 crc hc,
        from_le_bytes-to_le_bytes 4 t ht,
        from_le_bytes-to_le_bytes 4 k hk,
        from_le_bytes-to_le_bytes 4 v hv,
      )
      refl

module _ {Hasher : Type 0} (crc32 : Crc32 Hasher) where
  -- A header with a body of the length that it tells is parsed as a whole.
  pub parse_entry-whole :
      (crc t k v : ℕ) (body rest : Bytes)
      → body_len crc32 (header_bytes crc t k v) ≡ length body
      → parse_entry crc32 (header_bytes crc t k v ++ (body ++ rest))
        ≡ (some (check_body crc32 (header_bytes crc t k v) body), rest)
  unfolding parse_entry
  parse_entry-whole crc t k v body rest e =
      rw (e, take-length, drop-length, le→ltb-false (length body) (length body) (omega arith)) refl

  -- A part of the entry, cut off before its end, is parsed as truncated, and nothing is left.
  pub parse_entry-part :
      (crc t k v : ℕ) (body front back : Bytes)
      → body_len crc32 (header_bytes crc t k v) ≡ length body
      → front ++ back ≡ header_bytes crc t k v ++ body
      → 0 < length front
      → 0 < length back
      → parse_entry crc32 front ≡ (some truncated, [])
  unfolding parse_entry
  parse_entry-part crc t k v body front back e whole hf hb = elim (dec_le 16 (length front)) [
    | no short ↦
        let le : length front ≤ 16 = omega arith in
        rw (take-eq_of_le 16 front le, drop-eq_of_le 16 front le) (ground arith)
    | yes long ↦
        let head : take 16 front ≡ header_bytes crc t k v =
          sym (take-append_of_le 16 front back long) ∙ ap (take 16) whole in
        let len : length front + length back ≡ 16 + length body =
          sym (length-append front back)
          ∙ ap length whole
          ∙ length-append (header_bytes crc t k v) body in
        let behind : length (drop 16 front) < length body = omega (arith, length-drop 16 front) in
        let le : length (drop 16 front) ≤ length body = omega arith in
        rw
          (
            head,
            e,
            take-eq_of_le (length body) (drop 16 front) le,
            drop-eq_of_le (length body) (drop 16 front) le,
            lt→ltb (length (drop 16 front)) (length body) behind,
          )
          refl
  ]
