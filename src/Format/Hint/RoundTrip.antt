-- ===== src/Format/Hint/RoundTrip.antt =====
-- src/format/hint.rs: what `encode_hint` writes is what `read_hint` reads.
use yabiir.Base.{
  ℕ, ◌^◌, ◌<◌, ◌≡◌, refl, ap, ◌∙◌, Option, none, some, ◌++◌, Bytes, length, take, drop, take-length,
  drop-length, ltb, ◌==◌, if◌then◌else◌, arith, le→ltb-false,
}
use yabiir.Io.Read.{Reader, read_up_to}
use yabiir.Io.Read.Laws.{
  NoFault, Reads, Reads-bind, Reads-if, Reads-pure, Reads-eq, read_up_to-Reads, read_up_to-Reads_of,
}
use yabiir.Format.{encode_key_size, to_le_bytes}
use yabiir.Format.Words.{
  from_le_bytes-to_le_bytes, encode_key_size-lt, decode_key_size-encode_key_size,
}
use yabiir.Format.Hint.{
  Hint, HintRead, truncated, hint_header_size, encode_hint, decode_hint_header, hint_of, read_hint,
}

unfoldable pub parse_key : Bytes → Bytes → Option HintRead × Bytes
parse_key header_buf rest =
    let size = (decode_hint_header header_buf).0.key_size in
    if ltb (length (take size rest)) size
    then (some truncated, drop size rest)
    else (some (hint_of (decode_hint_header header_buf) (take size rest)), drop size rest)

-- The record at the front of the bytes, and the bytes behind it.
unfoldable pub parse_hint : Bytes → Option HintRead × Bytes
unfolding parse_key
parse_hint bytes =
    let header_buf = take hint_header_size bytes in
    let behind = drop hint_header_size bytes in
    if length header_buf == 0
    then (none, behind)
    else if ltb (length header_buf) hint_header_size
    then (some truncated, behind)
    else parse_key header_buf behind

-- `read_hint` returns the record at the front of the input and stops behind it, into however many
-- reads the operating system cuts its requests, as long as no read fails.
pub read_hint-parse :
    (r : Reader) → NoFault r.plan → Reads read_hint r (parse_hint r.rest).0 (parse_hint r.rest).1
unfolding read_hint parse_hint
read_hint-parse r calm =
    let head = read_up_to-Reads hint_header_size r calm in
    let header_buf = take hint_header_size r.rest in
    let behind = drop hint_header_size r.rest in
    let size = (decode_hint_header header_buf).0.key_size in
    let key =
      read_up_to-Reads_of size (read_up_to hint_header_size r).1 behind head.left head.calm in
    let found = hint_of (decode_hint_header header_buf) (take size behind) in
    Reads-bind (read_up_to hint_header_size) _ head (
      Reads-if (length header_buf == 0) _ _ _ (none, behind) _
        (λ _. Reads-pure none _ behind head.left head.calm)
        (λ _.
          Reads-if (ltb (length header_buf) hint_header_size) _ _ _ (some truncated, behind) _
            (λ _. Reads-pure (some truncated) _ behind head.left head.calm)
            (λ _. Reads-bind (read_up_to size) _ key (
              Reads-if (ltb (length (take size behind)) size) _ _ _
                (some truncated, drop size behind) (some found, drop size behind)
                (λ _. Reads-pure _ _ _ key.left key.calm)
                (λ _. Reads-pure _ _ _ key.left key.calm)))))

-- What the words of a record can hold. The record's key has the length that its header tells.
pub record HintFits (hint : Hint) : Type 0 where
  pub key_size : hint.header.key_size ≡ length hint.key
  pub key_fits : length hint.key < 2 ^ 31
  pub value_fits : hint.header.value_size < 2 ^ 32
  pub tstamp_fits : hint.header.timestamp < 2 ^ 32
  pub pos_fits : hint.value_pos < 2 ^ 64

module _ (hint : Hint) (fits : HintFits hint) where
  open fits use {key_size, key_fits, value_fits, tstamp_fits, pos_fits}

  word : ℕ
  word = encode_key_size hint.header.key_size hint.header.tombstone

  abbrev head : Bytes
  head =
      to_le_bytes 4 hint.header.timestamp
      ++ (to_le_bytes 4 word
          ++ (to_le_bytes 4 hint.header.value_size ++ to_le_bytes 8 hint.value_pos))

  decode_head : decode_hint_header head ≡ (hint.header, hint.value_pos)
  unfolding decode_hint_header word
  decode_head =
      let small : hint.header.key_size < 2 ^ 31 = omega arith in
      rw
        (
          from_le_bytes-to_le_bytes 4 hint.header.timestamp tstamp_fits,
          from_le_bytes-to_le_bytes 4 word (encode_key_size-lt _ _ small),
          from_le_bytes-to_le_bytes 4 hint.header.value_size value_fits,
          from_le_bytes-to_le_bytes 8 hint.value_pos pos_fits,
          decode_key_size-encode_key_size _ _ small,
        )
        refl

  pub parse_hint-encode_hint :
      (rest : Bytes)
      → parse_hint (encode_hint hint.key hint.header hint.value_pos ++ rest)
        ≡ (some (HintRead.ok hint), rest)
  unfolding parse_hint encode_hint hint_of word
  parse_hint-encode_hint rest =
      rw
        (
          decode_head,
          key_size,
          take-length,
          drop-length,
          le→ltb-false (length hint.key) (length hint.key) (omega arith),
        )
        refl

  -- `read_hint` returns the record that `encode_hint` was given and stops right behind it, however
  -- the reads are cut up, as long as the fields fit their words and no read fails.
  pub read_hint-encode_hint :
      (r : Reader) (rest : Bytes)
      → NoFault r.plan
      → r.rest ≡ encode_hint hint.key hint.header hint.value_pos ++ rest
      → Reads read_hint r (some (HintRead.ok hint)) rest
  read_hint-encode_hint r rest calm e =
      Reads-eq (read_hint-parse r calm) (ap parse_hint e ∙ parse_hint-encode_hint rest)
