-- ===== src/Format/Hint.antt =====
-- src/format/hint.rs: records of a hint file, and the checksum at its end.
pub mod RoundTrip
pub mod Trailer
use yabiir.Base.{
  ℕ, ◌+◌, ◌-◌, Option, none, some, ◌++◌, Bytes, length, take, drop, slice, ltb, ◌==◌, if◌then◌else◌,
}
use yabiir.Crc32.{Crc32}
use yabiir.Io.{Exec, pure, ◌>>=◌}
use yabiir.Io.Read.{Reader, read_up_to}
use yabiir.Format.{EntryHeader, encode_key_size, decode_key_size, to_le_bytes, from_le_bytes}

abbrev pub hint_header_size : ℕ
hint_header_size = 20

abbrev pub hint_trailer_size : ℕ
hint_trailer_size = 4

-- What a record says: `HintRead::Ok`.
pub record Hint : Type 0 where
  pub header : EntryHeader
  pub value_pos : ℕ
  pub key : Bytes

pub data HintRead : Type 0 where
  ok : Hint → HintRead
  truncated : HintRead

-- The bytes of the record: `EncodedHint`.
unfoldable pub encode_hint : Bytes → EntryHeader → ℕ → Bytes
encode_hint key header value_pos =
    to_le_bytes 4 header.timestamp
    ++ (to_le_bytes 4 (encode_key_size header.key_size header.tombstone)
        ++ (to_le_bytes 4 header.value_size ++ (to_le_bytes 8 value_pos ++ key)))

-- `buf` has `hint_header_size` bytes.
unfoldable pub decode_hint_header : Bytes → EntryHeader × ℕ
decode_hint_header buf =
    let (ksz, tombstone) = decode_key_size (from_le_bytes (slice 4 8 buf)) in
    (
      record {
        timestamp = from_le_bytes (slice 0 4 buf);
        key_size = ksz;
        value_size = from_le_bytes (slice 8 12 buf);
        tombstone = tombstone;
      },
      from_le_bytes (slice 12 20 buf),
    )

unfoldable pub hint_of : EntryHeader × ℕ → Bytes → HintRead
hint_of (header, value_pos) key =
    HintRead.ok (record { header = header; value_pos = value_pos; key = key })

-- `none` is a clean end of the records.
unfoldable pub read_hint : Exec Reader (Option HintRead)
unfolding hint_of
read_hint = read_up_to hint_header_size >>= λ header_buf.
    if length header_buf == 0
    then pure none
    else if ltb (length header_buf) hint_header_size
    then pure (some truncated)
    else (read_up_to (decode_hint_header header_buf).0.key_size >>= λ key.
        if ltb (length key) (decode_hint_header header_buf).0.key_size
        then pure (some truncated)
        else pure (some (hint_of (decode_hint_header header_buf) key)))

-- The records without the trailer, if the trailer is their checksum.
unfoldable pub verify_hint_file : {Hasher : Type 0} → Crc32 Hasher → Bytes → Option Bytes
verify_hint_file crc32 bytes =
    if ltb (length bytes) hint_trailer_size
    then none
    else let content = take (length bytes - hint_trailer_size) bytes in
      let trailer = drop (length bytes - hint_trailer_size) bytes in
      if crc32.hash content == from_le_bytes trailer then some content else none
