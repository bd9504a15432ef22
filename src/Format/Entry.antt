-- ===== src/Format/Entry.antt =====
-- src/format/entry.rs: entries of a data file.
pub mod Parse
pub mod RoundTrip
pub mod Layout
pub mod Found
use yabiir.Base.{
  ℕ, ◌+◌, ◌%◌, Bool, not, Option, none, some, ◌++◌, Bytes, length, take, drop, slice, ltb, ◌==◌,
  if◌then◌else◌,
}
use yabiir.Crc32.{Crc32}
use yabiir.Io.{Exec, pure, ◌>>=◌}
use yabiir.Io.Read.{Reader, read_up_to}
use yabiir.Format.{
  EntryHeader, u32_mod, encode_key_size, decode_key_size, to_le_bytes, from_le_bytes,
}

abbrev pub header_size : ℕ
header_size = 16

pub record Entry : Type 0 where
  pub header : EntryHeader
  pub key : Bytes
  pub value : Bytes

abbrev pub is_tombstone : Entry → Bool
is_tombstone e = e.header.tombstone

pub record EncodedEntry : Type 0 where
  pub bytes : Bytes
  pub value_len : ℕ

-- The result of reading one entry; `ok` and `crc_mismatch` carry the entry's length on disk.
pub data EntryRead : Type 0 where
  ok : Entry → ℕ → EntryRead
  truncated : EntryRead
  crc_mismatch : ℕ → EntryRead

-- The CRC and the header fields; `buf` has `header_size` bytes.
unfoldable pub decode_entry_header : Bytes → ℕ × EntryHeader
decode_entry_header buf =
    let (ksz, tombstone) = decode_key_size (from_le_bytes (slice 8 12 buf)) in
    (
      from_le_bytes (slice 0 4 buf),
      record {
        timestamp = from_le_bytes (slice 4 8 buf);
        key_size = ksz;
        value_size = from_le_bytes (slice 12 16 buf);
        tombstone = tombstone;
      },
    )

module _ {Hasher : Type 0} (crc32 : Crc32 Hasher) where
  -- The first four bytes are a place for the checksum of all that follow.
  unfoldable pub encode_entry : Bytes → Bytes → Bool → ℕ → EncodedEntry
  encode_entry key value tombstone tstamp =
      let ksz_and_flags = encode_key_size (length key % u32_mod) tombstone in
      let value_sz = length value % u32_mod in
      let buf =
        to_le_bytes 4 0
        ++ (to_le_bytes 4 tstamp
            ++ (to_le_bytes 4 ksz_and_flags ++ (to_le_bytes 4 value_sz ++ (key ++ value)))) in
      let crc = crc32.hash (drop 4 buf) in
      record { bytes = to_le_bytes 4 crc ++ drop 4 buf; value_len = length value }

  unfoldable pub verify_crc : ℕ → Bytes → Bool
  verify_crc crc rest_of_entry = crc32.hash rest_of_entry == crc

  -- What a complete body makes of the entry.
  unfoldable pub check_body : Bytes → Bytes → EntryRead
  unfolding verify_crc
  check_body header_buf body =
      let (crc, header) = decode_entry_header header_buf in
      let total_len = header_size + length body in
      if not (verify_crc crc (drop 4 header_buf ++ body))
      then crc_mismatch total_len
      else EntryRead.ok
          (record {
            header = header;
            key = take header.key_size body;
            value = drop header.key_size body;
          })
          total_len

  unfoldable pub body_len : Bytes → ℕ
  body_len header_buf =
      let (_, header) = decode_entry_header header_buf in header.key_size + header.value_size

  -- `none` is a clean end of the file.
  unfoldable pub read_entry : Exec Reader (Option EntryRead)
  unfolding check_body body_len
  read_entry = read_up_to header_size >>= λ header_buf.
      if length header_buf == 0
      then pure none
      else if ltb (length header_buf) header_size
      then pure (some truncated)
      else (read_up_to (body_len header_buf) >>= λ body.
          if ltb (length body) (body_len header_buf)
          then pure (some truncated)
          else pure (some (check_body header_buf body)))
