-- ===== src/Format/Hint/Trailer.antt =====
-- src/format/hint.rs: the checksum of a whole hint file.
use yabiir.Base.{
  ◌-◌, ◌≡◌, refl, some, ◌++◌, Bytes, length, drop, length-append, take-length, drop-length,
  take-append-drop, length-drop, arith, le→ltb-false, ==-refl,
}
use yabiir.Crc32.{Crc32}
use yabiir.Format.{to_le_bytes, from_le_bytes}
use yabiir.Format.Words.{from_le_bytes-to_le_bytes}
use yabiir.Format.Hint.{verify_hint_file}

module _ {Hasher : Type 0} (crc32 : Crc32 Hasher) where
  -- Records followed by their own checksum are accepted, and the trailer is taken off.
  pub verify_hint_file-closed :
      (content : Bytes)
      → verify_hint_file crc32 (content ++ to_le_bytes 4 (crc32.hash content)) ≡ some content
  unfolding verify_hint_file
  verify_hint_file-closed content =
      let trailer = to_le_bytes 4 (crc32.hash content) in
      let e : length (content ++ trailer) - 4 ≡ length content =
        omega (arith, length-append content trailer) in
      rw
        (
          le→ltb-false (length (content ++ trailer)) 4
              (omega (arith, length-append content trailer)),
          e,
          take-length,
          drop-length,
          from_le_bytes-to_le_bytes 4 (crc32.hash content) (crc32.hash-lt content),
          ==-refl (crc32.hash content),
        )
        refl

  -- A file is accepted only with a checksum of four bytes behind the records that are returned.
  pub verify_hint_file_sound :
      (bytes content : Bytes)
      → verify_hint_file crc32 bytes ≡ some content
      → (trailer : Bytes) × (bytes ≡ content ++ trailer)
        × (length trailer ≡ 4)
        × (from_le_bytes trailer ≡ crc32.hash content)
  unfolding verify_hint_file
  verify_hint_file_sound bytes content h = (
    drop (length bytes - 4) bytes,
    ground (arith, take-append-drop (length bytes - 4) bytes),
    ground (arith, length-drop (length bytes - 4) bytes),
    ground arith,
  )
