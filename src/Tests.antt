-- ===== src/Tests.antt =====
-- The theorems at concrete inputs. The checksum is a rolling sum that stands for crc32fast.
pub mod Store
pub mod Writes
pub mod Threads
pub mod Merging
pub mod Session
use yabiir.Base.{
  ℕ, ◌+◌, ◌*◌, ◌%◌, ◌^◌, ◌<◌, ◌≡◌, ◌≢◌, refl, sym, ap, ◌∙◌, Bool, true, false, Option, none, some,
  List, [], ◌∷◌, ◌++◌, Bytes, length, take, drop, take-append-drop, length-take, length-drop, All,
  arith,
}
use yabiir.Base.Map
use yabiir.Crc32.{Crc32}
use yabiir.Error.{ok, err}
use yabiir.Io.{part, fail, full}
use yabiir.Io.Read.{Reader, read_up_to}
use yabiir.Recovery.{hint_loop}
use yabiir.Recovery.Hints.{Ends, hint_loop-Ends}
use yabiir.Io.Read.Laws.{Reads, read_up_to-Reads}
use yabiir.Format.{EntryHeader, to_le_bytes, from_le_bytes, encode_key_size, decode_key_size}
use yabiir.Format.Words.{decode_key_size-encode_key_size, decode_key_size-long_key}
use yabiir.Format.Entry.{EntryRead, truncated, crc_mismatch, EncodedEntry, encode_entry, read_entry}
use yabiir.Format.Entry.RoundTrip.{
  Fits, entry_of, total_len, total_len_lem, read_entry-encode_entry, read_entry-mismatch,
  read_entry-torn,
}
use yabiir.Format.Hint.{Hint, HintRead, encode_hint, read_hint, verify_hint_file}
use yabiir.Format.Hint.RoundTrip.{HintFits, read_hint-encode_hint}
use yabiir.Format.Hint.Trailer.{verify_hint_file-closed, verify_hint_file_sound}

abbrev pub rolling_sum : ℕ → Bytes → ℕ
rolling_sum h [] = h
rolling_sum h (b ∷ bytes) = rolling_sum ((h * 31 + b) % 2 ^ 32) bytes

pub rolling_sum-append :
    (h : ℕ) (xs ys : Bytes) → rolling_sum h (xs ++ ys) ≡ rolling_sum (rolling_sum h xs) ys
rolling_sum-append h [] ys = refl
rolling_sum-append h (x ∷ xs) ys = rolling_sum-append ((h * 31 + x) % 2 ^ 32) xs ys

abbrev pub toy_crc32 : Crc32 ℕ
toy_crc32 = record {
  new = 7;
  update = rolling_sum;
  finalize = λ h. h % 2 ^ 32;
  hash = λ bytes. rolling_sum 7 bytes % 2 ^ 32;
  hash_lem = λ bytes. refl;
  update-nil = λ h. refl;
  update-append = rolling_sum-append;
  hash-lt = λ bytes. omega arith;
}

abbrev pub key_a : Bytes
key_a = 97 ∷ []

abbrev pub key_b : Bytes
key_b = 98 ∷ 98 ∷ []

abbrev pub value_a : Bytes
value_a = 1 ∷ 2 ∷ 3 ∷ []

abbrev pub fits_a : Fits key_a value_a 5
fits_a = record { key_fits = omega arith; value_fits = omega arith; tstamp_fits = omega arith }

abbrev pub encoded_a : Bytes
encoded_a = (encode_entry toy_crc32 key_a value_a false 5).bytes

abbrev pub whole_a : ℕ
whole_a = total_len toy_crc32 false fits_a

decode_key_size-encode_key_size_example : decode_key_size (encode_key_size 3 true) ≡ (3, true)
decode_key_size-encode_key_size_example = decode_key_size-encode_key_size 3 true (omega arith)

-- A key of 2 ^ 31 + 3 bytes.
decode_key_size-long_key_example : decode_key_size (encode_key_size 2147483651 false) ≡ (3, true)
decode_key_size-long_key_example = decode_key_size-long_key 2147483651 (omega arith) (omega arith)

-- Reads in three pieces.
read_up_to-Reads_example :
    Reads
      (read_up_to 3)
      (record { rest = 1 ∷ 2 ∷ 3 ∷ 4 ∷ []; plan = part 0 ∷ part 0 ∷ full ∷ [] })
      (1 ∷ 2 ∷ 3 ∷ [])
      (4 ∷ [])
read_up_to-Reads_example =
    read_up_to-Reads 3 (record { rest = 1 ∷ 2 ∷ 3 ∷ 4 ∷ []; plan = part 0 ∷ part 0 ∷ full ∷ [] })
      (tt, (tt, (tt, tt)))

abbrev whole_reader : Reader
whole_reader = record { rest = encoded_a ++ key_b; plan = part 2 ∷ [] }

read_entry-encode_entry_example :
    Reads
      (read_entry toy_crc32)
      whole_reader
      (some (EntryRead.ok (entry_of key_a value_a false 5) whole_a))
      key_b
read_entry-encode_entry_example =
    read_entry-encode_entry toy_crc32 false fits_a whole_reader (tt, tt) key_b refl

abbrev rotten_reader : Reader
rotten_reader = record { rest = to_le_bytes 4 9 ++ (drop 4 encoded_a ++ key_b); plan = [] }

read_entry-mismatch_example :
    Reads (read_entry toy_crc32) rotten_reader (some (crc_mismatch whole_a)) key_b
unfolding encode_entry
read_entry-mismatch_example =
    read_entry-mismatch toy_crc32 false fits_a rotten_reader tt 9 key_b (omega arith) (omega arith)
      refl

abbrev torn_reader : Reader
torn_reader = record { rest = take 5 encoded_a; plan = [] }

read_entry-torn_example : Reads (read_entry toy_crc32) torn_reader (some truncated) []
read_entry-torn_example =
    read_entry-torn toy_crc32 false fits_a torn_reader tt (drop 5 encoded_a)
      (take-append-drop 5 encoded_a)
      (omega (arith, length-take 5 encoded_a, total_len_lem toy_crc32 false fits_a))
      (omega (arith, length-drop 5 encoded_a, total_len_lem toy_crc32 false fits_a))

abbrev hint_a : Hint
hint_a = record {
  header = record { timestamp = 5; key_size = 1; value_size = 3; tombstone = false };
  value_pos = 17;
  key = key_a;
}

abbrev hint_bytes_a : Bytes
hint_bytes_a = encode_hint hint_a.key hint_a.header hint_a.value_pos

abbrev hint_reader : Reader
hint_reader = record { rest = hint_bytes_a ++ key_b; plan = part 3 ∷ [] }

hint_loop-Ends_example : Ends (hint_loop 99 20 []) hint_reader
unfolding encode_hint
hint_loop-Ends_example = hint_loop-Ends 99 20 [] hint_reader (omega arith) (tt, tt)

read_hint-encode_hint_example : Reads read_hint hint_reader (some (HintRead.ok hint_a)) key_b
read_hint-encode_hint_example =
    read_hint-encode_hint hint_a
      (record {
        key_size = refl;
        key_fits = omega arith;
        value_fits = omega arith;
        tstamp_fits = omega arith;
        pos_fits = omega arith;
      })
      hint_reader key_b (tt, tt) refl

verify_hint_file-closed_example :
    verify_hint_file toy_crc32 (hint_bytes_a ++ to_le_bytes 4 (toy_crc32.hash hint_bytes_a))
    ≡ some hint_bytes_a
verify_hint_file-closed_example = verify_hint_file-closed toy_crc32 hint_bytes_a

abbrev closed_a : Bytes
closed_a = hint_bytes_a ++ to_le_bytes 4 (toy_crc32.hash hint_bytes_a)

verify_hint_file_sound_example :
    (trailer : Bytes) × (closed_a ≡ hint_bytes_a ++ trailer)
    × (length trailer ≡ 4)
    × (from_le_bytes trailer ≡ toy_crc32.hash hint_bytes_a)
verify_hint_file_sound_example =
    verify_hint_file_sound toy_crc32 closed_a hint_bytes_a
      (verify_hint_file-closed toy_crc32 hint_bytes_a)
