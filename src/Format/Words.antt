-- ===== src/Format/Words.antt =====
-- src/format/mod.rs: the key-size word and the integers of a header are read back as written.
use yabiir.Base.{
  ℕ, zero, suc, ◌-◌, ◌*◌, ◌/◌, ◌%◌, ◌^◌, ◌<◌, ◌≤◌, ◌≡◌, refl, ap, Bool, true, false, not, arith,
  ◌==◌, All, length,
}
use yabiir.Base.Bits.{bit_or-top, bit_and-mask, bit_and-top, bit_or-zero}
use yabiir.Format.{to_le_bytes, from_le_bytes, encode_key_size, decode_key_size}
use native.Mathlib.Nat.{pow-suc}

abbrev pub IsByte : ℕ → Type 0
IsByte b = b < 256

-- An integer that fits `w` bytes is read back from its `w` bytes.
pub from_le_bytes-to_le_bytes : (w n : ℕ) → n < 256 ^ w → from_le_bytes (to_le_bytes w n) ≡ n
from_le_bytes-to_le_bytes zero n h = omega arith
from_le_bytes-to_le_bytes (suc w) n h =
    omega (arith, from_le_bytes-to_le_bytes w (n / 256) (omega (arith, pow-suc 256 w)))

pub to_le_bytes-IsByte : (w n : ℕ) → All IsByte (to_le_bytes w n)
to_le_bytes-IsByte zero n = tt
to_le_bytes-IsByte (suc w) n = (omega arith, to_le_bytes-IsByte w (n / 256))

pub length-to_le_bytes : (w n : ℕ) → length (to_le_bytes w n) ≡ w
length-to_le_bytes zero n = refl
length-to_le_bytes (suc w) n = ap suc (length-to_le_bytes w (n / 256))

decode_key_size_lem :
    (raw : ℕ) → decode_key_size raw ≡ (raw % 2 ^ 31, not (raw / 2 ^ 31 % 2 * 2 ^ 31 == 0))
unfolding decode_key_size
decode_key_size_lem raw = rw (bit_and-mask 31 raw, bit_and-top 31 raw)

pub encode_key_size-lt :
    (n : ℕ) (tombstone : Bool) → n < 2 ^ 31 → encode_key_size n tombstone < 2 ^ 32
unfolding encode_key_size
encode_key_size-lt n true h = rw (bit_or-top 31 n h) (omega arith)
encode_key_size-lt n false h = rw bit_or-zero (omega arith)

-- A key length below 2 ^ 31 and the tombstone flag are both read back from the one word.
pub decode_key_size-encode_key_size :
    (n : ℕ) (tombstone : Bool)
    → n < 2 ^ 31
    → decode_key_size (encode_key_size n tombstone) ≡ (n, tombstone)
unfolding encode_key_size
decode_key_size-encode_key_size n true h =
    rw (bit_or-top 31 n h, decode_key_size_lem) (ground arith)
decode_key_size-encode_key_size n false h = rw (bit_or-zero, decode_key_size_lem) (ground arith)

-- A longer key is not cut to 31 bits: its top bit is read back as the tombstone flag.
pub decode_key_size-long_key :
    (n : ℕ)
    → 2 ^ 31 ≤ n
    → n < 2 ^ 32
    → decode_key_size (encode_key_size n false) ≡ (n - 2 ^ 31, true)
unfolding encode_key_size
decode_key_size-long_key n h k = rw (bit_or-zero, decode_key_size_lem) (ground arith)
