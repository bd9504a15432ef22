-- ===== src/Format.antt =====
-- src/format/mod.rs: what data-file entries and hint records have in common. A byte is a number
-- below 256, and `usize` has 64 bits. The build is a release build: `debug_assert!` does nothing.
pub mod Words
pub mod Entry
pub mod Hint
use yabiir.Base.{
  ℕ, zero, suc, ◌+◌, ◌-◌, ◌*◌, ◌/◌, ◌%◌, ◌^◌, bit_and, bit_or, Bool, true, false, not, List, [],
  ◌∷◌, Bytes, ◌==◌, if◌then◌else◌,
}

abbrev pub u32_mod : ℕ
u32_mod = 2 ^ 32

abbrev pub u64_mod : ℕ
u64_mod = 2 ^ 64

abbrev pub tombstone_bit : ℕ
tombstone_bit = 2 ^ 31

-- `!TOMBSTONE_BIT`
abbrev pub keysize_mask : ℕ
keysize_mask = 2 ^ 31 - 1

abbrev pub max_key_len : ℕ
max_key_len = keysize_mask

pub record EntryHeader : Type 0 where
  pub timestamp : ℕ
  pub key_size : ℕ
  pub value_size : ℕ
  pub tombstone : Bool

unfoldable pub encode_key_size : ℕ → Bool → ℕ
encode_key_size key_len tombstone = bit_or key_len (if tombstone then tombstone_bit else 0)

unfoldable pub decode_key_size : ℕ → ℕ × Bool
decode_key_size raw = (bit_and raw keysize_mask, not (bit_and raw tombstone_bit == 0))

-- `to_le_bytes` of an integer of `w` bytes, and `from_le_bytes`
abbrev pub to_le_bytes : ℕ → ℕ → Bytes
to_le_bytes zero n = []
to_le_bytes (suc w) n = (n % 256) ∷ to_le_bytes w (n / 256)

abbrev pub from_le_bytes : Bytes → ℕ
from_le_bytes [] = 0
from_le_bytes (b ∷ bs) = b + 256 * from_le_bytes bs
