-- ===== src/Crc32.antt =====
-- The crate crc32fast, which computes checksums: its documented behaviour. `hash` is what a new
-- hasher gives for one buffer, a hasher may be fed piece by piece, and a checksum is a `u32`.
use yabiir.Base.{ℕ, ◌^◌, ◌<◌, ◌≡◌, [], ◌++◌, Bytes}

pub record Crc32 (Hasher : Type 0) : Type 0 where
  pub new : Hasher
  pub update : Hasher → Bytes → Hasher
  pub finalize : Hasher → ℕ
  pub hash : Bytes → ℕ
  pub hash_lem : (bytes : Bytes) → hash bytes ≡ finalize (update new bytes)
  pub update-nil : (h : Hasher) → update h [] ≡ h
  pub update-append : (h : Hasher) (xs ys : Bytes) → update h (xs ++ ys) ≡ update (update h xs) ys
  pub hash-lt : (bytes : Bytes) → hash bytes < 2 ^ 32
