-- ===== src/Datafile/Names.antt =====
-- src/datafile.rs: the names of the files in the directory, as the bytes of their characters.
use yabiir.Base.{
  ℕ, zero, suc, ◌+◌, ◌-◌, ◌*◌, ◌/◌, ◌%◌, ◌^◌, ◌<◌, ◌≡◌, refl, ap, ◌∙◌, Bool, true, not, ◌&&◌, ◌||◌,
  Option, none, some, [], ◌∷◌, ◌++◌, Bytes, length, take, drop, length-append, take-length,
  drop-length, bytes_eq, bytes_eq_iff, ltb, leb, ◌==◌, if◌then◌else◌, arith,
}
use native.Mathlib.Nat.{pow-succ'}
use yabiir.Format.{u32_mod}

-- `.bitcask.data` and `.bitcask.hint`
abbrev pub data_suffix : Bytes
data_suffix = 46 ∷ 98 ∷ 105 ∷ 116 ∷ 99 ∷ 97 ∷ 115 ∷ 107 ∷ 46 ∷ 100 ∷ 97 ∷ 116 ∷ 97 ∷ []

abbrev pub hint_suffix : Bytes
hint_suffix = 46 ∷ 98 ∷ 105 ∷ 116 ∷ 99 ∷ 97 ∷ 115 ∷ 107 ∷ 46 ∷ 104 ∷ 105 ∷ 110 ∷ 116 ∷ []

-- A number in decimal, with zeros in front.
unfoldable pub decimal : ℕ → ℕ → Bytes
decimal zero n = []
decimal (suc width) n = decimal width (n / 10) ++ ((48 + n % 10) ∷ [])

-- The last component of the path. A `u32` has no more than 20 digits.
unfoldable pub data_path : ℕ → Bytes
data_path file_id = decimal 20 file_id ++ data_suffix

unfoldable pub hint_path : ℕ → Bytes
hint_path file_id = decimal 20 file_id ++ hint_suffix

abbrev pub is_ascii_digit : ℕ → Bool
is_ascii_digit b = leb 48 b && leb b 57

unfoldable pub all_digits : Bytes → Bool
all_digits [] = true
all_digits (b ∷ bytes) = let rest = all_digits bytes in is_ascii_digit b && rest

unfoldable pub strip_suffix : Bytes → Bytes → Option Bytes
strip_suffix suffix name =
    let n = length name - length suffix in
    if leb (length suffix) (length name) && bytes_eq (drop n name) suffix
    then some (take n name)
    else none

-- `u32::from_str` on digits: a number that does not fit is an error.
abbrev pub push_digit : ℕ → Option ℕ → Option ℕ
push_digit b none = none
push_digit b (some acc) =
    if ltb (acc * 10 + (b - 48)) u32_mod then some (acc * 10 + (b - 48)) else none

unfoldable pub parse_u32 : Bytes → Option ℕ → Option ℕ
parse_u32 [] acc = acc
parse_u32 (b ∷ bytes) acc = parse_u32 bytes (push_digit b acc)

unfoldable pub parse_stem : Option Bytes → Option ℕ
parse_stem none = none
parse_stem (some stem) =
    if not (length stem == 20) || not (all_digits stem) then none else parse_u32 stem (some 0)

unfoldable pub parse_data_file_id : Bytes → Option ℕ
parse_data_file_id name = parse_stem (strip_suffix data_suffix name)

length-decimal : (width n : ℕ) → length (decimal width n) ≡ width
unfolding decimal
length-decimal zero n = refl
length-decimal (suc width) n = omega (
  arith,
  length-decimal width (n / 10),
  length-append (decimal width (n / 10)) ((48 + n % 10) ∷ []),
)

all_digits-append :
    (xs ys : Bytes) → all_digits xs ≡ true → all_digits ys ≡ true → all_digits (xs ++ ys) ≡ true
unfolding all_digits
all_digits-append [] ys h k = k
all_digits-append (x ∷ xs) ys h k = ground (arith, all_digits-append xs ys)

one_digit : (n : ℕ) → all_digits ((48 + n % 10) ∷ []) ≡ true
unfolding all_digits
one_digit n = ground arith

all_digits-decimal : (width n : ℕ) → all_digits (decimal width n) ≡ true
unfolding decimal all_digits
all_digits-decimal zero n = refl
all_digits-decimal (suc width) n =
    all_digits-append (decimal width (n / 10)) ((48 + n % 10) ∷ [])
      (all_digits-decimal width (n / 10)) (one_digit n)

parse_u32-append :
    (xs : Bytes) (b : ℕ) (acc : Option ℕ)
    → parse_u32 (xs ++ (b ∷ [])) acc ≡ push_digit b (parse_u32 xs acc)
unfolding parse_u32
parse_u32-append [] b acc = refl
parse_u32-append (x ∷ xs) b acc = parse_u32-append xs b (push_digit x acc)

-- The digits of a number give it back.
parse_u32-decimal :
    (width n : ℕ) → n < 10 ^ width → n < u32_mod → parse_u32 (decimal width n) (some 0) ≡ some n
unfolding decimal parse_u32
parse_u32-decimal zero n h k = ap some (omega arith)
parse_u32-decimal (suc width) n h k =
    let power : 10 ^ suc width ≡ 10 * 10 ^ width = pow-succ' 10 width in
    let before = parse_u32-decimal width (n / 10) (omega (arith, power, h)) (omega (arith, k)) in
    let again : n / 10 * 10 + (48 + n % 10 - 48) ≡ n = omega arith in
    let fits : ltb n u32_mod ≡ true = ground (arith, k) in
    parse_u32-append (decimal width (n / 10)) (48 + n % 10) (some 0)
    ∙ ap (push_digit (48 + n % 10)) before
    ∙ rw (again, fits) refl

strip_suffix-append : (stem suffix : Bytes) → strip_suffix suffix (stem ++ suffix) ≡ some stem
unfolding strip_suffix
strip_suffix-append stem suffix =
    let n : length (stem ++ suffix) - length suffix ≡ length stem =
      omega (arith, length-append stem suffix) in
    let long : leb (length suffix) (length (stem ++ suffix)) ≡ true =
      ground (arith, length-append stem suffix) in
    rw
      (
        n,
        long,
        drop-length stem suffix,
        take-length stem suffix,
        (bytes_eq_iff suffix suffix).1 refl,
      )
      refl

strip_suffix-other : (stem : Bytes) → strip_suffix data_suffix (stem ++ hint_suffix) ≡ none
unfolding strip_suffix
strip_suffix-other stem =
    let n : length (stem ++ hint_suffix) - 13 ≡ length stem =
      omega (arith, length-append stem hint_suffix) in
    let long : leb 13 (length (stem ++ hint_suffix)) ≡ true =
      ground (arith, length-append stem hint_suffix) in
    rw (n, long, drop-length stem hint_suffix) refl

-- The id of a data file is read back from its name, and the name of a hint file is not taken for that
-- of a data file.
pub parse_data_file_id-data_path :
    (id : ℕ)
    → id < u32_mod
    → (parse_data_file_id (data_path id) ≡ some id) × (parse_data_file_id (hint_path id) ≡ none)
unfolding parse_data_file_id data_path hint_path parse_stem
parse_data_file_id-data_path id h =
    let stem = decimal 20 id in
    let size : length stem == 20 ≡ true = ground (arith, length-decimal 20 id) in
    (
      rw (strip_suffix-append stem data_suffix, size, all_digits-decimal 20 id)
          (parse_u32-decimal 20 id (omega (arith, h)) h),
      rw (strip_suffix-other stem) refl,
    )
