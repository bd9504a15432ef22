-- ===== src/Format/Entry/Found.antt =====
-- src/format/entry.rs `read_entry`: an entry that is read has its value where its header says.
use yabiir.Base.{
  ℕ, zero, suc, ◌+◌, ◌-◌, ◌≤◌, ◌≡◌, ◌≢◌, refl, sym, ap, ◌∙◌, Bool, true, false, not, Bool-cases,
  inl, inr, Option, none, some, [], ◌∷◌, ◌++◌, Bytes, length, take, drop, length-take, length-drop,
  drop-drop, ltb, ◌==◌, if◌then◌else◌, arith,
}
use yabiir.Crc32.{Crc32}
use yabiir.Format.Entry.{
  Entry, EntryRead, truncated, crc_mismatch, header_size, decode_entry_header, check_body, body_len,
  verify_crc,
}
use yabiir.Format.Entry.Parse.{parse_body, parse_entry}

take_nil : (n : ℕ) → ◌≡◌ {A = Bytes} (take n []) []
take_nil zero = refl
take_nil (suc n) = refl

take-drop : (m n : ℕ) (xs : Bytes) → drop m (take (m + n) xs) ≡ take n (drop m xs)
take-drop zero n xs = ap (λ i. take i xs) (omega arith)
take-drop (suc m) n [] = let e : suc m + n ≡ suc (m + n) = omega arith in rw e (sym (take_nil n))
take-drop (suc m) n (x ∷ xs) =
    let e : suc m + n ≡ suc (m + n) = omega arith in rw e (take-drop m n xs)

module _ {Hasher : Type 0} (crc32 : Crc32 Hasher) where
  -- What was read from the front of the bytes.
  pub record Found (bytes : Bytes) (entry : Entry) (total_len : ℕ) : Type 0 where
    pub size_lem : total_len ≡ header_size + (entry.header.key_size + entry.header.value_size)
    pub fits : total_len ≤ length bytes
    pub value_lem :
        take entry.header.value_size (drop (header_size + entry.header.key_size) bytes)
        ≡ entry.value

  -- What an `ok` out of a test tells.
  if-ok :
      (right : Bool) {e entry : Entry} {n total_len : ℕ}
      → (if not right then crc_mismatch n else EntryRead.ok e n) ≡ EntryRead.ok entry total_len
      → (e ≡ entry) × (n ≡ total_len)
  if-ok true h = (cc, cc)
  if-ok false h = cc

  if-some :
      (short : Bool) (rest : Bytes) {x : EntryRead} {entry : Entry} {total_len : ℕ}
      → (if◌then◌else◌ {A = Option EntryRead × Bytes} short (some truncated, rest) (some x, rest)).0
        ≡ some (EntryRead.ok entry total_len)
      → (short ≡ false) × (x ≡ EntryRead.ok entry total_len)
  if-some true rest h = cc
  if-some false rest h = (refl, cc)

  parse_body-Found :
      (bytes : Bytes) (entry : Entry) (total_len : ℕ)
      → header_size ≤ length bytes
      → (parse_body crc32 (take header_size bytes) (drop header_size bytes)).0
        ≡ some (EntryRead.ok entry total_len)
      → Found bytes entry total_len
  unfolding parse_body check_body body_len
  parse_body-Found bytes entry total_len long h =
      let header_buf = take header_size bytes in
      let behind = drop header_size bytes in
      let bl = body_len crc32 header_buf in
      let body = take bl behind in
      let header = (decode_entry_header header_buf).1 in
      let (whole, checked) = if-some (ltb (length body) bl) (drop bl behind) h in
      let (same, size) =
        if-ok (verify_crc crc32 (decode_entry_header header_buf).0 (drop 4 header_buf ++ body))
          checked in
      let header_lem : header ≡ entry.header = ap (λ e. e.header) same in
      let value_lem : drop header.key_size body ≡ entry.value = ap (λ e. e.value) same in
      let whole_body : length body ≡ bl = ground (arith, length-take bl behind) in
      let in_file : length behind ≡ length bytes - header_size = length-drop header_size bytes in
      record {
        size_lem = rw (← header_lem, ← size, whole_body) refl;
        fits = omega (arith, size, length-take bl behind);
        value_lem = rw (← header_lem) (
            ap (take header.value_size) (sym (drop-drop header.key_size header_size bytes))
            ∙ sym (take-drop header.key_size header.value_size behind)
            ∙ value_lem);
      }

  -- An entry that is read was complete, and its value stands where its header says.
  pub parse_entry-Found :
      (bytes : Bytes) (entry : Entry) (total_len : ℕ)
      → (parse_entry crc32 bytes).0 ≡ some (EntryRead.ok entry total_len)
      → Found bytes entry total_len
  unfolding parse_entry
  parse_entry-Found bytes entry total_len h =
      elim (Bool-cases (length (take header_size bytes) == 0)) [
        | inl empty ↦ let x : none ≡ some (EntryRead.ok entry total_len) = rw empty at h in cc
        | inr some_bytes ↦ elim (Bool-cases (ltb (length (take header_size bytes)) header_size)) [
          | inl short ↦
              let x : some truncated ≡ some (EntryRead.ok entry total_len) =
                rw (some_bytes, short) at h in
              cc
          | inr long ↦
              parse_body-Found bytes entry total_len (ground (arith, length-take header_size bytes))
                (rw (some_bytes, long) at h)
        ]
      ]

  -- The length of an entry that was complete.
  abbrev pub total_of : EntryRead → Option ℕ
  total_of (EntryRead.ok entry total_len) = some total_len
  total_of truncated = none
  total_of (crc_mismatch total_len) = some total_len

  check_body-total :
      (header_buf body : Bytes)
      → total_of (check_body crc32 header_buf body) ≡ some (header_size + length body)
  unfolding check_body
  check_body-total header_buf body =
      go (verify_crc crc32 (decode_entry_header header_buf).0 (drop 4 header_buf ++ body)) _
    where
      go :
          (right : Bool) (e : Entry)
          → total_of (
              if not right
              then crc_mismatch (header_size + length body)
              else EntryRead.ok e (header_size + length body))
            ≡ some (header_size + length body)
      go true e = refl
      go false e = refl

  torn_total :
      (x : EntryRead) (total_len : ℕ) → some truncated ≡ some x → total_of x ≢ some total_len
  torn_total (EntryRead.ok entry n) total_len h = cc
  torn_total truncated total_len h = cc
  torn_total (crc_mismatch n) total_len h = cc

  -- What is left behind a complete entry.
  pub record Passed (bytes : Bytes) (total_len : ℕ) (rest : Bytes) : Type 0 where
    pub fits : total_len ≤ length bytes
    pub left : rest ≡ drop total_len bytes

  parse_body-Passed :
      (bytes : Bytes) (x : EntryRead) (total_len : ℕ)
      → header_size ≤ length bytes
      → (parse_body crc32 (take header_size bytes) (drop header_size bytes)).0 ≡ some x
      → total_of x ≡ some total_len
      → Passed bytes total_len
          (parse_body crc32 (take header_size bytes) (drop header_size bytes)).1
  unfolding parse_body
  parse_body-Passed bytes x total_len long h total =
      let header_buf = take header_size bytes in
      let behind = drop header_size bytes in
      let bl = body_len crc32 header_buf in
      let body = take bl behind in
      elim (Bool-cases (ltb (length body) bl)) [
        | inl short ↦
            let t : some truncated ≡ some x = rw short at h in
            absurd (torn_total x total_len t total)
        | inr whole ↦
            let t : some (check_body crc32 header_buf body) ≡ some x = rw whole at h in
            let t' : check_body crc32 header_buf body ≡ x = cc in
            let n : some (header_size + length body) ≡ some total_len =
              sym (check_body-total header_buf body) ∙ ap total_of t' ∙ total in
            let size : header_size + length body ≡ total_len = cc in
            let whole_body : length body ≡ bl = ground (arith, length-take bl behind) in
            rw whole (record {
              fits = omega (arith, size, length-take bl behind, length-drop header_size bytes);
              left = drop-drop bl header_size bytes ∙ ap (λ i. drop i bytes) (omega arith);
            })
      ]

  pub parse_entry-Passed :
      (bytes : Bytes) (x : EntryRead) (total_len : ℕ)
      → (parse_entry crc32 bytes).0 ≡ some x
      → total_of x ≡ some total_len
      → Passed bytes total_len (parse_entry crc32 bytes).1
  unfolding parse_entry
  parse_entry-Passed bytes x total_len h total =
      elim (Bool-cases (length (take header_size bytes) == 0)) [
        | inl empty ↦ let e : none ≡ some x = rw empty at h in cc
        | inr some_bytes ↦ elim (Bool-cases (ltb (length (take header_size bytes)) header_size)) [
          | inl short ↦
              let e : some truncated ≡ some x = rw (some_bytes, short) at h in
              absurd (torn_total x total_len e total)
          | inr long ↦
              rw (some_bytes, long)
                (parse_body-Passed bytes x total_len (ground (arith, length-take header_size bytes))
                  (rw (some_bytes, long) at h) total)
        ]
      ]
