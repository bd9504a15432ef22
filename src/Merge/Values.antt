-- ===== src/Merge/Values.antt =====
-- src/merge/mod.rs: each entry that a scan finds has its value at the place that the keydir has for it.
use yabiir.Base.{
  ℕ, zero, suc, ◌+◌, ◌≤◌, ◌≡◌, refl, sym, ap, ◌∙◌, true, Option, none, some, Bytes, length, take,
  drop, length-drop, drop-drop, All, leb, arith,
}
use yabiir.Crc32.{Crc32}
use yabiir.Format.Entry.{Entry, EntryRead, header_size}
use yabiir.Format.Entry.Parse.{parse_entry}
use yabiir.Format.Entry.Found.{Found, parse_entry-Found, parse_entry-Passed}
use yabiir.Engine.View.{cut}
use yabiir.Recovery.Parsed.{next_entries, entries}

-- Where the value of an entry starts, and that it is there.
abbrev pub value_pos_of : ℕ × Entry → ℕ
value_pos_of (pos, entry) = pos + header_size + entry.header.key_size

abbrev pub HasValue : Bytes → ℕ × Entry → Type 0
HasValue bytes (pos, entry) =
    cut (value_pos_of (pos, entry)) entry.header.value_size (some bytes) ≡ some entry.value

module _ {Hasher : Type 0} (crc32 : Crc32 Hasher) where
  Found-HasValue :
      (bytes : Bytes) (pos : ℕ) (entry : Entry) (total_len : ℕ)
      → pos ≤ length bytes
      → Found crc32 (drop pos bytes) entry total_len
      → HasValue bytes (pos, entry)
  Found-HasValue bytes pos entry total_len h f =
      let ks = entry.header.key_size in
      let vs = entry.header.value_size in
      let fits : leb (pos + 16 + ks + vs) (length bytes) ≡ true =
        ground (arith, f.size_lem, f.fits, length-drop pos bytes) in
      let at : drop (16 + ks) (drop pos bytes) ≡ drop (pos + 16 + ks) bytes =
        drop-drop (16 + ks) pos bytes ∙ ap (λ i. drop i bytes) (omega arith) in
      rw fits (ap (λ b. some b) (ap (take vs) (sym at) ∙ f.value_lem))

  next_entries-HasValue :
      (fuel pos : ℕ) (bytes : Bytes) (found : Option EntryRead)
      → pos ≤ length bytes
      → (parse_entry crc32 (drop pos bytes)).0 ≡ found
      → ((n : ℕ)
          → pos + n ≤ length bytes
          → All (HasValue bytes) (entries crc32 fuel (pos + n) (drop (pos + n) bytes)))
      → All (HasValue bytes) (
          next_entries found pos (λ p. entries crc32 fuel p (parse_entry crc32 (drop pos bytes)).1))
  unfolding next_entries
  next_entries-HasValue fuel pos bytes none h e more = tt
  next_entries-HasValue fuel pos bytes (some EntryRead.truncated) h e more = tt
  next_entries-HasValue fuel pos bytes (some (EntryRead.ok entry n)) h e more =
      let f = parse_entry-Found crc32 (drop pos bytes) entry n e in
      let p = parse_entry-Passed crc32 (drop pos bytes) (EntryRead.ok entry n) n e refl in
      (
        Found-HasValue bytes pos entry n h f,
        rw (p.left, drop-drop n pos bytes) (more n (omega (arith, p.fits, length-drop pos bytes))),
      )
  next_entries-HasValue fuel pos bytes (some (EntryRead.crc_mismatch n)) h e more =
      let p = parse_entry-Passed crc32 (drop pos bytes) (EntryRead.crc_mismatch n) n e refl in
      rw (p.left, drop-drop n pos bytes) (more n (omega (arith, p.fits, length-drop pos bytes)))

  entries-HasValue :
      (fuel pos : ℕ) (bytes : Bytes)
      → pos ≤ length bytes
      → All (HasValue bytes) (entries crc32 fuel pos (drop pos bytes))
  unfolding entries
  entries-HasValue zero pos bytes h = tt
  entries-HasValue (suc fuel) pos bytes h =
      next_entries-HasValue fuel pos bytes (parse_entry crc32 (drop pos bytes)).0 h refl
        (λ n le. entries-HasValue fuel (pos + n) bytes le)

  -- The entries of a whole file.
  pub entries-HasValue_lem :
      (fuel : ℕ) (bytes : Bytes) → All (HasValue bytes) (entries crc32 fuel 0 bytes)
  entries-HasValue_lem fuel bytes = entries-HasValue fuel 0 bytes (omega arith)
