-- ===== src/Recovery/Parsed.antt =====
-- src/recovery.rs `scan_data_file` as a function of the bytes of the file.
use mathlib.Core.Path.{subst, fun_ext}
use native.Mathlib.Decide.{dec_lt}
use yabiir.Base.{
  ℕ, zero, suc, ◌+◌, ◌<◌, ◌≡◌, ◌≢◌, refl, ap, ◌∙◌, Option, none, some, List, [], ◌∷◌, Bytes, length,
  take, drop, length-drop, arith,
}
use yabiir.Crc32.{Crc32}
use yabiir.Error.{ok}
use yabiir.Io.{Exec, ◌>>=◌}
use yabiir.Io.Read.{Reader}
use yabiir.Io.Read.Laws.{NoFault, Reads}
use yabiir.Format.Entry.{Entry, EntryRead, body_len, read_entry}
use yabiir.Format.Entry.Parse.{parse_entry, read_entry-parse}
use yabiir.Keydir.{Keydir}
use yabiir.Recovery.{apply_entry, scan_next, scan_loop}

-- The action returns `a`, and no call to come fails.
pub record Gives {A : Type 0} (m : Exec Reader A) (r : Reader) (a : A) : Type 0 where
  pub result : (m r).0 ≡ ok a
  pub calm : NoFault (m r).1.plan

pub Reads-Gives :
    {A B : Type 0} (m : Exec Reader A) (f : A → Exec Reader B) {r : Reader} {a : A} {b : B}
    {rest : Bytes}
    → Reads m r a rest
    → Gives (f a) (m r).1 b
    → Gives (m >>= f) r b
Reads-Gives m f p q = record { result = rw (p.result) q.result; calm = rw (p.result) q.calm }

-- The entries that a scan applies, each with the offset at which it starts.
unfoldable pub next_entries : Option EntryRead → ℕ → (ℕ → List (ℕ × Entry)) → List (ℕ × Entry)
next_entries none pos more = []
next_entries (some EntryRead.truncated) pos more = []
next_entries (some (EntryRead.ok entry total_len)) pos more = (pos, entry) ∷ more (pos + total_len)
next_entries (some (EntryRead.crc_mismatch total_len)) pos more = more (pos + total_len)

abbrev pub apply_all : ℕ → List (ℕ × Entry) → Keydir → Keydir
apply_all file_id [] keydir = keydir
apply_all file_id ((pos, entry) ∷ entries) keydir =
    apply_all file_id entries (apply_entry keydir file_id pos entry)

module _ {Hasher : Type 0} (crc32 : Crc32 Hasher) where
  unfoldable pub entries : ℕ → ℕ → Bytes → List (ℕ × Entry)
  entries zero pos bytes = []
  entries (suc fuel) pos bytes =
      next_entries (parse_entry crc32 bytes).0 pos (λ p. entries fuel p (parse_entry crc32 bytes).1)

  scan_next-Gives :
      (found : Option EntryRead) (file_id pos : ℕ) (keydir : Keydir) (r : Reader)
      (go_on : ℕ → Keydir → Exec Reader Keydir) (more : ℕ → List (ℕ × Entry))
      → NoFault r.plan
      → (found ≢ none → (p : ℕ) (d : Keydir) → Gives (go_on p d) r (apply_all file_id (more p) d))
      → Gives
          (scan_next found file_id pos keydir go_on)
          r
          (apply_all file_id (next_entries found pos more) keydir)
  unfolding scan_next next_entries
  scan_next-Gives none file_id pos keydir r go_on more calm h = record {
    result = refl;
    calm = calm;
  }
  scan_next-Gives (some EntryRead.truncated) file_id pos keydir r go_on more calm h = record {
    result = refl;
    calm = calm;
  }
  scan_next-Gives (some (EntryRead.ok e n)) file_id pos keydir r go_on more calm h =
      h (λ e. cc) (pos + n) (apply_entry keydir file_id pos e)
  scan_next-Gives (some (EntryRead.crc_mismatch n)) file_id pos keydir r go_on more calm h =
      h (λ e. cc) (pos + n) keydir

  parse-shrinks :
      (bytes : Bytes) → 0 < length bytes → length (parse_entry crc32 bytes).1 < length bytes
  unfolding parse_entry
  parse-shrinks bytes h =
      let n = body_len crc32 (take 16 bytes) in
      ground (arith, length-drop 16 bytes, length-drop n (drop 16 bytes))

  parse-nothing : (bytes : Bytes) → length bytes ≡ 0 → (parse_entry crc32 bytes).0 ≡ none
  unfolding parse_entry
  parse-nothing [] h = refl
  parse-nothing (b ∷ bytes) h = absurd (omega arith)

  -- Where an entry was begun, there is less to read behind it.
  pub parse-less :
      (bytes : Bytes)
      → (parse_entry crc32 bytes).0 ≢ none
      → length (parse_entry crc32 bytes).1 < length bytes
  parse-less bytes more = elim (dec_lt 0 (length bytes)) [
    | yes some_bytes ↦ parse-shrinks bytes some_bytes
    | no empty ↦ absurd (more (parse-nothing bytes (omega arith)))
  ]

  -- The scan applies the entries of the file in order, however its reads are cut up.
  pub scan_loop-entries :
      (fuel file_id pos : ℕ) (keydir : Keydir) (r : Reader)
      → length r.rest < fuel
      → NoFault r.plan
      → Gives
          (scan_loop crc32 fuel file_id pos keydir)
          r
          (apply_all file_id (entries fuel pos r.rest) keydir)
  unfolding scan_loop entries
  scan_loop-entries zero file_id pos keydir r enough calm = absurd (omega arith)
  scan_loop-entries (suc fuel) file_id pos keydir r enough calm =
      let head = read_entry-parse crc32 r calm in
      let r' = (read_entry crc32 r).1 in
      Reads-Gives (read_entry crc32) _ head (
        scan_next-Gives (parse_entry crc32 r.rest).0 file_id pos keydir r' _ _ head.calm
          (λ more p d.
            subst
              (λ bytes.
                Gives (scan_loop crc32 fuel file_id p d) r'
                  (apply_all file_id (entries fuel p bytes) d))
              head.left
              (scan_loop-entries fuel file_id p d r'
                (omega (arith, ap length head.left, parse-less r.rest more)) head.calm)))

  next_entries-more :
      (found : Option EntryRead) (pos : ℕ) (more more' : ℕ → List (ℕ × Entry))
      → ((p : ℕ) → more p ≡ more' p)
      → next_entries found pos more ≡ next_entries found pos more'
  next_entries-more found pos more more' h = ap (next_entries found pos) (fun_ext h)

  -- The same said of the entries.
  pub entries-rounds :
      (fuel fuel' pos : ℕ) (bytes : Bytes)
      → length bytes < fuel
      → length bytes < fuel'
      → entries fuel pos bytes ≡ entries fuel' pos bytes
  unfolding entries next_entries
  entries-rounds zero fuel' pos bytes h h' = absurd (omega arith)
  entries-rounds (suc fuel) zero pos bytes h h' = absurd (omega arith)
  entries-rounds (suc fuel) (suc fuel') pos bytes h h' = elim (dec_lt 0 (length bytes)) [
    | yes some_bytes ↦
        let shorter = parse-shrinks bytes some_bytes in
        next_entries-more (parse_entry crc32 bytes).0 pos _ _
          (λ p. entries-rounds fuel fuel' p (parse_entry crc32 bytes).1 (omega arith) (omega arith))
    | no empty ↦ rw (parse-nothing bytes (omega arith)) refl
  ]

  -- The loop ends: with more rounds than there are bytes left to read, as many as that may be, it
  -- returns, as long as no read fails, and always with the same keydir, that to which the entries
  -- read off the bytes were applied.
  pub scan_loop-rounds :
      (fuel file_id pos : ℕ) (keydir : Keydir) (r : Reader)
      → NoFault r.plan
      → length r.rest < fuel
      → (scan_loop crc32 fuel file_id pos keydir r).0
        ≡ ok (apply_all file_id (entries (suc (length r.rest)) pos r.rest) keydir)
  scan_loop-rounds fuel file_id pos keydir r calm h =
      (scan_loop-entries fuel file_id pos keydir r h calm).result
      ∙ ap (λ l. ok (apply_all file_id l keydir))
          (entries-rounds fuel (suc (length r.rest)) pos r.rest h (omega arith))
