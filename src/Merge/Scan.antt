-- ===== src/Merge/Scan.antt =====
-- src/merge/mod.rs `read_all_entries`: a scan that returns has found the entries that recovery finds.
use mathlib.Core.Path.{subst}
use yabiir.Base.{
  ℕ, zero, suc, ◌+◌, ◌<◌, arith, ◌≢◌, ◌≡◌, refl, sym, ap, Option, none, some, List, [], ◌∷◌, ◌++◌,
  Bytes, length, append-nil, append_assoc, ltb, ◌==◌,
}
use yabiir.Base.Map
use yabiir.Base.Map.{nat_eq}
use yabiir.Crc32.{Crc32}
use yabiir.Error.{Result, ok, err, blocked}
use yabiir.Io.{Exec}
use yabiir.Io.After.{After, After-bind, After-mono, After-always}
use yabiir.Io.Grows.{SameData, syscall-SameData}
use yabiir.Io.Read.{Reader, read_up_to}
use yabiir.Io.Read.Laws.{NoFault}
use yabiir.Io.Read.Calmed.{
  calm_reader, calmed-NoFault, Calms, Calms-pure, Calms-blocked, Calms-bind, Calms-if,
  Calms-read_up_to, calmed-result,
}
use yabiir.Io.Disk.{World, syscall, open_data, reading, found}
use yabiir.Format.Entry.{Entry, EntryRead, truncated, header_size, body_len, check_body, read_entry}
use yabiir.Format.Entry.Parse.{parse_entry, read_entry-parse}
use yabiir.Recovery.Parsed.{Gives, Reads-Gives, next_entries, entries, parse-less}
use yabiir.Merge.{read_next, read_entries, read_all_entries}

pub open_data-After :
    (id : ℕ) (w : World)
    → After
        (open_data id w)
        (λ bytes t. SameData w t × (Map.lookup id w.data_files ≡ some bytes))
        (SameData w)
unfolding open_data
open_data-After id w =
    After-bind syscall _ (After-always (syscall w) (syscall-SameData w))
      (λ _ t same. go (Map.lookup id t.data_files) t same (ap (Map.lookup id) (sym same)))
  where
    go :
        (o : Option Bytes) (t : World)
        → SameData w t
        → Map.lookup id w.data_files ≡ o
        → After
            (found o t)
            (λ bytes t. SameData w t × (Map.lookup id w.data_files ≡ some bytes))
            (SameData w)
    go none t same h = record { holds = same }
    go (some bytes) t same h = record { holds = (same, h) }

pub After-result :
    {S A : Type 0} (x : Result A × S) {E : S → Type 0}
    → E x.1
    → After x (λ a t. (x.0 ≡ ok a) × E t) E
After-result (ok a, s) h = record { holds = (refl, h) }
After-result (err x, s) h = record { holds = h }
After-result (blocked, s) h = record { holds = h }

module _ {Hasher : Type 0} (crc32 : Crc32 Hasher) where
  read_next-Gives :
      (found : Option EntryRead) (pos : ℕ) (out : List (ℕ × Entry)) (r : Reader)
      (go_on : ℕ → List (ℕ × Entry) → Exec Reader (List (ℕ × Entry))) (more : ℕ → List (ℕ × Entry))
      → NoFault r.plan
      → (found ≢ none → (p : ℕ) (l : List (ℕ × Entry)) → Gives (go_on p l) r (l ++ more p))
      → Gives (read_next found pos out go_on) r (out ++ next_entries found pos more)
  unfolding read_next next_entries
  read_next-Gives none pos out r go_on more calm h = record {
    result = rw append-nil refl;
    calm = calm;
  }
  read_next-Gives (some EntryRead.truncated) pos out r go_on more calm h = record {
    result = rw append-nil refl;
    calm = calm;
  }
  read_next-Gives (some (EntryRead.ok e n)) pos out r go_on more calm h =
      rw (← append_assoc out ((pos, e) ∷ []) (more (pos + n)))
        (h (λ e. cc) (pos + n) (out ++ ((pos, e) ∷ [])))
  read_next-Gives (some (EntryRead.crc_mismatch n)) pos out r go_on more calm h =
      h (λ e. cc) (pos + n) out

  read_entries-Gives :
      (fuel pos : ℕ) (out : List (ℕ × Entry)) (r : Reader)
      → length r.rest < fuel
      → NoFault r.plan
      → Gives (read_entries crc32 fuel pos out) r (out ++ entries crc32 fuel pos r.rest)
  unfolding read_entries entries
  read_entries-Gives zero pos out r enough calm = absurd (omega arith)
  read_entries-Gives (suc fuel) pos out r enough calm =
      let head = read_entry-parse crc32 r calm in
      let r' = (read_entry crc32 r).1 in
      Reads-Gives (read_entry crc32) _ head (
        read_next-Gives (parse_entry crc32 r.rest).0 pos out r' _ _ head.calm (λ more p l.
          subst (λ bytes. Gives (read_entries crc32 fuel p l) r' (l ++ entries crc32 fuel p bytes))
            head.left
            (read_entries-Gives fuel p l r'
              (omega (arith, ap length head.left, parse-less crc32 r.rest more)) head.calm)))

  pub Calms-read_entry : Calms (read_entry crc32)
  unfolding read_entry
  Calms-read_entry =
      Calms-bind (read_up_to header_size) _ (Calms-read_up_to header_size) (λ header_buf.
        Calms-if (length header_buf == 0) _ _ (Calms-pure none) (
          Calms-if (ltb (length header_buf) header_size) _ _ (Calms-pure (some truncated)) (
            Calms-bind (read_up_to (body_len crc32 header_buf)) _
              (Calms-read_up_to (body_len crc32 header_buf))
              (λ body.
                Calms-if (ltb (length body) (body_len crc32 header_buf)) _ _
                  (Calms-pure (some truncated))
                  (Calms-pure (some (check_body crc32 header_buf body)))))))

  Calms-read_next :
      (found : Option EntryRead) (pos : ℕ) (out : List (ℕ × Entry))
      (go_on : ℕ → List (ℕ × Entry) → Exec Reader (List (ℕ × Entry)))
      → ((p : ℕ) (l : List (ℕ × Entry)) → Calms (go_on p l))
      → Calms (read_next found pos out go_on)
  unfolding read_next
  Calms-read_next none pos out go_on h = Calms-pure out
  Calms-read_next (some EntryRead.truncated) pos out go_on h = Calms-pure out
  Calms-read_next (some (EntryRead.ok e n)) pos out go_on h = h (pos + n) (out ++ ((pos, e) ∷ []))
  Calms-read_next (some (EntryRead.crc_mismatch n)) pos out go_on h = h (pos + n) out

  Calms-read_entries :
      (fuel pos : ℕ) (out : List (ℕ × Entry)) → Calms (read_entries crc32 fuel pos out)
  unfolding read_entries
  Calms-read_entries zero pos out = Calms-blocked
  Calms-read_entries (suc fuel) pos out =
      Calms-bind (read_entry crc32) _ Calms-read_entry
        (λ found. Calms-read_next found pos out _ (Calms-read_entries fuel))

  read_entries-result :
      (fuel : ℕ) (r : Reader) (l : List (ℕ × Entry))
      → length r.rest < fuel
      → (read_entries crc32 fuel 0 [] r).0 ≡ ok l
      → l ≡ entries crc32 fuel 0 r.rest
  read_entries-result fuel r l enough h =
      calmed-result (read_entries crc32 fuel 0 []) r (Calms-read_entries fuel 0 []) h
        (read_entries-Gives fuel 0 [] (calm_reader r) enough (calmed-NoFault r.plan)).result

  -- What is found in a file that is there.
  pub record Scanned (id : ℕ) (w : World) (found : List (ℕ × Entry)) : Type 0 where
    pub bytes : Bytes
    pub there : Map.lookup id w.data_files ≡ some bytes
    pub found_lem : found ≡ entries crc32 (suc (length bytes)) 0 bytes

  -- Whatever calls fail, a scan that returns has found exactly the entries of the file as it is on
  -- disk, those that `entries` reads off its bytes; and the scan changes no data file.
  pub read_all_entries-After :
      (id : ℕ) (w : World)
      → After
          (read_all_entries crc32 id w)
          (λ found t. SameData w t × Scanned id w found)
          (SameData w)
  unfolding read_all_entries
  read_all_entries-After id w =
      After-bind (open_data id) _ (open_data-After id w) (λ bytes t (same, there).
        After-mono (reading bytes (read_entries crc32 (suc (length bytes)) 0 []) t)
          (After-result (reading bytes (read_entries crc32 (suc (length bytes)) 0 []) t) same)
          (λ found t' (result, same'). (
            same',
            record {
              bytes = bytes;
              there = there;
              found_lem =
                  read_entries-result (suc (length bytes)) (record { rest = bytes; plan = t.plan })
                    found (omega arith) result;
            },
          ))
          (λ t' same'. same'))
