-- ===== src/Merge/Backed.antt =====
-- src/recovery.rs `recover`, without hint files: the keydir points at intact entries only.
use mathlib.Core.Option.{some-injective}
use mathlib.Core.Path.{subst}
use yabiir.Base.{
  ℕ, zero, suc, ◌+◌, ◌<◌, arith, ◌≡◌, ◌⊎◌, inl, inr, refl, sym, ap, ◌∙◌, Bool, true, false, Option,
  none, some, List, [], ◌∷◌, Bytes, Any, length, bytes_eq, bytes_eq_iff, if◌then◌else◌,
}
use yabiir.Base.Map
use yabiir.Base.Map.{nat_eq, lookup}
use yabiir.Crc32.{Crc32}
use yabiir.Error.{ok}
use yabiir.Io.{Exec, Outcome, full, part, fail, pure, ◌>>=◌}
use yabiir.Io.After.{After, After-bind, After-mono, After-any}
use yabiir.Io.Read.{Reader}
use yabiir.Io.Read.Calmed.{
  calm_reader, calmed-NoFault, Calms, Calms-pure, Calms-blocked, Calms-bind, calmed-result,
}
use yabiir.Io.Disk.{
  World, next_outcome, settle, syscall, open_data, found, is_there, hint_exists, reading,
}
use yabiir.Io.Grows.{SameData, syscall-SameData}
use yabiir.Format.Entry.{Entry, EntryRead, read_entry}
use yabiir.Keydir
use yabiir.Keydir.{Keydir, KeydirEntry}
use yabiir.Keydir.Laws.{get-insert, get-remove}
use yabiir.Recovery.{
  place, apply_entry, scan_next, scan_loop, scan_data_file, try_scan_hint_file, recover_file,
  recover,
}
use yabiir.Recovery.Parsed.{entries, apply_all, scan_loop-entries}
use yabiir.Merge.PendingQueue.{place_of}
use yabiir.Merge.Scan.{After-result, Calms-read_entry}
use yabiir.Merge.Values.{value_pos_of}
use yabiir.Merge.Progress.{IsPlace}
use yabiir.Merge.Handled.{entries_of}

-- The directory is the same.
abbrev pub SameFiles : World → World → Type 0
SameFiles w t = SameData w t × (t.hint_files ≡ w.hint_files)

abbrev pub Whatever : World → Type 0
Whatever w = Unit {0}

settle-hints : (o : Outcome) (w : World) → (settle o w).1.hint_files ≡ w.hint_files
settle-hints full w = refl
settle-hints (part k) w = refl
settle-hints (fail k) w = refl

pub syscall-SameFiles : (w : World) → SameFiles w (syscall w).1
unfolding syscall
syscall-SameFiles w = (syscall-SameData w, settle-hints (next_outcome w.plan).0 _)

found-After :
    (id : ℕ) (o : Option Bytes) (w t : World)
    → SameFiles w t
    → Map.lookup id w.data_files ≡ o
    → After
        (found o t)
        (λ bytes u. SameFiles w u × (Map.lookup id w.data_files ≡ some bytes))
        Whatever
found-After id none w t same h = record { holds = tt }
found-After id (some bytes) w t same h = record { holds = (same, h) }

open_data-same :
    (id : ℕ) (w : World)
    → After
        (open_data id w)
        (λ bytes t. SameFiles w t × (Map.lookup id w.data_files ≡ some bytes))
        Whatever
unfolding open_data
open_data-same id w =
    After-bind syscall _ (After-any (syscall w) {P = SameFiles w} (syscall-SameFiles w))
      (λ _ t same.
        found-After id (Map.lookup id t.data_files) w t same (ap (Map.lookup id) (sym same.0)))

if_some :
    (b : Bool) (new : Option KeydirEntry) (o : Option KeydirEntry) (at : KeydirEntry)
    → (if b then new else o) ≡ some at
    → (o ≡ some at) ⊎ ((b ≡ true) × (new ≡ some at))
if_some true new o at h = inr (refl, h)
if_some false new o at h = inl h

place-at :
    (b : Bool) (d : Keydir) (key0 : Bytes) (entry0 : KeydirEntry) (key : Bytes) (at : KeydirEntry)
    → Keydir.get (place d key0 b entry0) key ≡ some at
    → (Keydir.get d key ≡ some at) ⊎ ((key0 ≡ key) × (b ≡ false) × (entry0 ≡ at))
place-at true d key0 entry0 key at h =
    elim (if_some (bytes_eq key0 key) none (Keydir.get d key) at
      (sym (get-remove d key0 key) ∙ h)) [ inl before ↦ inl before | inr (same, is) ↦ cc ]
place-at false d key0 entry0 key at h =
    elim (if_some (bytes_eq key0 key) (some entry0) (Keydir.get d key) at
      (sym (get-insert d key0 key entry0) ∙ h)) [
        | inl before ↦ inl before
        | inr (same, is) ↦ inr ((bytes_eq_iff key0 key).0 same, refl, some-injective entry0 at is)
      ]

-- After the entries of a file were applied, a key is where it was, or at one of them.
apply_all-at :
    (id : ℕ) (l : List (ℕ × Entry)) (d : Keydir) (key : Bytes) (at : KeydirEntry)
    → Keydir.get (apply_all id l d) key ≡ some at
    → (Keydir.get d key ≡ some at) ⊎ Any (IsPlace id key at) l
unfolding apply_entry
apply_all-at id [] d key at h = inl h
apply_all-at id ((pos, entry) ∷ l) d key at h =
    elim (apply_all-at id l (apply_entry d id pos entry) key at h) [
      | inr later ↦ inr (inr later)
      | inl here ↦
          elim (place-at entry.header.tombstone d entry.key
            (place_of entry id (value_pos_of (pos, entry))) key at here) [
              | inl before ↦ inl before
              | inr is ↦ inr (inl is)
            ]
    ]

module _ {Hasher : Type 0} (crc32 : Crc32 Hasher) where
  Calms-scan_next :
      (found : Option EntryRead) (id pos : ℕ) (d : Keydir) (go_on : ℕ → Keydir → Exec Reader Keydir)
      → ((p : ℕ) (d : Keydir) → Calms (go_on p d))
      → Calms (scan_next found id pos d go_on)
  unfolding scan_next
  Calms-scan_next none id pos d go_on h = Calms-pure d
  Calms-scan_next (some EntryRead.truncated) id pos d go_on h = Calms-pure d
  Calms-scan_next (some (EntryRead.ok e n)) id pos d go_on h = h (pos + n) (apply_entry d id pos e)
  Calms-scan_next (some (EntryRead.crc_mismatch n)) id pos d go_on h = h (pos + n) d

  Calms-scan_loop : (fuel id pos : ℕ) (d : Keydir) → Calms (scan_loop crc32 fuel id pos d)
  unfolding scan_loop
  Calms-scan_loop zero id pos d = Calms-blocked
  Calms-scan_loop (suc fuel) id pos d =
      Calms-bind (read_entry crc32) _ (Calms-read_entry crc32)
        (λ found. Calms-scan_next found id pos d _ (Calms-scan_loop fuel id))

  scan_loop-result :
      (fuel id : ℕ) (d d' : Keydir) (r : Reader)
      → length r.rest < fuel
      → (scan_loop crc32 fuel id 0 d r).0 ≡ ok d'
      → d' ≡ apply_all id (entries crc32 fuel 0 r.rest) d
  scan_loop-result fuel id d d' r enough h =
      calmed-result (scan_loop crc32 fuel id 0 d) r (Calms-scan_loop fuel id 0 d) h
        (scan_loop-entries crc32 fuel id 0 d (calm_reader r) enough (calmed-NoFault r.plan)).result

  scan_data_file-After :
      (id : ℕ) (d : Keydir) (w : World)
      → After
          (scan_data_file crc32 id d w)
          (λ d' t.
            SameFiles w t × (d' ≡ apply_all id (entries_of crc32 (Map.lookup id w.data_files)) d))
          Whatever
  unfolding scan_data_file
  scan_data_file-After id d w =
      After-bind (open_data id) _ (open_data-same id w) (λ bytes t (same, there).
        let m = reading bytes (scan_loop crc32 (suc (length bytes)) id 0 d) in
        After-mono (m t) (After-result (m t) {E = SameFiles w} same)
          (λ d' u (result, same'). (
            same',
            scan_loop-result (suc (length bytes)) id d d' (record { rest = bytes; plan = t.plan })
                  (omega arith) result
                ∙ ap (λ o. apply_all id (entries_of crc32 o) d) (sym there),
          ))
          (λ u h. tt))

  -- A file without a hint file is scanned.
  no_hint-After :
      {Q : Keydir → World → Type 0} (b : Bool) (id : ℕ) (d : Keydir) (t : World)
      → b ≡ false
      → After (scan_data_file crc32 id d t) Q Whatever
      → After
          (((if b then try_scan_hint_file crc32 id d else pure (false, d))
              >>= λ (used_hint, scanned).
                  if used_hint then pure scanned else scan_data_file crc32 id scanned)
            t)
          Q
          Whatever
  no_hint-After true id d t none_there h = cc
  no_hint-After false id d t none_there h = h

  recover_file-After :
      (id : ℕ) (d : Keydir) (w : World)
      → w.hint_files ≡ []
      → After
          (recover_file crc32 id d w)
          (λ d' t.
            SameFiles w t × (d' ≡ apply_all id (entries_of crc32 (Map.lookup id w.data_files)) d))
          Whatever
  unfolding recover_file hint_exists lookup
  recover_file-After id d w no_hints =
      let t = (syscall w).1 in
      let same = syscall-SameFiles w in
      no_hint-After (is_there (Map.lookup id w.hint_files) (syscall w).0) id d t
        (ap (λ files. is_there (Map.lookup id files) (syscall w).0) no_hints)
        (After-mono (scan_data_file crc32 id d t) (scan_data_file-After id d t)
          (λ d' u (same', is). (
            (same'.0 ∙ same.0, same'.1 ∙ same.1),
            is ∙ ap (λ files. apply_all id (entries_of crc32 (Map.lookup id files)) d) same.0,
          ))
          (λ u h. tt))

  -- Each key is at an intact entry of a file.
  pub record Backs (w : World) (d : Keydir) : Type 0 where
    pub at_entry :
        (key : Bytes) (at : KeydirEntry)
        → Keydir.get d key ≡ some at
        → Any (IsPlace at.file_id key at) (entries_of crc32 (Map.lookup at.file_id w.data_files))

  place-file :
      (id : ℕ) (key : Bytes) (at : KeydirEntry) (l : List (ℕ × Entry))
      → Any (IsPlace id key at) l
      → id ≡ at.file_id
  place-file id key at [] h = absurd h
  place-file id key at (p ∷ l) (inl (k, alive, is)) = ap (λ x. x.file_id) is
  place-file id key at (p ∷ l) (inr h) = place-file id key at l h

  apply_all-Backs :
      (w : World) (id : ℕ) (d : Keydir)
      → Backs w d
      → Backs w (apply_all id (entries_of crc32 (Map.lookup id w.data_files)) d)
  apply_all-Backs w id d backs = record {
    at_entry = λ key at h.
        let l = entries_of crc32 (Map.lookup id w.data_files) in
        elim (apply_all-at id l d key at h) [
          | inl before ↦ backs.at_entry key at before
          | inr here ↦
              subst (λ i. Any (IsPlace i key at) (entries_of crc32 (Map.lookup i w.data_files)))
                (place-file id key at l here) here
        ];
  }

  -- A recovery without hint files that returns has each key at an intact entry, whatever calls fail.
  pub recover-Backs :
      (ids : List ℕ) (d : Keydir) (w t : World)
      → SameFiles w t
      → w.hint_files ≡ []
      → Backs w d
      → After (recover crc32 ids d t) (λ d' u. SameFiles w u × Backs w d') Whatever
  unfolding recover
  recover-Backs [] d w t same no_hints backs = record { holds = (same, backs) }
  recover-Backs (id ∷ ids) d w t same no_hints backs =
      After-bind (recover_file crc32 id d) _ (recover_file-After id d t (same.1 ∙ no_hints))
        (λ d' u (same', is).
          recover-Backs ids d' w u (same'.0 ∙ same.0, same'.1 ∙ same.1) no_hints
            (subst (Backs w)
              (sym
                (is ∙ ap (λ files. apply_all id (entries_of crc32 (Map.lookup id files)) d) same.0))
              (apply_all-Backs w id d backs)))
