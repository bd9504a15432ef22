-- ===== src/Merge/Handled.antt =====
-- src/merge/mod.rs: when all input files were copied and the last repoints applied, the keydir has no
-- key in an input file.
use mathlib.Core.Path.{subst}
use yabiir.Base.{
  ℕ, suc, ◌+◌, ◌<◌, ◌≡◌, refl, sym, ap, ◌∙◌, ◌⊎◌, inl, inr, Option, none, some, List, [], ◌∷◌,
  Bytes, All, Any, All-mono, length, arith,
}
use yabiir.Base.Map
use yabiir.Base.Map.{nat_eq}
use yabiir.Crc32.{Crc32}
use yabiir.Io.{pure, ◌>>◌}
use yabiir.Io.After.{After, After-bind, After-mono, After-lift, After-and}
use yabiir.Io.Disk.{World}
use yabiir.Io.Grows.{Extends-same, SameData}
use yabiir.Format.Entry.{Entry}
use yabiir.Keydir
use yabiir.Keydir.{KeydirEntry}
use yabiir.Engine.{Engine, on_world}
use yabiir.Engine.View.{stored-Extends}
use yabiir.Recovery.Parsed.{entries}
use yabiir.Merge.{
  Merging, on_engine, read_all_entries, copy_entry, copy_entries, copy_forward_live_file_entries,
}
use yabiir.Merge.PendingQueue.{place_of}
use yabiir.Merge.OutputWriter.Above.{Above-same}
use yabiir.Merge.Scan.{read_all_entries-After}
use yabiir.Merge.Values.{value_pos_of}
use yabiir.Merge.Repoints.{Sees-trans, Sees-Extends, no_hook}
use yabiir.Merge.Copies.{Copying}
use yabiir.Merge.Keeps.{InFile, Scanned-InFile, Lost, copy_entry-After, Copying-same}
use yabiir.Merge.Progress.{IsPlace, Seen, Progress, Progress-mono, copy_entry-Progress}

module _ {Hasher : Type 0} (crc32 : Crc32 Hasher) where
  -- The entries of a file, and how many there are in several.
  abbrev pub entries_of : Option Bytes → List (ℕ × Entry)
  entries_of none = []
  entries_of (some bytes) = entries crc32 (suc (length bytes)) 0 bytes

  abbrev pub count : World → List ℕ → ℕ
  count w [] = 0
  count w (id ∷ ids) = length (entries_of (Map.lookup id w.data_files)) + count w ids

  -- Where the keydir has a key in a file below `a` that is there, the file has an entry of that key that
  -- is intact and no tombstone, at that place.
  pub record IsBacked (a : ℕ) (e : Engine) : Type 0 where
    pub backed :
        (key : Bytes) (at : KeydirEntry)
        → Keydir.get e.keydir key ≡ some at
        → at.file_id < a
        → Any (IsPlace at.file_id key at) (entries_of (Map.lookup at.file_id e.world.data_files))
          ⊎ (Map.lookup at.file_id e.world.data_files ≡ none)

  module _ (a : ℕ) (e0 : Engine) where
    -- Both invariants of the copying.
    pub record Both (from : Engine) (w : World) (n : ℕ) (seen : Seen) (s : Merging Hasher)
        : Type 0 where
      pub copying : Copying crc32 from w s
      pub progress : Progress crc32 a e0 n seen s

    abbrev AndEntries : Seen → ℕ → List (ℕ × Entry) → Seen
    AndEntries seen file_id found key at = seen key at ⊎ Any (IsPlace file_id key at) found

    pub recount :
        {m n : ℕ} {seen : Seen} {s : Merging Hasher}
        → m ≡ n
        → Progress crc32 a e0 m seen s
        → Progress crc32 a e0 n seen s
    recount {seen = seen} {s = s} e p = subst (λ k. Progress crc32 a e0 k seen s) e p

    copy_entries-Both :
        {from : Engine} {w : World} {n : ℕ} (file_id : ℕ) (found : List (ℕ × Entry)) {seen : Seen}
        (s : Merging Hasher)
        → Both from w (length found + n) seen s
        → All (InFile file_id w) found
        → After
            (copy_entries crc32 no_hook file_id found s)
            (λ _. Both from w n (AndEntries seen file_id found))
            (Lost crc32 from)
    unfolding copy_entries
    copy_entries-Both file_id [] s both at = record {
      holds = record {
        copying = both.copying;
        progress =
            Progress-mono crc32 a e0 (recount (omega arith) both.progress)
              (λ key at there below. elim [ inl h ↦ h | inr h ↦ absurd h ]);
      };
    }
    copy_entries-Both {n = n} file_id (p ∷ found) s both (here, more) =
        After-bind (copy_entry crc32 no_hook file_id p) _
          (After-and (copy_entry crc32 no_hook file_id p s)
            (copy_entry-After crc32 file_id p s both.copying here)
            (copy_entry-Progress crc32 a e0 {n = length found + n} file_id p s both.copying.is_open
              (recount (omega arith) both.progress)))
          (λ _ t (copying, progress).
            After-mono (copy_entries crc32 no_hook file_id found t)
              (copy_entries-Both file_id found t (record { copying = copying; progress = progress })
                more)
              (λ _ u done. record {
                copying = done.copying;
                progress = Progress-mono crc32 a e0 done.progress (λ key at there below. elim [
                  | inl h ↦ inl (inl h)
                  | inr (inl h) ↦ inl (inr h)
                  | inr (inr h) ↦ inr h
                ]);
              })
              (λ u lost. lost))

    Progress-same :
        {n : ℕ} {seen : Seen} {s t : Merging Hasher}
        → Progress crc32 a e0 n seen s
        → SameData s.engine.world t.engine.world
        → t.engine.next_file_id ≡ s.engine.next_file_id
        → t.engine.keydir ≡ s.engine.keydir
        → t.writer ≡ s.writer
        → t.pending ≡ s.pending
        → Progress crc32 a e0 n seen t
    Progress-same p same next keydir writer pending = record {
      above = Above-same p.above same next (ap (λ writer. writer.current_data) writer);
      origin = λ key at there. p.origin key at (ap (λ d. Keydir.get d key) (sym keydir) ∙ there);
      handled = λ key at there below h.
          rw pending (p.handled key at (ap (λ d. Keydir.get d key) (sym keydir) ∙ there) below h);
      news = rw pending p.news;
    }

    module _ (backed : IsBacked a e0) where
      -- A key in the file, while it is as it was, has an entry among those that were found.
      found_there :
          {n : ℕ} {seen : Seen} {s : Merging Hasher} (p : Progress crc32 a e0 n seen s)
          (bytes : Bytes) (key : Bytes) (at : KeydirEntry)
          → Keydir.get s.engine.keydir key ≡ some at
          → at.file_id < a
          → Map.lookup at.file_id e0.world.data_files ≡ some bytes
          → Any (IsPlace at.file_id key at) (entries_of (Map.lookup at.file_id e0.world.data_files))
      found_there p bytes key at there below h = elim (p.origin key at there) [
        | inr above ↦ absurd (omega (arith, above, below))
        | inl before ↦ elim (backed.backed key at before below) [
          | inr gone ↦ cc
          | inl found ↦ found
        ]
      ]

      pub copy_file-Both :
          {from : Engine} {w : World} {n : ℕ} {seen : Seen} (file_id : ℕ) (s : Merging Hasher)
          → file_id < a
          → Both from w (length (entries_of (Map.lookup file_id e0.world.data_files)) + n) seen s
          → After
              (copy_forward_live_file_entries crc32 no_hook file_id s)
              (λ _ t.
                (w' : World) × Both from w' n (λ key at. seen key at ⊎ (at.file_id ≡ file_id)) t)
              (Lost crc32 from)
      unfolding copy_forward_live_file_entries
      copy_file-Both {from} {w} {n} {seen} file_id s old both =
          let s' = record s { max_output_id = s.highest_output_id } in
          let m = length (entries_of (Map.lookup file_id e0.world.data_files)) + n in
          After-bind
            ((λ s. pure tt (record s { max_output_id = s.highest_output_id }))
              >> on_engine crc32 no_hook (on_world (read_all_entries crc32 file_id)))
            _ {s = s}
            {Q = λ found t.
              Both from t.engine.world (length found + n) seen t
              × All (InFile file_id t.engine.world) found
              × (found ≡ entries_of (Map.lookup file_id e0.world.data_files))
              × ((bytes : Bytes) × (Map.lookup file_id e0.world.data_files ≡ some bytes))}
            (After-lift (read_all_entries crc32 file_id s.engine.world)
              (λ u. record s' { engine = record s.engine { world = u } })
              (read_all_entries-After crc32 file_id s.engine.world)
              (λ found u _ (same, scanned).
                let before : Map.lookup file_id e0.world.data_files ≡ some scanned.bytes =
                  sym (both.progress.above.free.untouched file_id old) ∙ scanned.there in
                let all : found ≡ entries_of (Map.lookup file_id e0.world.data_files) =
                  scanned.found_lem ∙ sym (ap entries_of before) in
                (
                  record {
                    copying = Copying-same crc32 both.copying same refl refl refl;
                    progress =
                        Progress-same (recount (ap (λ l. length l + n) (sym all)) both.progress)
                          same refl refl refl refl;
                  },
                  All-mono (InFile file_id s.engine.world) (InFile file_id u) found
                      (λ p h.
                        stored-Extends (place_of p.1 file_id (value_pos_of p)) p.1.value
                          (Extends-same same) h)
                      (Scanned-InFile crc32 file_id s.engine.world found scanned),
                  all,
                  (scanned.bytes, before),
                ))
              (λ u same. Sees-trans both.copying.sees (Sees-Extends refl (Extends-same same))))
            (λ found t (both', at, all, (bytes, before)).
              After-bind (copy_entries crc32 no_hook file_id found) _
                (copy_entries-Both file_id found t both' at)
                (λ _ u done. record {
                  holds = (
                    u.engine.world,
                    record {
                      copying = Copying-same crc32 done.copying refl refl refl refl;
                      progress =
                          Progress-same
                            (Progress-mono crc32 a e0 done.progress (λ key at there below. elim [
                              | inl h ↦ inl h
                              | inr is ↦ inr (
                                  subst (λ l. Any (IsPlace file_id key at) l) (sym all)
                                    (subst
                                      (λ i.
                                        Any (IsPlace i key at)
                                          (entries_of (Map.lookup i e0.world.data_files)))
                                      is
                                      (found_there done.progress bytes key at there below
                                        (ap (λ i. Map.lookup i e0.world.data_files) is ∙ before))))
                            ]))
                            refl refl refl refl refl;
                    },
                  );
                }))
