-- ===== src/Recovery/Directory.antt =====
-- src/recovery.rs `recover`: a whole directory, where no hint file is of use.
use mathlib.Core.Path.{subst}
use yabiir.Base.{
  ℕ, ◌≡◌, refl, sym, ap, ◌∙◌, ◌⊎◌, inl, inr, Bool, true, false, Option, none, some, List, [], ◌∷◌,
  ◌++◌, Bytes, All, All-mono, if◌then◌else◌,
}
use yabiir.Base.Map
use yabiir.Base.Map.{nat_eq}
use yabiir.Crc32.{Crc32}
use yabiir.Error.{ok}
use yabiir.Io.{Exec, pure, ◌>>=◌}
use yabiir.Io.Read.Laws.{NoFault}
use yabiir.Io.Disk.{World, syscall, hint_exists, read_hint_file}
use yabiir.Format.Hint.{verify_hint_file}
use yabiir.Keydir
use yabiir.Keydir.{Keydir, KeydirEntry}
use yabiir.Recovery.{use_content, scan_data_file, try_scan_hint_file, recover_file, recover}
use yabiir.Recovery.Parsed.{apply_all}
use yabiir.Recovery.Newest.{newest, get-apply_all}
use yabiir.Recovery.Log.{Item, ItemFits, IsTail, file_bytes, file_entries}
use yabiir.Recovery.Scan.{Settles, Recovers, Settles-bind, syscall-Settles, scan_data_file-items}

-- A data file: its id, its entries, and what a crash left behind them.
pub record DataFile : Type 0 where
  pub id : ℕ
  pub items : List Item
  pub tail : Bytes

module _ {Hasher : Type 0} (crc32 : Crc32 Hasher) where
  -- There is no hint file, or it fails its checksum.
  abbrev pub IsHintless : World → ℕ → Type 0
  IsHintless w id =
      (Map.lookup id w.hint_files ≡ none)
      ⊎ ((bytes : Bytes) × (Map.lookup id w.hint_files ≡ some bytes)
          × (verify_hint_file crc32 bytes ≡ none))

  -- The file is in the directory.
  pub record Stands (w : World) (file : DataFile) : Type 0 where
    pub fits : All (ItemFits crc32) file.items
    pub cut : IsTail crc32 file.tail
    pub there : Map.lookup file.id w.data_files ≡ some (file_bytes crc32 file.items ++ file.tail)
    pub hintless : IsHintless w file.id

  Stands-kept :
      {w w' : World} (file : DataFile)
      → w'.data_files ≡ w.data_files
      → w'.hint_files ≡ w.hint_files
      → Stands w file
      → Stands w' file
  Stands-kept file hd hh s = record {
    fits = s.fits;
    cut = s.cut;
    there = ap (Map.lookup file.id) hd ∙ s.there;
    hintless =
        subst
          (λ (hints : List (ℕ × Bytes)).
            (Map.lookup file.id hints ≡ none)
            ⊎ ((bytes : Bytes) × (Map.lookup file.id hints ≡ some bytes)
                × (verify_hint_file crc32 bytes ≡ none)))
          (sym hh) s.hintless;
  }

  -- What one file makes of the keydir, and all files one after the other.
  abbrev pub recovered_file : DataFile → Keydir → Keydir
  recovered_file file keydir = apply_all file.id (file_entries crc32 0 file.items) keydir

  abbrev pub recovered : List DataFile → Keydir → Keydir
  recovered [] keydir = keydir
  recovered (file ∷ files) keydir = recovered files (recovered_file file keydir)

  abbrev pub file_ids : List DataFile → List ℕ
  file_ids [] = []
  file_ids (file ∷ files) = file.id ∷ file_ids files

  -- What `recover_file` does before it decides on the scan.
  abbrev try_hint : ℕ → Keydir → Exec World (Bool × Keydir)
  try_hint id keydir = hint_exists id >>= λ exists.
      if exists then try_scan_hint_file crc32 id keydir else pure (false, keydir)

  hint_exists-Settles :
      (id : ℕ) (w : World) (b : Bool)
      → NoFault w.plan
      → (hint_exists id w).0 ≡ ok b
      → Settles (hint_exists id) w b
  unfolding hint_exists
  hint_exists-Settles id w b calm h =
      let called = syscall-Settles w calm in
      record {
        result = h;
        data_kept = called.data_kept;
        hints_kept = called.hints_kept;
        calm = called.calm;
      }

  exists_not :
      (id : ℕ) (w : World)
      → NoFault w.plan
      → Map.lookup id w.hint_files ≡ none
      → (hint_exists id w).0 ≡ ok false
  unfolding hint_exists
  exists_not id w calm h = rw h refl

  exists_there :
      (id : ℕ) (w : World) {bytes : Bytes}
      → NoFault w.plan
      → Map.lookup id w.hint_files ≡ some bytes
      → (hint_exists id w).0 ≡ ok true
  unfolding hint_exists
  exists_there id w calm h = rw (h, (syscall-Settles w calm).result) refl

  read_hint_file-Settles :
      (id : ℕ) (w : World) {bytes : Bytes}
      → NoFault w.plan
      → Map.lookup id w.hint_files ≡ some bytes
      → Settles (read_hint_file id) w bytes
  unfolding read_hint_file
  read_hint_file-Settles id w {bytes} calm h =
      let called = syscall-Settles w calm in
      let there : Map.lookup id (syscall w).1.hint_files ≡ some bytes =
        ap (Map.lookup id) called.hints_kept ∙ h in
      Settles-bind syscall _ called (record {
        result = rw there refl;
        data_kept = rw there refl;
        hints_kept = rw there refl;
        calm = rw there called.calm;
      })

  use_content-Settles :
      (id : ℕ) (keydir : Keydir) (w : World)
      → NoFault w.plan
      → Settles (use_content id keydir none) w (false, keydir)
  unfolding use_content
  use_content-Settles id keydir w calm = record {
    result = refl;
    data_kept = refl;
    hints_kept = refl;
    calm = calm;
  }

  -- A hint file that is of no use leaves the keydir alone.
  try_hint-Settles :
      (id : ℕ) (keydir : Keydir) (w : World)
      → NoFault w.plan
      → IsHintless w id
      → Settles (try_hint id keydir) w (false, keydir)
  unfolding try_scan_hint_file
  try_hint-Settles id keydir w calm (inl absent) =
      let looked = hint_exists-Settles id w false calm (exists_not id w calm absent) in
      Settles-bind (hint_exists id) _ looked
        (record { result = refl; data_kept = refl; hints_kept = refl; calm = looked.calm })
  try_hint-Settles id keydir w calm (inr (bytes, there, invalid)) =
      let looked = hint_exists-Settles id w true calm (exists_there id w calm there) in
      let read =
        read_hint_file-Settles id (hint_exists id w).1 looked.calm
          (ap (Map.lookup id) looked.hints_kept ∙ there) in
      Settles-bind (hint_exists id) _ looked (
        Settles-bind (read_hint_file id) _ read (
          rw invalid
            (use_content-Settles id keydir (read_hint_file id (hint_exists id w).1).1 read.calm)))

  recover_file-Settles :
      (file : DataFile) (keydir : Keydir) (w : World)
      → NoFault w.plan
      → Stands w file
      → Settles (recover_file crc32 file.id keydir) w (recovered_file file keydir)
  unfolding recover_file hint_exists
  recover_file-Settles file keydir w calm s =
      let tried = try_hint-Settles file.id keydir w calm s.hintless in
      let after = (try_hint file.id keydir w).1 in
      let s' = Stands-kept {w = w} {w' = after} file tried.data_kept tried.hints_kept s in
      Settles-bind (try_hint file.id keydir)
        (λ (used_hint, scanned).
          if used_hint then pure scanned else scan_data_file crc32 file.id scanned)
        tried
        (scan_data_file-items crc32 file.id keydir after file.items file.tail s'.fits s'.cut
          tried.calm s'.there)

  -- Recovery applies exactly the intact entries, file by file.
  pub recover-items :
      (files : List DataFile) (keydir : Keydir) (w : World)
      → NoFault w.plan
      → All (Stands w) files
      → Settles (recover crc32 (file_ids files) keydir) w (recovered files keydir)
  unfolding recover
  recover-items [] keydir w calm stand = record {
    result = refl;
    data_kept = refl;
    hints_kept = refl;
    calm = calm;
  }
  recover-items (file ∷ files) keydir w calm (s, stand) =
      let first = recover_file-Settles file keydir w calm s in
      let after = (recover_file crc32 file.id keydir w).1 in
      Settles-bind (recover_file crc32 file.id keydir) (recover crc32 (file_ids files)) first (
        recover-items files (recovered_file file keydir) after first.calm (
          All-mono _ _ files
            (λ f. Stands-kept {w = w} {w' = after} f first.data_kept first.hints_kept) stand))

  -- What the files say of a key, one after the other.
  abbrev pub newest_in : List DataFile → Bytes → Option KeydirEntry → Option KeydirEntry
  newest_in [] key before = before
  newest_in (file ∷ files) key before =
      newest_in files key (newest crc32 file.id 0 file.items key before)

  get-recovered :
      (w : World) (files : List DataFile) (keydir : Keydir) (key : Bytes)
      → All (Stands w) files
      → Keydir.get (recovered files keydir) key ≡ newest_in files key (Keydir.get keydir key)
  get-recovered w [] keydir key stand = refl
  get-recovered w (file ∷ files) keydir key (s, stand) =
      get-recovered w files (recovered_file file keydir) key stand
      ∙ ap (newest_in files key) (get-apply_all crc32 file.id 0 file.items keydir key s.fits)

  -- Let each data file hold entries whose sizes fit the header, some with a stored checksum that
  -- is not theirs, and behind them nothing or a part of one more entry. As long as no hint file
  -- passes its checksum and no call fails, recovery returns and changes no file. Then a key that an
  -- entry with the right checksum is about has what the last of those says, in the order of the list of
  -- ids and in each file in the order they were written: nothing if it is a tombstone, and if not
  -- the place of its value, which is the end of that entry, with the length of the value, the
  -- file's id and the time written. Every other key has what it had before.
  pub recover-files :
      (files : List DataFile) (keydir : Keydir) (w : World)
      → NoFault w.plan
      → All (Stands w) files
      → Recovers
          (recover crc32 (file_ids files) keydir)
          w
          (λ key. newest_in files key (Keydir.get keydir key))
  recover-files files keydir w calm stand = record {
    keydir = recovered files keydir;
    settles = recover-items files keydir w calm stand;
    get_lem = λ key. get-recovered w files keydir key stand;
  }
