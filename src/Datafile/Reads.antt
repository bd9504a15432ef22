-- ===== src/Datafile/Reads.antt =====
-- src/datafile.rs `DataFileSet::read_at`: the bytes at a place, where no call fails.
use yabiir.Base.{
  ℕ, ◌+◌, ◌≤◌, ◌≡◌, refl, ◌∙◌, Bool, true, false, Bool-cases, inl, inr, some, Bytes, length, take,
  drop, leb, ◌==◌, ==_iff, arith,
}
use yabiir.Base.Map
use yabiir.Base.Map.{nat_eq}
use yabiir.Error.{ok}
use yabiir.Io.{Exec, ◌>>=◌}
use yabiir.Io.Read.Laws.{NoFault}
use yabiir.Io.Disk.{World, syscall, open_data}
use yabiir.Recovery.Scan.{Settles, Settles-bind, syscall-Settles, open_data-Settles}
use yabiir.Datafile.{DataFileSet, is_cached, handle, on_files, pread_exact, read_at}

-- The action returns `a` and changes no data file, and no call to come fails.
pub record Finds {A : Type 0} (m : Exec DataFileSet A) (s : DataFileSet) (a : A) : Type 0 where
  pub result : (m s).0 ≡ ok a
  pub data_kept : (m s).1.world.data_files ≡ s.world.data_files
  pub calm : NoFault (m s).1.world.plan

Finds-bind :
    {A B : Type 0} (m : Exec DataFileSet A) (f : A → Exec DataFileSet B) {s : DataFileSet} {a : A}
    {b : B}
    → Finds m s a
    → Finds (f a) (m s).1 b
    → Finds (m >>= f) s b
Finds-bind m f p q = record {
  result = rw (p.result) q.result;
  data_kept = rw (p.result) (q.data_kept ∙ p.data_kept);
  calm = rw (p.result) q.calm;
}

on_files-Finds :
    {A : Type 0} (m : Exec World A) (s : DataFileSet) {a : A}
    → Settles m s.world a
    → Finds (on_files m) s a
on_files-Finds m s p = record { result = p.result; data_kept = p.data_kept; calm = p.calm }

pread_exact-Settles :
    (bytes : Bytes) (pos len : ℕ) (w : World)
    → NoFault w.plan
    → pos + len ≤ length bytes
    → Settles (pread_exact bytes pos len) w (take len (drop pos bytes))
unfolding pread_exact
pread_exact-Settles bytes pos len w calm h = elim (Bool-cases (len == 0)) [
  | inl nothing ↦
      rw (nothing, (==_iff len 0).0 nothing)
        (record { result = refl; data_kept = refl; hints_kept = refl; calm = calm })
  | inr wanted ↦
      let called = syscall-Settles w calm in
      let fits : leb (pos + len) (length bytes) ≡ true = ground arith in
      rw (wanted, fits)
        (Settles-bind syscall _ called
          (record { result = refl; data_kept = refl; hints_kept = refl; calm = called.calm }))
]

module _ (id : ℕ) {bytes : Bytes} (s : DataFileSet) (calm : NoFault s.world.plan)
    (there : Map.lookup id s.world.data_files ≡ some bytes) where
  -- Whether the handle is cached makes no difference.
  handle-Finds : (cached : Bool) → Finds (handle cached id) s bytes
  unfolding handle
  handle-Finds true = record { result = rw there refl; data_kept = refl; calm = calm }
  handle-Finds false =
      let opened = on_files-Finds (open_data id) s (open_data-Settles id s.world calm there) in
      Finds-bind (on_files (open_data id)) _ opened
        (record { result = refl; data_kept = refl; calm = opened.calm })

  pub read_at-Finds :
      (pos len : ℕ)
      → pos + len ≤ length bytes
      → Finds (read_at id pos len) s (take len (drop pos bytes))
  unfolding read_at
  read_at-Finds pos len h =
      let opened = handle-Finds (is_cached id s.readers) in
      let s' = (handle (is_cached id s.readers) id s).1 in
      let found =
        on_files-Finds (pread_exact bytes pos len) s'
          (pread_exact-Settles bytes pos len s'.world opened.calm h) in
      let both =
        Finds-bind (handle (is_cached id s.readers) id) (λ b. on_files (pread_exact b pos len))
          opened found in
      record { result = both.result; data_kept = both.data_kept; calm = both.calm }
