-- ===== src/Engine/Writes.antt =====
-- src/engine.rs: the active file between writes, and its rotation, where no call fails.
use mathlib.Core.Path.{subst}
use yabiir.Base.{
  ℕ, ◌+◌, ◌-◌, ◌%◌, ◌^◌, ◌≤◌, ◌<◌, ◌≡◌, refl, ap, ◌∙◌, none, some, List, [], ◌++◌, Bytes, length,
  ==-refl, ==-ne, arith,
}
use yabiir.Base.Map
use yabiir.Base.Map.{nat_eq, lookup-insert, lookup-cons}
use yabiir.Error.{ok}
use yabiir.Io.{Exec, pure, ◌>>=◌, ◌>>◌}
use yabiir.Io.Read.Laws.{NoFault}
use yabiir.Format.Entry.{EncodedEntry}
use yabiir.Commit
use yabiir.Datafile
use yabiir.Datafile.{ActiveFile, Writing}
use yabiir.Datafile.Appends.{Leaves, start, append_lem, sync_lem, sync_handle_lem, create_lem}
use yabiir.Engine.{Engine, on_file, on_active, on_world, mark_all_durable, fetch_next_id, rotate}

-- The active file has the id and the contents, and its buffer is empty; the ids from the next one on
-- are free; and no call to come fails.
pub record Ready (e : Engine) (id : ℕ) (content : Bytes) : Type 0 where
  pub file : e.active ≡ some (record { file_id = id; buffer = []; offset = length content })
  pub there : Map.lookup id e.world.data_files ≡ some content
  pub older : id < e.next_file_id
  pub free : (j : ℕ) → e.next_file_id ≤ j → Map.lookup j e.world.data_files ≡ none
  pub calm : NoFault e.world.plan

-- The action returns `a` and the engine is ready again, with the same counters of the group
-- commit.
pub record Goes {A : Type 0} (m : Exec Engine A) (e : Engine) (a : A) (id : ℕ) (content : Bytes)
    : Type 0 where
  pub result : (m e).0 ≡ ok a
  pub ready : Ready (m e).1 id content
  pub next_kept : (m e).1.next_file_id ≡ e.next_file_id
  pub writes_kept : (m e).1.group_commit.pending_writes ≡ e.group_commit.pending_writes
  pub syncing_kept : (m e).1.group_commit.is_syncing ≡ e.group_commit.is_syncing

module _ {e : Engine} {id : ℕ} {content : Bytes} (r : Ready e id content) where
  -- An action on the active file.
  pub on_active-Goes :
      {A : Type 0} (m : Exec Writing A) {a : A} {content' : Bytes} {files hints : List (ℕ × Bytes)}
      → Leaves
          (m (start e.world id (length content)))
          a
          (record { file_id = id; buffer = []; offset = length content' })
          files
          hints
      → Map.lookup id files ≡ some content'
      → ((j : ℕ) → e.next_file_id ≤ j → Map.lookup j files ≡ none)
      → Goes (on_active m) e a id content'
  unfolding on_file
  on_active-Goes m l there free = rw (r.file) (record {
    result = l.result;
    ready = record {
      file = ap some l.file_lem;
      there = ap (Map.lookup id) l.data_lem ∙ there;
      older = r.older;
      free = λ j h. ap (Map.lookup j) l.data_lem ∙ free j h;
      calm = l.calm;
    };
    next_kept = refl;
    writes_kept = refl;
    syncing_kept = refl;
  })

  sync-Goes : Goes (on_active Datafile.sync) e tt id content
  sync-Goes =
      on_active-Goes Datafile.sync (sync_lem e.world id (length content) r.calm) r.there r.free

  pub sync_handle-Goes : Goes (on_active Datafile.sync_handle) e tt id content
  sync_handle-Goes =
      on_active-Goes Datafile.sync_handle (sync_handle_lem e.world id (length content) r.calm)
        r.there r.free

  pub len-Goes : Goes (on_active Datafile.len) e (length content) id content
  len-Goes =
      on_active-Goes Datafile.len
        (record { result = refl; file_lem = refl; data_lem = refl; hint_lem = refl; calm = r.calm })
        r.there r.free

  pub append-Goes :
      (encoded : EncodedEntry)
      → 0 < length encoded.bytes
      → Goes
          (on_active (Datafile.append encoded))
          e
          (id, length content + (length encoded.bytes - encoded.value_len), length encoded.bytes)
          id
          (content ++ encoded.bytes)
  append-Goes encoded h =
      let new_content = content ++ encoded.bytes in
      on_active-Goes (Datafile.append encoded) {content' = new_content}
        {files = Map.insert id new_content e.world.data_files} {hints = e.world.hint_files}
        (append_lem e.world id content r.calm r.there encoded h)
        (rw (lookup-insert, ==-refl id) refl)
        (λ j lt. rw (lookup-insert, ==-ne id j (omega (arith, r.older))) (r.free j lt))

module _ {A B : Type 0} {e : Engine} where
  pub Goes-bind :
      (m : Exec Engine A) (f : A → Exec Engine B) {a : A} {b : B} {id id' : ℕ}
      {content content' : Bytes}
      → Goes m e a id content
      → (Ready (m e).1 id content → Goes (f a) (m e).1 b id' content')
      → Goes (m >>= f) e b id' content'
  Goes-bind m f p q =
      let rest = q p.ready in
      record {
        result = rw (p.result) rest.result;
        ready = rw (p.result) rest.ready;
        next_kept = rw (p.result) (rest.next_kept ∙ p.next_kept);
        writes_kept = rw (p.result) (rest.writes_kept ∙ p.writes_kept);
        syncing_kept = rw (p.result) (rest.syncing_kept ∙ p.syncing_kept);
      }

-- The second half of a rotation, from the counter on.
abbrev new_file : Exec Engine (Unit {0})
new_file = (mark_all_durable >> fetch_next_id) >>= λ new_id.
    on_world (Datafile.create new_id) >>= λ file e. pure tt (record e { active = some file })

new_file-Ready :
    {e : Engine} {id : ℕ} {content : Bytes}
    → Ready e id content
    → e.next_file_id + 1 < 2 ^ 32
    → ((new_file e).0 ≡ ok tt)
      × Ready (new_file e).1 e.next_file_id []
      × ((new_file e).1.group_commit.pending_writes ≡ e.group_commit.pending_writes)
      × ((new_file e).1.group_commit.is_syncing ≡ e.group_commit.is_syncing)
unfolding fetch_next_id Commit.mark_all_durable
new_file-Ready {e} r h =
    let new_id = e.next_file_id in
    let (made, files, hints, calm) =
      create_lem e.world new_id r.calm (r.free new_id (omega arith)) in
    let moved : (new_id + 1) % 2 ^ 32 ≡ new_id + 1 = omega arith in
    rw made (
      refl,
      record {
        file = refl;
        there = ap (Map.lookup new_id) files ∙ rw (lookup-cons, ==-refl new_id) refl;
        older = rw moved (omega arith);
        free = λ j lt.
            ap (Map.lookup j) files
            ∙ rw (lookup-cons, ==-ne new_id j (omega (arith, rw moved at lt)))
                (r.free j (omega (arith, rw moved at lt)));
        calm = calm;
      },
      refl,
      refl,
    )

-- Rotation gives the new file the next id and leaves it empty.
pub rotate-Ready :
    {e : Engine} {id : ℕ} {content : Bytes}
    → Ready e id content
    → e.next_file_id + 1 < 2 ^ 32
    → ((rotate e).0 ≡ ok tt)
      × Ready (rotate e).1 e.next_file_id []
      × ((rotate e).1.group_commit.pending_writes ≡ e.group_commit.pending_writes)
      × ((rotate e).1.group_commit.is_syncing ≡ e.group_commit.is_syncing)
unfolding rotate
rotate-Ready {e} r h =
    let synced = sync-Goes r in
    let (made, ready, writes, syncing) = new_file-Ready synced.ready (rw (synced.next_kept) h) in
    let again = (on_active Datafile.sync e).1 in
    rw (synced.result) (
      made,
      subst (λ (n : ℕ). Ready (new_file again).1 n []) synced.next_kept ready,
      writes ∙ synced.writes_kept,
      syncing ∙ synced.syncing_kept,
    )
