-- ===== src/Engine/Appends.antt =====
-- src/engine.rs `append` where no call fails: rotation and the shared fsync included.

use yabiir.Base.{
  ℕ, ◌+◌, ◌-◌, ◌^◌, ◌≤◌, ◌<◌, ◌≡◌, refl, sym, ap, ◌∙◌, Bool, true, false, some, [], ◌++◌, Bytes,
  length, drop, length-append, length-drop, drop-drop, drop-length, take-eq_of_le, leb, arith,
}
use yabiir.Base.Map
use yabiir.Base.Map.{nat_eq}
use yabiir.Crc32.{Crc32}
use yabiir.Error.{ok}
use yabiir.Io.{Exec, pure, ◌>>=◌, ◌>>◌}
use yabiir.Format.Entry.{EncodedEntry, encode_entry}
use yabiir.Keydir.{KeydirEntry}
use yabiir.Commit
use yabiir.Datafile
use yabiir.Engine.{Engine, on_active, record_pending, rotate_if, commit_if, after_append, append}
use yabiir.Engine.View.{cut, stored, stored-Extends}
use yabiir.Engine.Grows.{Keeps-after_append}
use yabiir.Engine.Writes.{Ready, Goes, len-Goes, append-Goes, rotate-Ready}
use yabiir.Engine.Syncs.{Ready-with_commit, commit_rounds-Goes}

-- The value stands at the end of an entry.
pub encode_entry_value :
    {Hasher : Type 0} (crc32 : Crc32 Hasher) (key value : Bytes) (tombstone : Bool) (tstamp : ℕ)
    → drop
        (length (encode_entry crc32 key value tombstone tstamp).bytes - length value)
        (encode_entry crc32 key value tombstone tstamp).bytes
      ≡ value
unfolding encode_entry
encode_entry_value crc32 key value tombstone tstamp =
    let at : length (encode_entry crc32 key value tombstone tstamp).bytes - length value
        ≡ 16 + length key =
      omega (arith, length-append key value) in
    ap (λ i. drop i (encode_entry crc32 key value tombstone tstamp).bytes) at
    ∙ sym (drop-drop (length key) 16 (encode_entry crc32 key value tombstone tstamp).bytes)
    ∙ drop-length key value

-- The bytes behind those that were there are found at their place.
pub cut-behind :
    (old bytes : Bytes) (n : ℕ)
    → n ≤ length bytes
    → cut (length old + n) (length bytes - n) (some (old ++ bytes)) ≡ some (drop n bytes)
cut-behind old bytes n h =
    let fits : leb (length old + n + (length bytes - n)) (length (old ++ bytes)) ≡ true =
      ground (arith, length-append old bytes) in
    let found : drop (length old + n) (old ++ bytes) ≡ drop n bytes =
      sym (drop-drop n (length old) (old ++ bytes)) ∙ ap (drop n) (drop-length old bytes) in
    rw (fits, found)
      (ap some
        (take-eq_of_le (length bytes - n) (drop n bytes) (omega (arith, length-drop n bytes))))

-- A store whose active file is ready, and where no fsync is in flight.
pub record Usable (e : Engine) : Type 0 where
  pub id : ℕ
  pub content : Bytes
  pub ready : Ready e id content
  pub idle : e.group_commit.is_syncing ≡ false

-- The two counters are not at their ends.
pub record HasRoom (e : Engine) : Type 0 where
  pub ids : e.next_file_id + 1 < 2 ^ 32
  pub generations : e.group_commit.pending_writes + 1 < 2 ^ 64

-- The action returns `a` and leaves a usable store.
pub record Returns {A : Type 0} (m : Exec Engine A) (e : Engine) (a : A) : Type 0 where
  pub result : (m e).0 ≡ ok a
  pub usable : Usable (m e).1

module _ {A B : Type 0} where
  pub Returns-bind :
      (m : Exec Engine A) (f : A → Exec Engine B) {e : Engine} {a : A} {b : B}
      → (m e).0 ≡ ok a
      → Returns (f a) (m e).1 b
      → Returns (m >>= f) e b
  Returns-bind m f p q = record { result = rw p q.result; usable = rw p q.usable }

-- Rotation or none.
rotate_if-Returns :
    (b : Bool) {e : Engine}
    → Usable e
    → e.next_file_id + 1 < 2 ^ 32
    → Returns (rotate_if b) e tt
      × ((rotate_if b e).1.group_commit.pending_writes ≡ e.group_commit.pending_writes)
unfolding rotate_if
rotate_if-Returns true u h =
    let (result, ready, writes, syncing) = rotate-Ready u.ready h in
    (
      record {
        result = result;
        usable = record { id = _; content = []; ready = ready; idle = syncing ∙ u.idle };
      },
      writes,
    )
rotate_if-Returns false u h = (record { result = refl; usable = u }, refl)

commit_if-Returns :
    (b : Bool) (target : ℕ) {e : Engine}
    → Usable e
    → target ≤ e.group_commit.pending_writes
    → Returns (commit_if b target) e tt
unfolding commit_if
commit_if-Returns true target u h =
    let done = commit_rounds-Goes u.ready target h u.idle in
    record {
      result = done.result;
      usable = record {
        id = u.id;
        content = u.content;
        ready = done.ready;
        idle = done.syncing_kept ∙ u.idle;
      };
    }
commit_if-Returns false target u h = record { result = refl; usable = u }

after_append-Returns :
    (place : ℕ × ℕ) (target len : ℕ) {e : Engine}
    → Usable e
    → e.next_file_id + 1 < 2 ^ 32
    → target ≤ e.group_commit.pending_writes
    → Returns (after_append place target len) e place
unfolding after_append
after_append-Returns place target len {e} u h covered =
    let b = leb e.opts.max_file_size len in
    let (rotated, writes) = rotate_if-Returns b u h in
    let committed =
      commit_if-Returns e.opts.should_sync_on_put target rotated.usable (rw writes covered) in
    let done =
      Returns-bind (rotate_if b) (λ _. commit_if e.opts.should_sync_on_put target >> pure place)
        rotated.result
        (Returns-bind (commit_if e.opts.should_sync_on_put target) (λ _. pure place)
          committed.result (record { result = refl; usable = committed.usable })) in
    record { result = done.result; usable = done.usable }

module _ {e : Engine} (u : Usable e) (room : HasRoom e) (encoded : EncodedEntry)
    (some_bytes : 0 < length encoded.bytes) where
  -- Where the value of the entry will stand.
  abbrev pub value_at : ℕ
  value_at = length u.content + (length encoded.bytes - encoded.value_len)

  -- After the write itself, and after the write is counted.
  abbrev written : Engine
  written = (on_active (Datafile.append encoded) e).1

  abbrev counted : Engine
  counted = (record_pending written).1

  written-Goes :
      Goes
        (on_active (Datafile.append encoded))
        e
        (u.id, value_at, length encoded.bytes)
        u.id
        (u.content ++ encoded.bytes)
  written-Goes = append-Goes u.ready encoded some_bytes

  counted-Ready : Ready counted u.id (u.content ++ encoded.bytes)
  counted-Ready = Ready-with_commit written-Goes.ready _

  counted_idle : counted.group_commit.is_syncing ≡ false
  unfolding Commit.record_pending
  counted_idle = written-Goes.syncing_kept ∙ u.idle

  len_known :
      Goes
        (on_active Datafile.len)
        counted
        (length (u.content ++ encoded.bytes))
        u.id
        (u.content ++ encoded.bytes)
  len_known = len-Goes counted-Ready

  -- What follows the write: the file's length is looked at, then `after_append`.
  abbrev measured : Engine
  measured = (on_active Datafile.len counted).1

  after_append-Returns_lem :
      Returns
        (after_append
          (u.id, value_at)
          counted.group_commit.pending_writes
          (length (u.content ++ encoded.bytes)))
        measured
        (u.id, value_at)
  unfolding Commit.record_pending
  after_append-Returns_lem =
      after_append-Returns (u.id, value_at) counted.group_commit.pending_writes
        (length (u.content ++ encoded.bytes))
        (record {
          id = u.id;
          content = u.content ++ encoded.bytes;
          ready = len_known.ready;
          idle = len_known.syncing_kept ∙ counted_idle;
        })
        (rw (len_known.next_kept, written-Goes.next_kept) room.ids)
        (rw (len_known.writes_kept) (omega arith))

  append_eq :
      append encoded e
      ≡ after_append
          (u.id, value_at)
          counted.group_commit.pending_writes
          (length (u.content ++ encoded.bytes))
          measured
  unfolding append Commit.record_pending
  append_eq = rw (written-Goes.result, len_known.result) refl

  -- The entry is in the file, wherever the active file is by now.
  pub append-stored :
      (entry : KeydirEntry)
      → entry.file_id ≡ u.id
      → entry.value_pos ≡ value_at
      → entry.value_size ≡ encoded.value_len
      → encoded.value_len ≤ length encoded.bytes
      → stored (append encoded e).1.world entry
        ≡ some (drop (length encoded.bytes - encoded.value_len) encoded.bytes)
  unfolding stored
  append-stored entry file pos size le =
      let len = length encoded.bytes in
      let whole : encoded.value_len ≡ len - (len - encoded.value_len) = omega arith in
      let before : stored measured.world entry
          ≡ some (drop (len - encoded.value_len) encoded.bytes) =
        rw (file, pos, size, len_known.ready.there)
          (ap (λ k. cut value_at k (some (u.content ++ encoded.bytes))) whole
            ∙ cut-behind u.content encoded.bytes (len - encoded.value_len) (omega arith)) in
      let grown =
        (Keeps-after_append (u.id, value_at) counted.group_commit.pending_writes
            (length (u.content ++ encoded.bytes))).at
          measured in
      rw append_eq (stored-Extends entry _ grown.extends before)

  -- The active file has the entry behind what was in it.
  pub append-logged :
      (more : Bytes) × (Map.lookup u.id (append encoded e).1.world.data_files
        ≡ some ((u.content ++ encoded.bytes) ++ more))
  append-logged =
      let grown =
        (Keeps-after_append (u.id, value_at) counted.group_commit.pending_writes
            (length (u.content ++ encoded.bytes))).at
          measured in
      rw append_eq (grown.extends.grown u.id (u.content ++ encoded.bytes) len_known.ready.there)

  -- An append that meets no failure returns the file that was active and the position of the value,
  -- and leaves a usable store.
  pub append-Returns : Returns (append encoded) e (u.id, value_at)
  append-Returns = record {
    result = rw append_eq after_append-Returns_lem.result;
    usable = rw append_eq after_append-Returns_lem.usable;
  }
