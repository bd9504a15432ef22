-- ===== src/Merge/PendingQueue.antt =====
-- src/merge/pending_queue.rs: the repoints that wait for a flush, in the order they came.
use yabiir.Base.{ℕ, Bool, List, [], ◌∷◌, ◌++◌, Bytes, length, ◌==◌}
use yabiir.Format.Entry.{Entry}
use yabiir.Keydir.{KeydirEntry}

-- A key, the entry that was copied, and the entry of the copy.
abbrev pub Repoint : Type 0
Repoint = Bytes × KeydirEntry × KeydirEntry

abbrev pub PendingQueue : Type 0
PendingQueue = List Repoint

abbrev pub new : PendingQueue
new = []

unfoldable pub push : Repoint → PendingQueue → PendingQueue
push entry pending = pending ++ (entry ∷ [])

-- The keydir entry of an entry whose value stands at a place.
abbrev pub place_of : Entry → ℕ → ℕ → KeydirEntry
place_of entry file_id value_pos = record {
  file_id = file_id;
  value_size = entry.header.value_size;
  value_pos = value_pos;
  timestamp = entry.header.timestamp;
}

unfoldable pub queue : Entry → ℕ → ℕ → ℕ → ℕ → PendingQueue → PendingQueue
queue entry file_id new_file_id entry_value_pos new_value_pos pending =
    push
      (entry.key, place_of entry file_id entry_value_pos, place_of entry new_file_id new_value_pos)
      pending

-- `drain(..)`: what was queued, and the empty queue.
abbrev pub drain : PendingQueue → List Repoint × PendingQueue
drain pending = (pending, [])

abbrev pub len : PendingQueue → ℕ
len pending = length pending

abbrev pub is_empty : PendingQueue → Bool
is_empty pending = length pending == 0
