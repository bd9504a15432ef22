-- ===== src/Io/BufWriter.antt =====
-- `std::io::BufWriter` over a file that is written by one call for each write, as the standard library
-- documents it. src/datafile.rs has its own copy of the buffer, beside the offset.
use yabiir.Base.{
  ℕ, ◌-◌, Bool, true, false, ◌++◌, Bytes, length, drop, ltb, leb, ◌==◌, if◌then◌else◌,
}
use yabiir.Io.{Exec, pure, ◌>>◌}
use yabiir.Io.Disk.{World, next_outcome, written}

-- The bytes that were not written yet.
pub record Buffered : Type 0 where
  pub world : World
  pub buffer : Bytes

abbrev pub buffer_capacity : ℕ
buffer_capacity = 8192

-- The writer is the call that writes to its file.
module _ (write : Bytes → Exec World (Unit {0})) where
  unfoldable pub flush_buffer : Exec Buffered (Unit {0})
  flush_buffer s = (
    (write s.buffer s.world).0,
    record {
      world = (write s.buffer s.world).1;
      buffer = drop (length (written s.buffer (next_outcome s.world.plan).0)) s.buffer;
    },
  )

  unfoldable pub flush : Exec Buffered (Unit {0})
  flush s = if length s.buffer == 0 then pure tt s else flush_buffer s

  unfoldable pub flush_if : Bool → Exec Buffered (Unit {0})
  flush_if true = flush
  flush_if false = pure tt

  abbrev pub push : Bytes → Exec Buffered (Unit {0})
  push bytes s = pure tt (record s { buffer = s.buffer ++ bytes })

  unfoldable pub write_or_push : Bool → Bytes → Exec Buffered (Unit {0})
  write_or_push true bytes s =
      ((write bytes s.world).0, record s { world = (write bytes s.world).1 })
  write_or_push false bytes s = push bytes s

  unfoldable pub write_all : Bytes → Exec Buffered (Unit {0})
  write_all bytes s =
      let spare = buffer_capacity - length s.buffer in
      if ltb (length bytes) spare
      then push bytes s
      else (flush_if (ltb spare (length bytes))
            >> write_or_push (leb buffer_capacity (length bytes)) bytes)
          s
