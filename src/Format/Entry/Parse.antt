-- ===== src/Format/Entry/Parse.antt =====
-- src/format/entry.rs `read_entry` as a function of the bytes: how the reads are cut up does not
-- matter.
use yabiir.Base.{Option, none, some, Bytes, length, take, drop, ltb, ◌==◌, if◌then◌else◌}
use yabiir.Crc32.{Crc32}
use yabiir.Io.Read.{Reader, read_up_to}
use yabiir.Io.Read.Laws.{
  NoFault, Reads, Reads-bind, Reads-if, Reads-pure, read_up_to-Reads, read_up_to-Reads_of,
}
use yabiir.Format.Entry.{EntryRead, truncated, header_size, check_body, body_len, read_entry}

module _ {Hasher : Type 0} (crc32 : Crc32 Hasher) where
  -- The entry whose header is read, and the bytes behind it.
  unfoldable pub parse_body : Bytes → Bytes → Option EntryRead × Bytes
  parse_body header_buf rest =
      let body = take (body_len crc32 header_buf) rest in
      let behind = drop (body_len crc32 header_buf) rest in
      if ltb (length body) (body_len crc32 header_buf)
      then (some truncated, behind)
      else (some (check_body crc32 header_buf body), behind)

  -- The entry at the front of the bytes, and the bytes behind it.
  unfoldable pub parse_entry : Bytes → Option EntryRead × Bytes
  unfolding parse_body
  parse_entry bytes =
      let header_buf = take header_size bytes in
      let behind = drop header_size bytes in
      if length header_buf == 0
      then (none, behind)
      else if ltb (length header_buf) header_size
      then (some truncated, behind)
      else parse_body header_buf behind

  -- `read_entry` returns the entry at the front of the file and stops behind it, into however many
  -- reads the operating system cuts its requests, as long as no read fails.
  pub read_entry-parse :
      (r : Reader)
      → NoFault r.plan
      → Reads (read_entry crc32) r (parse_entry r.rest).0 (parse_entry r.rest).1
  unfolding read_entry parse_entry
  read_entry-parse r calm =
      let head = read_up_to-Reads header_size r calm in
      let header_buf = take header_size r.rest in
      let bl = body_len crc32 header_buf in
      let behind = drop header_size r.rest in
      let body = read_up_to-Reads_of bl (read_up_to header_size r).1 behind head.left head.calm in
      let short = ltb (length (take bl behind)) bl in
      Reads-bind (read_up_to header_size) _ head (
        Reads-if (length header_buf == 0) _ _ _ (none, behind) _
          (λ _. Reads-pure none _ behind head.left head.calm)
          (λ _.
            Reads-if (ltb (length header_buf) header_size) _ _ _ (some truncated, behind) _
              (λ _. Reads-pure (some truncated) _ behind head.left head.calm)
              (λ _. Reads-bind (read_up_to bl) _ body (
                Reads-if short _ _ _ (some truncated, drop bl behind)
                  (some (check_body crc32 header_buf (take bl behind)), drop bl behind)
                  (λ _. Reads-pure _ _ _ body.left body.calm)
                  (λ _. Reads-pure _ _ _ body.left body.calm)))))
