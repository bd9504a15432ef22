-- ===== src/Recovery/Hints.antt =====
-- src/recovery.rs `try_scan_hint_file`: the loop over the records ends.
use yabiir.Base.{
  ℕ, zero, suc, ◌<◌, ◌≡◌, ◌≢◌, refl, ap, Bool-cases, inl, inr, Option, none, some, List, [], ◌∷◌,
  ◌++◌, Bytes, length, take, drop, length-take, length-drop, ◌==◌, ltb, arith,
}
use yabiir.Error.{ok}
use yabiir.Io.{Exec}
use yabiir.Io.Read.{Reader, read_up_to}
use yabiir.Io.Read.Laws.{
  NoFault, Reads, Reads-bind, Reads-pure, read_up_to-Reads, read_up_to-Reads_of,
}
use yabiir.Format.Hint.{Hint, HintRead, hint_header_size, decode_hint_header, hint_of, read_hint}
use yabiir.Recovery.{hint_next, hint_loop, out_of_bounds}

-- The action returns something.
pub record Ends {A : Type 0} (m : Exec Reader A) (r : Reader) : Type 0 where
  pub value : A
  pub result : (m r).0 ≡ ok value

-- What the next record is, and that it takes bytes away where one was begun.
record Next (r : Reader) : Type 0 where
  next : Option HintRead
  rest : Bytes
  reads : Reads read_hint r next rest
  less : next ≢ none → length rest < length r.rest

read_hint-Next : (r : Reader) → NoFault r.plan → Next r
unfolding read_hint
read_hint-Next r calm =
    let head = read_up_to-Reads hint_header_size r calm in
    let r1 = (read_up_to hint_header_size r).1 in
    let header_buf = take hint_header_size r.rest in
    let behind = drop hint_header_size r.rest in
    elim (Bool-cases (length header_buf == 0)) [
      | inl empty ↦ record {
        next = none;
        rest = behind;
        reads =
            Reads-bind (read_up_to hint_header_size) _ head
              (rw empty (Reads-pure none r1 behind head.left head.calm));
        less = λ h. absurd (h refl);
      }
      | inr more ↦
          let shorter : length behind < length r.rest =
            ground
              (arith, length-take hint_header_size r.rest, length-drop hint_header_size r.rest) in
          elim (Bool-cases (ltb (length header_buf) hint_header_size)) [
            | inl short ↦ record {
              next = some HintRead.truncated;
              rest = behind;
              reads = Reads-bind (read_up_to hint_header_size) _ head (
                  rw (more, short)
                    (Reads-pure (some HintRead.truncated) r1 behind head.left head.calm));
              less = λ h. shorter;
            }
            | inr whole ↦
                let size = (decode_hint_header header_buf).0.key_size in
                let body = read_up_to-Reads_of size r1 behind head.left head.calm in
                let r2 = (read_up_to size r1).1 in
                let key = take size behind in
                let after = drop size behind in
                let less : length after < length r.rest =
                  omega (arith, length-drop size behind, shorter) in
                elim (Bool-cases (ltb (length key) size)) [
                  | inl short ↦ record {
                    next = some HintRead.truncated;
                    rest = after;
                    reads = Reads-bind (read_up_to hint_header_size) _ head (
                        rw (more, whole)
                          (Reads-bind (read_up_to size) _ body (
                            rw short (
                              Reads-pure (some HintRead.truncated) r2 after body.left body.calm))));
                    less = λ h. less;
                  }
                  | inr full_key ↦ record {
                    next = some (hint_of (decode_hint_header header_buf) key);
                    rest = after;
                    reads = Reads-bind (read_up_to hint_header_size) _ head (
                        rw (more, whole)
                          (Reads-bind (read_up_to size) _ body (
                            rw full_key (
                              Reads-pure (some (hint_of (decode_hint_header header_buf) key)) r2
                                after body.left body.calm))));
                    less = λ h. less;
                  }
                ]
          ]
    ]

hint_next-Ends :
    (next : Option HintRead) (data_file_len : ℕ) (records : List Hint) (r : Reader)
    (go_on : List Hint → Exec Reader (Option (List Hint)))
    → (next ≢ none → (l : List Hint) → Ends (go_on l) r)
    → Ends (hint_next next data_file_len records go_on) r
unfolding hint_next
hint_next-Ends none len records r go_on h = record { value = some records; result = refl }
hint_next-Ends (some HintRead.truncated) len records r go_on h = record {
  value = none;
  result = refl;
}
hint_next-Ends (some (HintRead.ok hint)) len records r go_on h =
    elim (Bool-cases (out_of_bounds len hint)) [
      | inl outside ↦ rw outside (record { value = none; result = refl })
      | inr inside ↦ rw inside (h (λ e. cc) (records ++ (hint ∷ [])))
    ]

-- With more rounds than there are bytes left to read, the loop over the records of a hint file
-- returns, whatever these bytes are and into however many pieces the reads are cut, as long as none
-- fails.
pub hint_loop-Ends :
    (fuel data_file_len : ℕ) (records : List Hint) (r : Reader)
    → length r.rest < fuel
    → NoFault r.plan
    → Ends (hint_loop fuel data_file_len records) r
unfolding hint_loop
hint_loop-Ends zero len records r enough calm = absurd (omega arith)
hint_loop-Ends (suc fuel) len records r enough calm =
    let next = read_hint-Next r calm in
    let r' = (read_hint r).1 in
    let ends = hint_next-Ends next.next len records r' (hint_loop fuel len) (λ more l.
      hint_loop-Ends fuel len l r' (omega (arith, ap length next.reads.left, next.less more))
        next.reads.calm) in
    record { value = ends.value; result = rw (next.reads.result) ends.result }
