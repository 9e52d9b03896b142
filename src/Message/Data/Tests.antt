-- ===== src/Message/Data/Tests.antt =====
-- The `DATA` stream on concrete input, over a scripted sink and a source that gives single bytes.
use kannader.Prelude.{
  ℕ, zero, suc, ◌≤◌, Bool, true, false, Option, none, some, List, [], ◌∷◌, ◌++◌, ◌≡◌, refl, sym, ap,
  ◌∙◌, Bytes, length, arith, take, min, append-nil, flatten, take-min, codes,
}
use kannader.Message.Io.{Poll, pending, ready, AsyncWrite, AsyncRead}
use kannader.Message.Data.Spec.{wire}
use kannader.Message.Data.Writer
use kannader.Message.Data.Writer.{
  EscapingDataWriter, poll_write, poll_write_bufs, poll_scanned, poll_all, poll_escape, scan,
  scan_bufs, set_state_until, advance_all, advance, classify,
}
use kannader.Message.Data.Writer.Progress.{
  Writes, done, poll, Polled, Writes-wire, poll_write-Polled,
}
use kannader.Message.Data.Writer.Faults.{
  poll_write_dot_zero, poll_write_pending_undoubles, poll_write_bufs_short_undoubles,
}
use kannader.Message.Data.Reader
use kannader.Message.Data.Writer.Reference.{stuff_from}
use kannader.Message.Data.Reader.{
  EscapedDataReader, poll_read_bufs, fill_own, after_read, after_fill, pass_on, keep_rest,
  copy_back, fill, next,
}
use kannader.Message.Data.Reader.Total.{Answers, poll_read_bufs-Answers}
use kannader.Message.Data.Unescaper.{unescape, unescape_loop, position, move}
use kannader.Message.Data.Unescaper.Bounds.{Ends, unescape-Ends}
use kannader.Message.Data.Reader.Mark.{scan_mark, scan-wire}
use kannader.Message.Data.Reader.Conserve.{IsValid, Delivered, poll_read_bufs-Delivered}

-- A sink whose polls take at most so many bytes, or are pending; then they take all.
record Sink : Type 0 where
  log : Bytes
  script : List (Option ℕ)

abbrev sink_poll : List (Option ℕ) → Bytes → List Bytes → Sink × Poll ℕ
sink_poll [] log bufs =
    (record { log = log ++ flatten bufs; script = [] }, ready (length (flatten bufs)))
sink_poll (none ∷ s) log bufs = (record { log = log; script = s }, pending)
sink_poll (some k ∷ s) log bufs = (
  record { log = log ++ take k (flatten bufs); script = s },
  ready (min (length (flatten bufs)) k),
)

sink_bound :
    (s : List (Option ℕ)) (log : Bytes) (bufs : List Bytes) (n : ℕ)
    → (sink_poll s log bufs).1 ≡ ready n
    → n ≤ length (flatten bufs)
sink_bound [] log bufs n h = ground arith
sink_bound (none ∷ s) log bufs n h = absurd (ground arith)
sink_bound (some k ∷ s) log bufs n h = ground arith

take_all_of : (xs : Bytes) (n : ℕ) → length xs ≡ n → xs ≡ take n xs
take_all_of [] zero h = refl
take_all_of [] (suc n) h = refl
take_all_of (x ∷ xs) zero h = absurd (omega arith)
take_all_of (x ∷ xs) (suc n) h = ap (◌∷◌ x) (take_all_of xs n (omega arith))

sink_sends :
    (s : List (Option ℕ)) (log : Bytes) (bufs : List Bytes) (n : ℕ)
    → (sink_poll s log bufs).1 ≡ ready n
    → (sink_poll s log bufs).0.log ≡ log ++ take n (flatten bufs)
sink_sends [] log bufs n h = ap (λ ys. log ++ ys) (take_all_of (flatten bufs) n (ground arith))
sink_sends (none ∷ s) log bufs n h = absurd (ground arith)
sink_sends (some k ∷ s) log bufs n h =
    let count : min (length (flatten bufs)) k ≡ n = ground arith in
    ap (λ ys. log ++ ys) (sym (take-min k (flatten bufs)) ∙ ap (λ m. take m (flatten bufs)) count)

sink_keeps :
    (s : List (Option ℕ)) (log : Bytes) (bufs : List Bytes)
    → (sink_poll s log bufs).1 ≡ pending
    → (sink_poll s log bufs).0.log ≡ log
sink_keeps [] log bufs h = absurd (ground arith)
sink_keeps (none ∷ s) log bufs h = refl
sink_keeps (some k ∷ s) log bufs h = absurd (ground arith)

abbrev sink : AsyncWrite
sink = record {
  Writer = Sink;
  poll_write_vectored = λ w bufs. sink_poll w.script w.log bufs;
  poll_flush = λ w. (w, ready tt);
  sent = λ w. w.log;
  ready_bound = λ w bufs. sink_bound w.script w.log bufs;
  ready_sends = λ w bufs. sink_sends w.script w.log bufs;
  pending_sends = λ w bufs. sink_keeps w.script w.log bufs;
}

-- A source that gives one byte a poll.
record Source : Type 0 where
  given : Bytes
  rest : Bytes

abbrev put : ℕ → List Bytes → List Bytes × Bool
put c [] = ([], false)
put c ([] ∷ bs) = let (bs', fits) = put c bs in ([] ∷ bs', fits)
put c ((x ∷ b) ∷ bs) = ((c ∷ b) ∷ bs, true)

abbrev after_put : Source → Source → List Bytes × Bool → Source × List Bytes × Poll ℕ
after_put r r' (bufs, true) = (r', bufs, ready 1)
after_put r r' (bufs, false) = (r, bufs, ready 0)

abbrev source_poll : Bytes → Bytes → List Bytes → Source × List Bytes × Poll ℕ
source_poll given [] bufs = (record { given = given; rest = [] }, bufs, ready 0)
source_poll given (c ∷ cs) bufs =
    after_put (record { given = given; rest = c ∷ cs })
      (record { given = given ++ c ∷ []; rest = cs }) (put c bufs)

put_keeps : (c : ℕ) (bufs : List Bytes) → length (flatten (put c bufs).0) ≡ length (flatten bufs)
put_keeps c [] = refl
put_keeps c ([] ∷ bs) = put_keeps c bs
put_keeps c ((x ∷ b) ∷ bs) = refl

put_first :
    (c : ℕ) (bufs : List Bytes) → (put c bufs).1 ≡ true → take 1 (flatten (put c bufs).0) ≡ c ∷ []
put_first c [] h = absurd (ground arith)
put_first c ([] ∷ bs) h = put_first c bs h
put_first c ((x ∷ b) ∷ bs) h = refl

put_long : (c : ℕ) (bufs : List Bytes) → (put c bufs).1 ≡ true → 1 ≤ length (flatten (put c bufs).0)
put_long c [] h = absurd (ground arith)
put_long c ([] ∷ bs) h = put_long c bs h
put_long c ((x ∷ b) ∷ bs) h = omega arith

source_keeps :
    (given rest : Bytes) (bufs : List Bytes)
    → length (flatten (source_poll given rest bufs).1) ≡ length (flatten bufs)
source_keeps given [] bufs = refl
source_keeps given (c ∷ cs) bufs = after (put c bufs) ∙ put_keeps c bufs
  where
    after :
        (p : List Bytes × Bool)
        → length (
            flatten
              (after_put
                (record { given = given; rest = c ∷ cs })
                (record { given = given ++ c ∷ []; rest = cs })
                p).1)
          ≡ length (flatten p.0)
    after (bs, true) = refl
    after (bs, false) = refl

-- What a poll with an answer has put.
after_put_ready :
    (r r' : Source) (c : ℕ) (p : List Bytes × Bool) (n : ℕ)
    → (p.1 ≡ true → take 1 (flatten p.0) ≡ c ∷ [])
    → (p.1 ≡ true → 1 ≤ length (flatten p.0))
    → r'.given ≡ r.given ++ c ∷ []
    → (after_put r r' p).2 ≡ ready n
    → (n ≤ length (flatten (after_put r r' p).1))
      × ((after_put r r' p).0.given ≡ r.given ++ take n (flatten (after_put r r' p).1))
after_put_ready r r' c (bs, true) n first long e h =
    let one : 1 ≡ n = ground arith in
    (
      omega (arith, long refl),
      e ∙ ap (λ ys. r.given ++ ys) (sym (first refl) ∙ ap (λ m. take m (flatten bs)) one),
    )
after_put_ready r r' c (bs, false) n first long e h =
    let zero_bytes : 0 ≡ n = ground arith in
    (omega arith, sym (append-nil r.given) ∙ ap (λ m. r.given ++ take m (flatten bs)) zero_bytes)

source_ready :
    (given rest : Bytes) (bufs : List Bytes) (n : ℕ)
    → (source_poll given rest bufs).2 ≡ ready n
    → (n ≤ length (flatten (source_poll given rest bufs).1))
      × ((source_poll given rest bufs).0.given
          ≡ given ++ take n (flatten (source_poll given rest bufs).1))
source_ready given [] bufs n h =
    let zero_bytes : 0 ≡ n = ground arith in
    (omega arith, sym (append-nil given) ∙ ap (λ m. given ++ take m (flatten bufs)) zero_bytes)
source_ready given (c ∷ cs) bufs n h =
    after_put_ready _ _ c (put c bufs) n (put_first c bufs) (put_long c bufs) refl h

abbrev source : AsyncRead
source = record {
  Reader = Source;
  poll_read_vectored = λ r bufs. source_poll r.given r.rest bufs;
  got = λ r. r.given;
  ready_bound = λ r bufs n h. (source_ready r.given r.rest bufs n h).0;
  keeps_length = λ r bufs. source_keeps r.given r.rest bufs;
  ready_gets = λ r bufs n h. (source_ready r.given r.rest bufs n h).1;
}

abbrev at_line : List (Option ℕ) → EscapingDataWriter sink
at_line s = Writer.new sink (record { log = []; script = s })

abbrev text : Bytes
text = codes "a\r\n.b"

wire_text : wire text ≡ codes "a\r\n..b\r\n.\r\n"
wire_text = refl

-- Two short polls: one ends behind the line break, one sends only the extra dot.
text_Writes : (e : EscapingDataWriter sink) × Writes sink (at_line (some 3 ∷ some 1 ∷ [])) text e
unfolding poll_write poll_write_bufs poll_scanned poll_all poll_escape scan_bufs scan classify
    set_state_until advance_all advance
text_Writes = (
  record { state = Writer.start; write = record { log = codes "a\r\n..b"; script = [] } },
  poll text [] refl refl (poll (codes ".b") [] refl refl (poll (codes ".b") [] refl refl done)),
)

Writes-wire_example : text_Writes.0.write.log ++ Writer.finish text_Writes.0.state ≡ [] ++ wire text
Writes-wire_example =
    Writes-wire sink (record { log = []; script = some 3 ∷ some 1 ∷ [] }) text text_Writes.1

short_poll :
    (r : EscapingDataWriter sink × ℕ) × (poll_write sink (at_line (some 3 ∷ [])) text
      ≡ (r.0, ready r.1))
unfolding poll_write poll_write_bufs poll_scanned poll_all poll_escape scan_bufs scan classify
    set_state_until advance_all advance
short_poll = (
  (record { state = Writer.cr_lf; write = record { log = codes "a\r\n"; script = [] } }, 3),
  refl,
)

poll_write-Polled_example : Polled sink (at_line (some 3 ∷ [])) text short_poll.0.0 short_poll.0.1
poll_write-Polled_example = poll_write-Polled sink (at_line (some 3 ∷ [])) text short_poll.1

dot_poll :
    (e : EscapingDataWriter sink) × (poll_write sink (at_line []) (codes ".b") ≡ (e, ready 0))
unfolding poll_write poll_write_bufs poll_scanned poll_all poll_escape scan_bufs scan classify
    set_state_until advance_all advance
dot_poll = (record { state = Writer.start; write = record { log = codes "."; script = [] } }, refl)

poll_write_dot_zero_example : ◌≡◌ {A = ℕ} 0 0
poll_write_dot_zero_example = poll_write_dot_zero sink (at_line []) (codes "b") refl dot_poll.1

pending_poll :
    (e : EscapingDataWriter sink) × (poll_write sink
        (record { state = Writer.cr; write = record { log = []; script = none ∷ [] } })
        (codes "\n.x")
      ≡ (e, pending))
unfolding poll_write poll_write_bufs poll_scanned poll_all poll_escape scan_bufs scan classify
    set_state_until advance_all advance
pending_poll = (record { state = Writer.cr_lf; write = record { log = []; script = [] } }, refl)

poll_write_pending_undoubles_example :
    (stuff_from Writer.cr (codes "\n.x") ≡ codes "\n..x")
    × (stuff_from pending_poll.0.state (codes "\n.x") ≡ codes "\n.x")
unfolding classify
poll_write_pending_undoubles_example =
    poll_write_pending_undoubles sink
      (record { state = Writer.cr; write = record { log = []; script = none ∷ [] } }) (codes "x")
      refl pending_poll.1

poll_write_bufs_short_undoubles_example :
    (codes "ab\r\n" ≡ [] ++ codes "ab\r\n")
    × (advance_all Writer.cr_lf (codes "ab\r\n") ≡ Writer.cr_lf)
    × (stuff_from Writer.cr_lf (codes ".cd") ≡ codes "..cd")
    × ((poll_write_bufs sink (at_line (some 4 ∷ [])) (codes "ab\r\n" ∷ codes ".cd" ∷ [])).1
        ≡ ready 4)
    × (stuff_from
          (poll_write_bufs sink (at_line (some 4 ∷ [])) (codes "ab\r\n" ∷ codes ".cd" ∷ [])).0.state
          (codes ".cd")
        ≡ codes ".cd")
unfolding scan classify
poll_write_bufs_short_undoubles_example =
    poll_write_bufs_short_undoubles sink (at_line (some 4 ∷ [])) b'a' b'b' b'c' (codes "d") [] refl
      refl

scan_mark_example : (Reader.scan Reader.cr_lf (codes "a\r\n.\r\nQUIT")).1 ≡ some 5
scan_mark_example = scan_mark (codes "a\r\n.\r\nQUIT")

scan-wire_example :
    (i : ℕ) × (Reader.scan Reader.cr_lf (wire text ++ codes "QUIT\r\n") ≡ (Reader.end, some i))
    × (suc i ≡ 11)
scan-wire_example = scan-wire text (codes "QUIT\r\n")

-- A reader whose own five bytes hold the mark and the beginning of a command.
abbrev held : EscapedDataReader source
held = Reader.new source (codes ".\r\nQU") 0 5 (record { given = []; rest = codes "IT" })

held-IsValid : IsValid source held
held-IsValid = record { ordered = omega arith; in_buf = omega arith }

held_poll :
    (r : EscapedDataReader source × List Bytes) × (poll_read_bufs source held
        ((0 ∷ 0 ∷ 0 ∷ 0 ∷ []) ∷ [])
      ≡ some (r.0, r.1, ready 3))
unfolding poll_read_bufs fill_own after_read after_fill pass_on keep_rest copy_back fill
    Reader.scan_bufs Reader.scan next
held_poll = (
  (
    record {
      buf = codes ".\r\nQU";
      from = 3;
      to = 5;
      state = Reader.end;
      read = record { given = []; rest = codes "IT" };
    },
    codes ".\r\nQ" ∷ [],
  ),
  refl,
)

poll_read_bufs-Delivered_example : Delivered source held held_poll.0.0 held_poll.0.1 3
poll_read_bufs-Delivered_example =
    poll_read_bufs-Delivered source held ((0 ∷ 0 ∷ 0 ∷ 0 ∷ []) ∷ []) held-IsValid refl held_poll.1

poll_read_bufs-Answers_example :
    Answers source (poll_read_bufs source held ((0 ∷ 0 ∷ 0 ∷ 0 ∷ []) ∷ []))
poll_read_bufs-Answers_example =
    poll_read_bufs-Answers source held ((0 ∷ 0 ∷ 0 ∷ 0 ∷ []) ∷ []) held-IsValid (omega arith)

unescape-Ends_example :
    Ends (length (codes "a\r\n..b\r\n.\r\n")) (unescape true (codes "a\r\n..b\r\n.\r\n")).1
unescape-Ends_example = unescape-Ends true (codes "a\r\n..b\r\n.\r\n")

-- One dot is taken out, and the mark is handled.
unescaped :
    (unescape true (codes "a\r\n..b\r\n.\r\n")).1
    ≡ some (record { bytes = codes "a\r\n.b\r\n\n.\r\n"; written = 7; unhandled_idx = 11 })
unfolding unescape unescape_loop position move
unescaped = refl
