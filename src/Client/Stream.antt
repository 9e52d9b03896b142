-- ===== src/Client/Stream.antt =====
-- smtp-client/src/lib.rs: `read_reply` and the bytes that the server sends.
use mathlib.Core.Path.{subst}
use kannader.Prelude.{
  ℕ, zero, suc, ◌+◌, ◌-◌, ◌≤◌, true, Bool-cases, Option, [], ◌∷◌, ◌++◌, Bytes, length, take, drop,
  slice, length-append, length-take, length-drop, take-append_length, slice_self, append_assoc,
  append-nil, inl, inr, ◌==◌, ltb, ◌≡◌, refl, sym, ap, ◌∙◌, arith,
}
use kannader.Queue.Types.{Result, ok, err}
use kannader.Message.Reply.{Reply}
use kannader.Client.Types.{
  Timed, in_time, too_late, Parsed, incomplete, syntax_error, parsed, Net, Outcome, gives, fails,
  panics, unfinished, Sender, ◌then◌,
}
use kannader.Client.Replies.{
  missing, received, read_before, read_for_reply, move_front, make_room, take_in, read_more,
  after_parse, read_loop, read_first, read_reply_since,
}
use kannader.Client.Buffer.{minus_zero, slice-put, length-put, slice_rest}

module _ {World : Type 0} (net : Net World) where
  open net use {Io, IoError}

  -- What is read and not handled.
  abbrev pub unhandled_bytes : Sender net → Bytes
  unhandled_bytes s = slice s.from s.to s.rdbuf

  pub record IsBuffer (s : Sender net) : Type 0 where
    pub ordered : s.from ≤ s.to
    pub inside : s.to ≤ length s.rdbuf

  module _ (got : World → Bytes) where
    unfoldable pub ReadLaw : World → ℕ → World × Timed (Result Bytes IoError) → Type 0
    ReadLaw w room (w', in_time (ok bytes)) = (got w' ≡ got w ++ bytes) × (length bytes ≤ room)
    ReadLaw w room (w', in_time (err e)) = Unit {0}
    ReadLaw w room (w', too_late) = Unit {0}

    unfoldable pub ParseLaw : Bytes → Parsed → Type 0
    ParseLaw bytes (incomplete n) = Unit {0}
    ParseLaw bytes syntax_error = Unit {0}
    ParseLaw bytes (parsed rem reply) = (used : Bytes) × (bytes ≡ used ++ rem)

    -- What the code relies on: `got` is all that has been read of connections, a read gives no more
    -- than there is room for, and a parser leaves a part of the end of its input.
    pub record IsStream : Type 0 where
      pub reads : (w : World) (io : Io) (room t : ℕ) → ReadLaw w room (net.read w io room t)
      pub now : (w : World) → got (net.now w).0 ≡ got w
      pub parses : (bytes : Bytes) → ParseLaw bytes (net.parse_reply bytes)

    module _ (stream : IsStream) (g p : Bytes) where
      -- Since `g` was read and `p` was unhandled, all that came is unhandled.
      abbrev Filled : World → Sender net → Type 0
      Filled w s =
          (more : Bytes) × (got w ≡ g ++ more) × (unhandled_bytes s ≡ p ++ more) × IsBuffer s

      unfoldable Fills : World × Outcome net (Sender net) → Type 0
      Fills (w, gives s) = Filled w s
      Fills (w, fails e) = Unit {0}
      Fills (w, panics) = Unit {0}
      Fills (w, unfinished) = Unit {0}

      -- The reply is parsed from what was unhandled and what was read since, and what the parser has
      -- left is unhandled.
      unfoldable pub Answers : World × Outcome net (Reply × Sender net) → Type 0
      Answers (w, gives (reply, s)) =
          (more rem : Bytes) × (got w ≡ g ++ more)
          × (net.parse_reply (p ++ more) ≡ parsed rem reply)
          × (unhandled_bytes s ≡ rem)
          × IsBuffer s
      Answers (w, fails e) = Unit {0}
      Answers (w, panics) = Unit {0}
      Answers (w, unfinished) = Unit {0}

      then-Answers :
          (r : World × Outcome net (Sender net))
          (f : World → Sender net → World × Outcome net (Reply × Sender net))
          → Fills r
          → ((w : World) (s : Sender net) → Filled w s → Answers (f w s))
          → Answers (r then f)
      unfolding Fills Answers ◌then◌
      then-Answers (w, gives s) f h k = k w s h
      then-Answers (w, fails e) f h k = tt
      then-Answers (w, panics) f h k = tt
      then-Answers (w, unfinished) f h k = tt

      taken :
          (w : World) (s : Sender net) (c : ℕ) (cs more : Bytes)
          → IsBuffer s
          → s.to + length (c ∷ cs) ≤ length s.rdbuf
          → got w ≡ (g ++ more) ++ (c ∷ cs)
          → unhandled_bytes s ≡ p ++ more
          → Fills (take_in net s w (c ∷ cs))
      unfolding take_in Fills
      taken w s c cs more is_buffer room e e' = (
        more ++ (c ∷ cs),
        e ∙ append_assoc g more (c ∷ cs),
        slice-put s.from s.to (c ∷ cs) s.rdbuf is_buffer.ordered is_buffer.inside
            ∙ (ap (λ z. z ++ (c ∷ cs)) e' ∙ append_assoc p more (c ∷ cs)),
        record {
          ordered = let h = is_buffer.ordered in omega arith;
          inside = let h = length-put s.to (c ∷ cs) s.rdbuf room in omega arith;
        },
      )

      received-Fills :
          (w : World) (s : Sender net) (more : Bytes) (r : World × Timed (Result Bytes IoError))
          → ReadLaw w (length s.rdbuf - s.to) r
          → got w ≡ g ++ more
          → unhandled_bytes s ≡ p ++ more
          → IsBuffer s
          → Fills (received net r then take_in net s)
      unfolding received ReadLaw ◌then◌ Fills take_in
      received-Fills w s more (w', in_time (ok [])) law e e' is_buffer = tt
      received-Fills w s more (w', in_time (ok (c ∷ cs))) (law, room) e e' is_buffer =
          taken w' s c cs more is_buffer (let h = is_buffer.inside in omega arith)
            (law ∙ ap (λ z. z ++ (c ∷ cs)) e) e'
      received-Fills w s more (w', in_time (err x)) law e e' is_buffer = tt
      received-Fills w s more (w', too_late) law e e' is_buffer = tt

      read_in-Fills :
          (since timeout : ℕ) (w : World) (s : Sender net)
          → Filled w s
          → Fills
              (read_for_reply net w s.io (length s.rdbuf - s.to) since timeout then take_in net s)
      unfolding read_for_reply read_before
      read_in-Fills since timeout w s (more, e, e', is_buffer) =
          received-Fills (net.now w).0 s more _
            (stream.reads (net.now w).0 s.io (length s.rdbuf - s.to) _) (stream.now w ∙ e) e'
            is_buffer

      read_more-Fills :
          (since timeout : ℕ) (w : World) (s : Sender net)
          → Filled w s
          → Fills (read_more net since timeout w s)
      unfolding read_more Fills
      read_more-Fills since timeout w s h = elim (Bool-cases (s.to == length s.rdbuf)) [
        | inl e ↦ rw e tt
        | inr e ↦ rw e (read_in-Fills since timeout w s h)
      ]

      move_front-Filled : (w : World) (s : Sender net) → Filled w s → Filled w (move_front net s)
      unfolding move_front
      move_front-Filled w s (more, e, e', is_buffer) =
          let u = unhandled_bytes s in
          let short = length-take (s.to - s.from) (drop s.from s.rdbuf) in
          let rest = length-drop s.from s.rdbuf in
          let all = length-append u (drop (length u) s.rdbuf) in
          let left = length-drop (length u) s.rdbuf in
          (
            more,
            e,
            ap (λ n. take n (u ++ drop (length u) s.rdbuf)) (minus_zero (length u))
                ∙ (take-append_length u (drop (length u) s.rdbuf) ∙ e'),
            record { ordered = omega arith; inside = omega arith },
          )

      make_room-Filled :
          (w : World) (s : Sender net) (n : Option ℕ) → Filled w s → Filled w (make_room net s n)
      unfolding make_room
      make_room-Filled w s n h = elim (Bool-cases (s.from == 0)) [
        | inl e ↦ rw e h
        | inr e ↦ rw e (elim (Bool-cases (ltb (length s.rdbuf - s.to) (missing n))) [
          | inl e' ↦ rw e' (move_front-Filled w s h)
          | inr e' ↦ rw e' h
        ])
      ]

      after_parse-Answers :
          (again : World → Sender net → World × Outcome net (Reply × Sender net))
          (since timeout : ℕ) (w : World) (s : Sender net) (a : Parsed)
          → net.parse_reply (unhandled_bytes s) ≡ a
          → ParseLaw (unhandled_bytes s) a
          → ((w' : World) (s' : Sender net) → Filled w' s' → Answers (again w' s'))
          → Filled w s
          → Answers (after_parse net again since timeout w s a)
      unfolding after_parse ParseLaw Answers
      after_parse-Answers again since timeout w s (incomplete n) is law h filled =
          then-Answers (read_more net since timeout w (make_room net s n)) again
            (read_more-Fills since timeout w (make_room net s n) (make_room-Filled w s n filled)) h
      after_parse-Answers again since timeout w s syntax_error is law h filled = tt
      after_parse-Answers again since timeout w s (parsed rem reply) is (used, cut) h
            (more, e, e', b) =
          (
            more,
            rem,
            e,
            ap net.parse_reply (sym e') ∙ is,
            slice_rest s.from s.to s.rdbuf used rem b.ordered b.inside cut,
            record { ordered = omega arith; inside = b.inside },
          )

      read_loop-Answers :
          (fuel since timeout : ℕ) (w : World) (s : Sender net)
          → Filled w s
          → Answers (read_loop net fuel since timeout w s)
      unfolding read_loop Answers
      read_loop-Answers zero since timeout w s h = tt
      read_loop-Answers (suc fuel) since timeout w s h =
          after_parse-Answers (read_loop net fuel since timeout) since timeout w s _ refl
            (stream.parses (unhandled_bytes s))
            (λ w' s' h'. read_loop-Answers fuel since timeout w' s' h') h

    module _ (stream : IsStream) where
      nothing_pending : (s : Sender net) → (s.from == s.to) ≡ true → [] ≡ unhandled_bytes s
      nothing_pending s e =
          let same : s.from ≡ s.to = ground arith in
          sym (ap (λ n. slice s.from n s.rdbuf) (sym same) ∙ slice_self s.from s.rdbuf)

      read_first-Fills :
          (since timeout : ℕ) (g : Bytes) (w : World) (s : Sender net)
          → got w ≡ g
          → IsBuffer s
          → Fills stream g (unhandled_bytes s) (read_first net since timeout w s)
      unfolding read_first Fills
      read_first-Fills since timeout g w s e b = elim (Bool-cases (s.from == s.to)) [
        | inl empty ↦ rw empty (
            subst
              (λ p. Fills stream g p (
                read_for_reply net w s.io (length s.rdbuf) since timeout
                then take_in net (record s { from = 0; to = 0 })))
              (nothing_pending s empty)
              (subst
                (λ n. Fills stream g [] (
                  read_for_reply net w s.io n since timeout
                  then take_in net (record s { from = 0; to = 0 })))
                (minus_zero (length s.rdbuf))
                (read_in-Fills stream g [] since timeout w (record s { from = 0; to = 0 })
                  (
                    [],
                    e ∙ sym (append-nil g),
                    refl,
                    record { ordered = omega arith; inside = omega arith },
                  ))))
        | inr some_left ↦
            rw some_left ([], e ∙ sym (append-nil g), sym (append-nil (unhandled_bytes s)), b)
      ]

      -- A reply that `read_reply` gives is the parser's answer on what was unhandled in the buffer,
      -- followed by all that was read of the connection meanwhile, however the reads cut it; what the
      -- parser has left is unhandled after it, in a buffer whose range lies inside it: no byte of the
      -- server is lost or taken twice. The range lay inside the buffer before, a read gives no more
      -- than there is room for, and the parser leaves a part of the end of its input.
      pub read_reply_since-Answers :
          (fuel timeout : ℕ) (w : World) (s : Sender net)
          → IsBuffer s
          → Answers stream
              (got w)
              (unhandled_bytes s)
              (read_reply_since net fuel s timeout (net.now w))
      unfolding read_reply_since
      read_reply_since-Answers fuel timeout w s b =
          then-Answers stream (got w) (unhandled_bytes s)
            (read_first net (net.now w).1 timeout (net.now w).0 s)
            (read_loop net fuel (net.now w).1 timeout)
            (read_first-Fills (net.now w).1 timeout (got w) (net.now w).0 s (stream.now w) b)
            (read_loop-Answers stream (got w) (unhandled_bytes s) fuel (net.now w).1 timeout)
