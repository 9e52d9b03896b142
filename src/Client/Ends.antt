-- ===== src/Client/Ends.antt =====
-- smtp-client/src/lib.rs: the loop of `read_reply` ends.
use mathlib.Core.Path.{subst}
use kannader.Prelude.{
  ℕ, zero, suc, ◌+◌, ◌-◌, ◌≤◌, ◌<◌, Bool-cases, Option, [], ◌∷◌, Bytes, length, drop, length-append,
  length-take, length-drop, inl, inr, ◌==◌, ltb, ◌≡◌, sym, ◌∙◌, arith,
}
use kannader.Queue.Types.{Result, ok, err, to_std}
use kannader.Message.Reply.{Reply}
use kannader.Client.Types.{
  Timed, in_time, too_late, Parsed, incomplete, syntax_error, parsed, Net, Outcome, gives, fails,
  panics, unfinished, Sender, ◌then◌,
}
use kannader.Client.Replies.{
  or_zero, missing, received, read_before, read_for_reply, move_front, make_room, take_in,
  read_more, after_parse, read_loop, read_first, read_reply_since,
}
use kannader.Client.Buffer.{minus_zero, length-put}
use kannader.Client.Stream.{ReadLaw, IsStream, unhandled_bytes}

module _ {World : Type 0} (net : Net World) where
  open net use {Io, IoError}

  -- The model has not used up its fuel.
  unfoldable pub Ends : {A : Type 0} → World × Outcome net A → Type 0
  Ends (w, gives a) = Unit {0}
  Ends (w, fails e) = Unit {0}
  Ends (w, panics) = Unit {0}
  Ends (w, unfinished) = ⊥

  -- The buffer has `size` bytes, and at least `k` of them are read and not handled.
  pub record HoldsBytes (size k : ℕ) (s : Sender net) : Type 0 where
    pub sized : length s.rdbuf ≡ size
    pub ordered : s.from ≤ s.to
    pub inside : s.to ≤ size
    pub many : k ≤ s.to - s.from

  unfoldable Grows : ℕ → ℕ → World × Outcome net (Sender net) → Type 0
  Grows size k (w, gives s) = HoldsBytes size k s
  Grows size k (w, fails e) = Unit {0}
  Grows size k (w, panics) = Unit {0}
  Grows size k (w, unfinished) = ⊥

  then-Ends :
      {A : Type 0} (size k : ℕ) (r : World × Outcome net (Sender net))
      (f : World → Sender net → World × Outcome net A)
      → Grows size k r
      → ((w : World) (s : Sender net) → HoldsBytes size k s → Ends (f w s))
      → Ends (r then f)
  unfolding Grows Ends ◌then◌
  then-Ends size k (w, gives s) f h g = g w s h
  then-Ends size k (w, fails e) f h g = tt
  then-Ends size k (w, panics) f h g = tt
  then-Ends size k (w, unfinished) f h g = h

  move_front-HoldsBytes :
      (size k : ℕ) (s : Sender net) → HoldsBytes size k s → HoldsBytes size k (move_front net s)
  unfolding move_front
  move_front-HoldsBytes size k s h =
      let u = unhandled_bytes net s in
      let short = length-take (s.to - s.from) (drop s.from s.rdbuf) in
      let rest = length-drop s.from s.rdbuf in
      let all = length-append u (drop (length u) s.rdbuf) in
      let left = length-drop (length u) s.rdbuf in
      let a = h.sized in
      let b = h.ordered in
      let c = h.inside in
      let d = h.many in
      record {
        sized = omega arith;
        ordered = omega arith;
        inside = omega arith;
        many = omega arith;
      }

  make_room-HoldsBytes :
      (size k : ℕ) (s : Sender net) (n : Option ℕ)
      → HoldsBytes size k s
      → HoldsBytes size k (make_room net s n)
  unfolding make_room
  make_room-HoldsBytes size k s n h = elim (Bool-cases (s.from == 0)) [
    | inl e ↦ rw e h
    | inr e ↦ rw e (elim (Bool-cases (ltb (length s.rdbuf - s.to) (missing n))) [
      | inl e' ↦ rw e' (move_front-HoldsBytes size k s h)
      | inr e' ↦ rw e' h
    ])
  ]

  module _ (got : World → Bytes) (stream : IsStream net got) (size : ℕ) where
    taken :
        (k : ℕ) (s : Sender net) (w : World) (c : ℕ) (cs : Bytes)
        → HoldsBytes size k s
        → length (c ∷ cs) ≤ length s.rdbuf - s.to
        → Grows size (suc k) (take_in net s w (c ∷ cs))
    unfolding take_in Grows
    taken k s w c cs h room =
        let a = h.sized in
        let b = h.ordered in
        let d = h.inside in
        let e = h.many in
        record {
          sized = length-put s.to (c ∷ cs) s.rdbuf (omega arith) ∙ a;
          ordered = omega arith;
          inside = omega arith;
          many = omega arith;
        }

    received-Grows :
        (k : ℕ) (s : Sender net) (w : World) (r : World × Timed (Result Bytes IoError))
        → HoldsBytes size k s
        → ReadLaw net got w (length s.rdbuf - s.to) r
        → Grows size (suc k) (received net r then take_in net s)
    unfolding received ReadLaw ◌then◌ Grows take_in
    received-Grows k s w (w', in_time (ok [])) h law = tt
    received-Grows k s w (w', in_time (ok (c ∷ cs))) h (law, room) = taken k s w' c cs h room
    received-Grows k s w (w', in_time (err x)) h law = tt
    received-Grows k s w (w', too_late) h law = tt

    read_more-Grows :
        (since timeout k : ℕ) (w : World) (s : Sender net)
        → HoldsBytes size k s
        → Grows size (suc k) (read_more net since timeout w s)
    unfolding read_more read_for_reply read_before Grows
    read_more-Grows since timeout k w s h = elim (Bool-cases (s.to == length s.rdbuf)) [
      | inl e ↦ rw e tt
      | inr e ↦ rw e (
          received-Grows k s (net.now w).0 _ h
            (stream.reads (net.now w).0 s.io (length s.rdbuf - s.to) _))
    ]

    after_parse-Ends :
        (again : World → Sender net → World × Outcome net (Reply × Sender net))
        (since timeout k : ℕ) (w : World) (s : Sender net) (a : Parsed)
        → HoldsBytes size k s
        → ((w' : World) (s' : Sender net) → HoldsBytes size (suc k) s' → Ends (again w' s'))
        → Ends (after_parse net again since timeout w s a)
    unfolding after_parse Ends
    after_parse-Ends again since timeout k w s (incomplete n) h g =
        then-Ends size (suc k) (read_more net since timeout w (make_room net s n)) again
          (read_more-Grows since timeout k w (make_room net s n)
            (make_room-HoldsBytes size k s n h))
          g
    after_parse-Ends again since timeout k w s syntax_error h g = tt
    after_parse-Ends again since timeout k w s (parsed rem reply) h g = tt

    read_loop-Ends :
        (fuel since timeout k : ℕ) (w : World) (s : Sender net)
        → HoldsBytes size k s
        → size < fuel + k
        → Ends (read_loop net fuel since timeout w s)
    unfolding read_loop Ends
    read_loop-Ends zero since timeout k w s h less =
        absurd (let a = h.inside in let b = h.many in omega arith)
    read_loop-Ends (suc fuel) since timeout k w s h less =
        after_parse-Ends (read_loop net fuel since timeout) since timeout k w s _ h
          (λ w' s' h'. read_loop-Ends fuel since timeout (suc k) w' s' h' (omega arith))

    Grows-weaken :
        (k : ℕ) (r : World × Outcome net (Sender net)) → Grows size (suc k) r → Grows size k r
    unfolding Grows
    Grows-weaken k (w, gives s) h = record {
      sized = h.sized;
      ordered = h.ordered;
      inside = h.inside;
      many = let m = h.many in omega arith;
    }
    Grows-weaken k (w, fails e) h = tt
    Grows-weaken k (w, panics) h = tt
    Grows-weaken k (w, unfinished) h = h

    read_first-Grows :
        (since timeout : ℕ) (w : World) (s : Sender net)
        → HoldsBytes size 0 s
        → Grows size 0 (read_first net since timeout w s)
    unfolding read_first read_for_reply read_before Grows
    read_first-Grows since timeout w s h = elim (Bool-cases (s.from == s.to)) [
      | inl empty ↦ rw empty (
          Grows-weaken 0
            (read_for_reply net w s.io (length s.rdbuf) since timeout
              then take_in net (record s { from = 0; to = 0 }))
            (received-Grows 0 (record s { from = 0; to = 0 }) (net.now w).0 _
              (record {
                sized = h.sized;
                ordered = omega arith;
                inside = omega arith;
                many = omega arith;
              })
              (subst
                (λ n. ReadLaw net got (net.now w).0 n (
                  net.read (net.now w).0 s.io (length s.rdbuf)
                    (or_zero (to_std (since + timeout) (net.now w).1))))
                (sym (minus_zero (length s.rdbuf)))
                (stream.reads (net.now w).0 s.io (length s.rdbuf) _))))
      | inr some_left ↦ rw some_left h
    ]

    -- `read_reply` ends, with a reply or with an error, after as many rounds of its loop as the buffer
    -- has bytes, and one more, however the server sends its bytes. The range of the buffer lies inside
    -- it, and a read gives no more than there is room for.
    pub read_reply_since-Ends :
        (fuel timeout : ℕ) (w : World) (s : Sender net)
        → HoldsBytes size 0 s
        → size < fuel
        → Ends (read_reply_since net fuel s timeout (net.now w))
    unfolding read_reply_since
    read_reply_since-Ends fuel timeout w s h less =
        then-Ends size 0 (read_first net (net.now w).1 timeout (net.now w).0 s)
          (read_loop net fuel (net.now w).1 timeout)
          (read_first-Grows (net.now w).1 timeout (net.now w).0 s h)
          (λ w' s' h'. read_loop-Ends fuel (net.now w).1 timeout 0 w' s' h' (omega arith))
