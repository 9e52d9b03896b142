-- ===== src/Server/Session/Line.antt =====
-- smtp-server/src/lib.rs: `advance_until_crlf`, which leaves out the rest of a line.
use mathlib.Core.Path.{subst}
use kannader.Prelude.{
  ℕ, zero, suc, ◌+◌, ◌-◌, ◌≤◌, ◌<◌, Option, none, some, [], ◌∷◌, ◌++◌, ◌≡◌, refl, sym, ap, ◌∙◌,
  Bytes, arith, length, take, drop, slice, append-nil, append_assoc, length-append, length-take,
  length-drop, drop-drop, drop-take, take_prefix, drop-append_length,
}
use kannader.Message.Io.{ErrorKind, connection_aborted, IoResult, ok, err}
use kannader.Message.Crlf.{
  NextCrLfState, start, next_crlf, state_after, first_crlf, plus, next_crlf_first, next_crlf_state,
  first_crlf_bound, position,
}
use kannader.Server.Config.{Transport}

-- The connection, the buffer and the part of it that is not handled, or an error.
pub data Advanced {ℓ} (R : Type ℓ) : Type ℓ where
  advanced : R → Bytes → ℕ → ℕ → Advanced R
  failed_at : R → Bytes → ErrorKind → Advanced R
  unfinished : Advanced R

-- `read` writes at the buffer's front.
abbrev pub fill_front : Bytes → Bytes → Bytes
fill_front bytes buf = bytes ++ drop (length bytes) buf

module _ (net : Transport) where
  open net use {source, read, read_bound, read_gets}

  -- The rest of the loop, as a function of the connection, the buffer, the part of it that is not
  -- handled and the state of `next_crlf`.
  abbrev pub Again : Type 0
  Again = source.Reader → Bytes → ℕ → ℕ → NextCrLfState → Advanced source.Reader

  unfoldable pub after_read :
      Again → Bytes → NextCrLfState → source.Reader × IoResult Bytes → Advanced source.Reader
  after_read again buf s (io, err k) = failed_at io buf k
  after_read again buf s (io, ok []) = failed_at io buf connection_aborted
  after_read again buf s (io, ok (c ∷ cs)) =
      again io (fill_front (c ∷ cs) buf) 0 (length (c ∷ cs)) s

  unfoldable pub after_search :
      Again → source.Reader → Bytes → ℕ → ℕ → Option ℕ × NextCrLfState → Advanced source.Reader
  unfolding after_read
  after_search again io buf from to (some p, s) = advanced io buf (from + (p + 1)) to
  after_search again io buf from to (none, s) = after_read again buf s (read io (length buf))

  unfoldable pub advance_until_crlf :
      ℕ → source.Reader → Bytes → ℕ → ℕ → NextCrLfState → Advanced source.Reader
  unfolding after_search
  advance_until_crlf zero io buf from to s = unfinished
  advance_until_crlf (suc fuel) io buf from to s =
      after_search (advance_until_crlf fuel) io buf from to (next_crlf (slice from to buf) s)

  -- The bytes are those that stood in the buffer and those that were read; what is left begins behind
  -- their first CRLF.
  pub record Skipped (io : source.Reader) (bytes : Bytes) (size : ℕ) (io' : source.Reader)
      (buf' : Bytes) (from' to' : ℕ) : Type 0 where
    pub more : Bytes
    pub reads : source.got io' ≡ source.got io ++ more
    pub at : ℕ
    pub first : first_crlf (bytes ++ more) ≡ some at
    pub rest : slice from' to' buf' ≡ drop (suc at) (bytes ++ more)
    pub keeps : length buf' ≡ size
    pub ordered : from' ≤ to'
    pub inside : to' ≤ size

  unfoldable Skips : source.Reader → Bytes → ℕ → Advanced source.Reader → Type 0
  Skips io bytes size (advanced io' buf' from' to') = Skipped io bytes size io' buf' from' to'
  Skips io bytes size (failed_at io' buf' k) = Unit
  Skips io bytes size unfinished = Unit

  -- A read in between.
  Skips-more :
      (io io1 : source.Reader) (xs ys : Bytes) (size : ℕ) (r : Advanced source.Reader)
      → source.got io1 ≡ source.got io ++ ys
      → Skips io1 (xs ++ ys) size r
      → Skips io xs size r
  unfolding Skips
  Skips-more io io1 xs ys size (advanced io' buf' from' to') got k =
      let same : (xs ++ ys) ++ k.more ≡ xs ++ (ys ++ k.more) = append_assoc xs ys k.more in
      record {
        more = ys ++ k.more;
        reads = k.reads ∙ (ap (λ zs. zs ++ k.more) got ∙ append_assoc (source.got io) ys k.more);
        at = k.at;
        first = sym (ap first_crlf same) ∙ k.first;
        rest = k.rest ∙ ap (drop (suc k.at)) same;
        keeps = k.keeps;
        ordered = k.ordered;
        inside = k.inside;
      }
  Skips-more io io1 xs ys size (failed_at io' buf' e) got k = tt
  Skips-more io io1 xs ys size unfinished got k = tt

  length-fill_front :
      (bytes buf : Bytes) → length bytes ≤ length buf → length (fill_front bytes buf) ≡ length buf
  length-fill_front bytes buf h =
      length-append bytes (drop (length bytes) buf)
      ∙ (ap (λ n. length bytes + n) (length-drop (length bytes) buf) ∙ omega arith)

  -- What the loop does from a later read on.
  GoesOn : Again → Type 0
  GoesOn again =
      (io : source.Reader) (buf : Bytes) (from to : ℕ) (before : Bytes)
      → from ≤ to
      → to ≤ length buf
      → first_crlf before ≡ none
      → Skips io (before ++ slice from to buf) (length buf)
          (again io buf from to (state_after start before))

  after_read-Skips :
      (again : Again) (io : source.Reader) (buf before : Bytes) (r : source.Reader × IoResult Bytes)
      → GoesOn again
      → read io (length buf) ≡ r
      → first_crlf before ≡ none
      → Skips io before (length buf) (after_read again buf (state_after start before) r)
  unfolding Skips after_read GoesOn
  after_read-Skips again io buf before (io1, err k) goes e none_yet = tt
  after_read-Skips again io buf before (io1, ok []) goes e none_yet = tt
  after_read-Skips again io buf before (io1, ok (c ∷ cs)) goes e none_yet =
      let bytes = c ∷ cs in
      let bound : length bytes ≤ length buf = read_bound io (length buf) bytes (ap (λ r. r.1) e) in
      let got : source.got io1 ≡ source.got io ++ bytes =
        sym (ap (λ r. source.got r.0) e) ∙ read_gets io (length buf) bytes (ap (λ r. r.1) e) in
      let same : length (fill_front bytes buf) ≡ length buf = length-fill_front bytes buf bound in
      let fits : length bytes ≤ length (fill_front bytes buf) = omega arith in
      let later =
        goes io1 (fill_front bytes buf) 0 (length bytes) before (omega arith) fits none_yet in
      let whole : length bytes - 0 ≡ length bytes = omega arith in
      Skips-more io io1 before bytes (length buf)
        (again io1 (fill_front bytes buf) 0 (length bytes) (state_after start before)) got
        (subst
          (λ n.
            Skips io1 (before ++ bytes) n
              (again io1 (fill_front bytes buf) 0 (length bytes) (state_after start before)))
          same
          (subst
            (λ ys.
              Skips io1 (before ++ ys) (length (fill_front bytes buf))
                (again io1 (fill_front bytes buf) 0 (length bytes) (state_after start before)))
            (ap (λ n. take n (fill_front bytes buf)) whole
              ∙ take_prefix (length bytes) bytes (drop (length bytes) buf) refl)
            later))

  rest_behind :
      (buf : Bytes) (from to : ℕ) (before : Bytes) (p : ℕ)
      → suc p ≤ to - from
      → slice (from + (p + 1)) to buf
        ≡ drop (suc (length before + p)) ((before ++ slice from to buf) ++ [])
  rest_behind buf from to before p h =
      let cur = slice from to buf in
      let there : length before + suc p ≡ suc (length before + p) = omega arith in
      let here : from + suc p ≡ from + (p + 1) = omega arith in
      let whole : suc p + (to - (from + (p + 1))) ≡ to - from = omega arith in
      sym (
        ap (λ n. drop (suc p) (take n (drop from buf))) (sym whole)
        ∙ (drop-take (suc p) (to - (from + (p + 1))) (drop from buf)
            ∙ ap (take (to - (from + (p + 1))))
                (drop-drop (suc p) from buf ∙ ap (λ n. drop n buf) here)))
      ∙ (ap (drop (suc p)) (sym (drop-append_length before cur))
          ∙ (drop-drop (suc p) (length before) (before ++ cur)
              ∙ (ap (λ n. drop n (before ++ cur)) there
                  ∙ ap (drop (suc (length before + p))) (sym (append-nil (before ++ cur))))))

  after_search-Skips :
      (again : Again) (io : source.Reader) (buf : Bytes) (from to : ℕ) (before : Bytes)
      (r : Option ℕ × NextCrLfState)
      → GoesOn again
      → from ≤ to
      → to ≤ length buf
      → first_crlf before ≡ none
      → next_crlf (slice from to buf) (state_after start before) ≡ r
      → Skips io (before ++ slice from to buf) (length buf) (after_search again io buf from to r)
  unfolding Skips after_search
  after_search-Skips again io buf from to before (some p, s) goes le inside none_yet e =
      let seen = before ++ slice from to buf in
      let first : first_crlf seen ≡ some (length before + p) =
        next_crlf_first before (slice from to buf) none_yet
        ∙ ap (λ r. plus (length before) r.0) e in
      let bound : length before + p < length seen =
        first_crlf_bound seen (length before + p) first in
      let size : length seen ≡ length before + length (slice from to buf) =
        length-append before (slice from to buf) in
      let room : length (slice from to buf) ≤ to - from =
        let counted = length-take (to - from) (drop from buf) in omega arith in
      record {
        more = [];
        reads = sym (append-nil (source.got io));
        at = length before + p;
        first = ap first_crlf (append-nil seen) ∙ first;
        rest = rest_behind buf from to before p (omega arith);
        keeps = refl;
        ordered = omega arith;
        inside = inside;
      }
  after_search-Skips again io buf from to before (none, s) goes le inside none_yet e =
      let first : first_crlf (before ++ slice from to buf) ≡ none =
        next_crlf_first before (slice from to buf) none_yet
        ∙ ap (λ r. plus (length before) r.0) e in
      let left : s ≡ state_after start (before ++ slice from to buf) =
        sym (ap (λ r. r.1) e) ∙ next_crlf_state before (slice from to buf) (ap (λ r. r.0) e) in
      subst
        (λ t.
          Skips io (before ++ slice from to buf) (length buf)
            (after_read again buf t (read io (length buf))))
        (sym left)
        (after_read-Skips again io buf (before ++ slice from to buf) (read io (length buf)) goes
          refl first)

  advance-Skips : (fuel : ℕ) → GoesOn (advance_until_crlf fuel)
  unfolding Skips GoesOn advance_until_crlf
  advance-Skips zero io buf from to before le inside none_yet = tt
  advance-Skips (suc fuel) io buf from to before le inside none_yet =
      after_search-Skips (advance_until_crlf fuel) io buf from to before
        (next_crlf (slice from to buf) (state_after start before)) (advance-Skips fuel) le inside
        none_yet refl

  -- When `advance_until_crlf` returns without an error, what is left to handle begins right behind the
  -- first CRLF of the unhandled bytes and those that it has read, wherever the reads have cut them,
  -- and lies in the buffer.
  pub advance_until_crlf-Skipped :
      (fuel : ℕ) (io io' : source.Reader) (buf buf' : Bytes) (from to from' to' : ℕ)
      → from ≤ to
      → to ≤ length buf
      → advance_until_crlf fuel io buf from to start ≡ advanced io' buf' from' to'
      → Skipped io (slice from to buf) (length buf) io' buf' from' to'
  unfolding Skips GoesOn first_crlf state_after position
  advance_until_crlf-Skipped fuel io io' buf buf' from to from' to' le inside e =
      subst (Skips io (slice from to buf) (length buf)) e
        (advance-Skips fuel io buf from to [] le inside refl)
