-- ===== src/Message/Data/Writer/Reference.antt =====
-- The writer's states against the specification, one byte string at a time.
use kannader.Prelude.{ℕ, ◌&&◌, [], ◌∷◌, ◌≡◌, refl, ◌⊎◌, ◌==◌, if◌then◌else◌, Bytes, arith}
use kannader.Message.Data.Spec.{stuff, closing, at_line_start}
use kannader.Message.Data.Writer.{
  WriterState, start, cr, cr_lf, go, escape, classify, advance, advance_all, finish,
}

-- What the sink gets for a text that is written from a state on.
abbrev pub stuff_from : WriterState → Bytes → Bytes
stuff_from s [] = []
stuff_from s (c ∷ cs) = elim (classify s c) [
  | go s' ↦ c ∷ stuff_from s' cs
  | escape ↦ b'.' ∷ b'.' ∷ stuff_from start cs
]

-- The state that the last two bytes leave.
abbrev pub state_of : ℕ → ℕ → WriterState
state_of p q = if at_line_start p q then cr_lf else if q == b'\r' then cr else start

pub advance-state_of : (p q c : ℕ) → advance (state_of p q) c ≡ state_of q c
unfolding advance
advance-state_of p q c = ground arith

-- Where there is no dot to escape, the loop and `set_state_until` move alike.
pub classify-advance :
    (s : WriterState) (c : ℕ)
    → (classify s c ≡ go (advance s c)) ⊎ ((classify s c ≡ escape) × (s ≡ cr_lf) × (c ≡ b'.'))
unfolding classify advance
classify-advance start c = ground arith
classify-advance cr c = ground arith
classify-advance cr_lf c = ground arith

classify-state_of :
    (p q c : ℕ)
    → classify (state_of p q) c
      ≡ (if at_line_start p q && c == b'.' then escape else go (state_of q c))
unfolding classify
classify-state_of p q c = ground arith

state_of_dot : (q : ℕ) → state_of q b'.' ≡ start
state_of_dot q = ground arith

-- From a state that two bytes leave, the reference is dot-stuffing.
pub stuff_from-stuff : (p q : ℕ) (xs : Bytes) → stuff_from (state_of p q) xs ≡ stuff p q xs
stuff_from-stuff p q [] = refl
stuff_from-stuff p q (c ∷ cs) =
    ground (arith, classify-state_of p q c, state_of_dot q, stuff_from-stuff q c cs)

pub finish-state_of :
    (p q : ℕ) (xs : Bytes) → finish (advance_all (state_of p q) xs) ≡ closing p q xs
unfolding finish advance_all
finish-state_of p q [] = ground arith
finish-state_of p q (c ∷ cs) = rw (advance-state_of p q c) (finish-state_of q c cs)
