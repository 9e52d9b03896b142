-- ===== src/Queue/Kept/Places.antt =====
-- The places of a mail, as the documentation of smtp-queue/src/lib.rs's `Storage` has them.
use kannader.Prelude.{
  Bool, true, false, Option, some, ◌≡◌, ◌≢◌, refl, sym, ap, ◌∙◌, ◌⊎◌, inl, inr, arith,
}
use kannader.Queue.Types.{QueueId}
use kannader.Queue.Storage.{Place, queue, inflight, Same, Moves, Removes}

-- Whether two places are the same.
abbrev pub is : Place → Place → Bool
is queue queue = true
is queue inflight = false
is queue Place.cleanup = false
is inflight queue = false
is inflight inflight = true
is inflight Place.cleanup = false
is Place.cleanup queue = false
is Place.cleanup inflight = false
is Place.cleanup Place.cleanup = true

is_or_not : (p r : Place) → ((p ≡ r) × (is p r ≡ true)) ⊎ ((r ≢ p) × (is p r ≡ false))
is_or_not queue queue = inl (refl, refl)
is_or_not queue inflight = inr (λ e. ground arith, refl)
is_or_not queue Place.cleanup = inr (λ e. ground arith, refl)
is_or_not inflight queue = inr (λ e. ground arith, refl)
is_or_not inflight inflight = inl (refl, refl)
is_or_not inflight Place.cleanup = inr (λ e. ground arith, refl)
is_or_not Place.cleanup queue = inr (λ e. ground arith, refl)
is_or_not Place.cleanup inflight = inr (λ e. ground arith, refl)
is_or_not Place.cleanup Place.cleanup = inl (refl, refl)

module _ {World : Type 0} (holds : World → Place → QueueId → Bool) where
  -- The mail is at one place and at no other.
  unfoldable pub Held : World → QueueId → Place → Type 0
  Held w id p = (r : Place) → holds w r id ≡ is p r

  unfoldable pub Gone : World → QueueId → Type 0
  Gone w id = (r : Place) → holds w r id ≡ false

  pub Same-Held :
      (w w' : World) (id : QueueId) (p : Place) → Same holds w w' → Held w id p → Held w' id p
  unfolding Held
  Same-Held w w' id p s h r = s r id ∙ h r

  pub Moves-Held :
      (w w' : World) (id : QueueId) (p r : Place)
      → Moves holds w w' p r id
      → Held w id p
      → Held w' id r
  unfolding Held
  Moves-Held w w' id p r m h s = elim (is_or_not r s) [
    | inl (e, yes_it_is) ↦ ap (λ t. holds w' t id) (sym e) ∙ (m.arrived ∙ sym yes_it_is)
    | inr (other, is_not) ↦ elim (is_or_not p s) [
      | inl (e, yes_it_is) ↦ ap (λ t. holds w' t id) (sym e) ∙ (m.left ∙ sym is_not)
      | inr (other', is_not') ↦ m.other_places s other' other ∙ (h s ∙ (is_not' ∙ sym is_not))
    ]
  ]

  pub Removes-Gone :
      (w w' : World) (id : QueueId) → Removes holds w w' id → Held w id Place.cleanup → Gone w' id
  unfolding Held Gone
  Removes-Gone w w' id m h s = elim (is_or_not Place.cleanup s) [
    | inl (e, yes_it_is) ↦ ap (λ t. holds w' t id) (sym e) ∙ m.gone
    | inr (other, is_not) ↦ m.other_places s other ∙ (h s ∙ is_not)
  ]

  is_self : (p : Place) → is p p ≡ true
  is_self queue = refl
  is_self inflight = refl
  is_self Place.cleanup = refl

  -- A mail that is held at a place has not vanished from it.
  pub not_vanished :
      {C : Type 0} (w : World) (id : QueueId) (p : Place) → Held w id p → holds w p id ≡ false → C
  unfolding Held
  not_vanished w id p h e =
      absurd (let wrong : true ≡ false = sym (is_self p) ∙ (sym (h p) ∙ e) in ground arith)

  -- The mail has come to the place `r`.
  unfoldable pub Arrives :
      {A : Type 0} → (A → QueueId) → QueueId → Place → World → Option A → Type 0
  Arrives {A} a_id id r w v = (a : A) × (v ≡ some a) × (a_id a ≡ id) × Held w id r

  abbrev pub Waits : {B : Type 0} → (B → QueueId) → QueueId → Place → World → B → Type 0
  Waits b_id id p w b = (b_id b ≡ id) × Held w id p
