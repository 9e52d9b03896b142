-- ===== src/Queue/Runs.antt =====
-- What a part of a task keeps while it runs, and what it gives when it ends.
use kannader.Prelude.{ℕ, zero, suc}
use kannader.Queue.Types.{QueueId}
use kannader.Queue.Storage.{Tried, got, failed, Event, QueueImpl}
use kannader.Queue.Tasks.{Ran, done, running, ◌and_then◌, after_try, retry}

-- `Q` holds of the world and the value at the end, `R` of the world where the fuel is used up.
unfoldable pub RunsTo {ℓ κ} : {W A : Type ℓ} → (W → Type κ) → (W → A → Type κ) → Ran W A → Type κ
RunsTo R Q (done w a) = Q w a
RunsTo R Q (running w) = R w

pub and_then-RunsTo {ℓ κ} :
    {W A B : Type ℓ} (R : W → Type κ) (Q : W → A → Type κ) (Q' : W → B → Type κ)
    (f : W → A → Ran W B)
    → ((w : W) (a : A) → Q w a → RunsTo R Q' (f w a))
    → (r : Ran W A) → RunsTo R Q r
    → RunsTo R Q' (r and_then f)
unfolding RunsTo ◌and_then◌
and_then-RunsTo R Q Q' f h (done w a) p = h w a p
and_then-RunsTo R Q Q' f h (running w) p = p

pub RunsTo-map {ℓ κ} :
    {W A : Type ℓ} (R R' : W → Type κ) (Q Q' : W → A → Type κ)
    → ((w : W) → R w → R' w)
    → ((w : W) (a : A) → Q w a → Q' w a)
    → (r : Ran W A) → RunsTo R Q r
    → RunsTo R' Q' r
unfolding RunsTo
RunsTo-map R R' Q Q' f g (done w a) h = g w a h
RunsTo-map R R' Q Q' f g (running w) h = f w h

pub RunsTo-and {ℓ κ} :
    {W A : Type ℓ} (R R' : W → Type κ) (Q Q' : W → A → Type κ) (r : Ran W A)
    → RunsTo R Q r
    → RunsTo R' Q' r
    → RunsTo (λ w. R w × R' w) (λ w a. Q w a × Q' w a) r
unfolding RunsTo
RunsTo-and R R' Q Q' (done w a) h h' = (h, h')
RunsTo-and R R' Q Q' (running w) h h' = (h, h')

-- One call keeps `P` where it fails, and gives `Q` where it succeeds.
abbrev pub CallGives :
    {W V B E : Type 0} → (W → B → Type 0) → (W → V → Type 0) → W × Tried V B E → Type 0
CallGives P Q (w, got v) = Q w v
CallGives P Q (w, failed b e) = P w b

module _ {U : Type 0} (q : QueueImpl U) where
  open q use {World, storage, config, clock}
  open storage use {Error}

  module _ {V B : Type 0} (call : World → B → World × Tried V B Error) (id : B → QueueId)
      (R : World → Type 0) (P : World → B → Type 0) (Q : World → V → Type 0) where
    after_try-RunsTo :
        (again : ℕ → World → B → Ran World V)
        → ((d : ℕ) (w : World) (b : B) → P w b → RunsTo R Q (again d w b))
        → ((w : World) (b : B) (e : Event Error) (d : ℕ)
            → P w b
            → P (clock.sleep (config.log w e) d) b)
        → (d : ℕ) (r : World × Tried V B Error) → CallGives P Q r
        → RunsTo R Q (after_try q id again d r)
    unfolding after_try RunsTo
    after_try-RunsTo again h quiet d (w, got v) g = g
    after_try-RunsTo again h quiet d (w, failed b e) g = h _ _ b (quiet w b _ d g)

    -- A loop that tries a call again and again keeps what the call and the waiting keep.
    pub retry-RunsTo :
        ((w : World) (b : B) → P w b → CallGives P Q (call w b))
        → ((w : World) (b : B) (e : Event Error) (d : ℕ)
            → P w b
            → P (clock.sleep (config.log w e) d) b)
        → ((w : World) (b : B) → P w b → R w)
        → (fuel d : ℕ) (w : World) (b : B) → P w b
        → RunsTo R Q (retry q call id fuel d w b)
    unfolding retry RunsTo
    retry-RunsTo step quiet keep zero d w b p = keep w b p
    retry-RunsTo step quiet keep (suc fuel) d w b p =
        after_try-RunsTo (retry q call id fuel)
          (λ d' w' b' p'. retry-RunsTo step quiet keep fuel d' w' b' p') quiet d (call w b)
          (step w b p)

  module _ {V B : Type 0} (call : World → B → World × Tried V B Error) (id : B → QueueId)
      (F : World → Type 0) where
    kept_by_call :
        (res : World × Tried V B Error) → F res.0 → CallGives (λ w b. F w) (λ w v. F w) res
    kept_by_call (w, got v) f = f
    kept_by_call (w, failed b e) f = f

    -- What the call and the waiting keep, the loop keeps.
    pub retry-keeps :
        ((w : World) (b : B) → F w → F (call w b).0)
        → ((w : World) (e : Event Error) (d : ℕ) → F w → F (clock.sleep (config.log w e) d))
        → (fuel d : ℕ) (w : World) (b : B) → F w
        → RunsTo F (λ w' v. F w') (retry q call id fuel d w b)
    retry-keeps step quiet fuel d w b f =
        retry-RunsTo call id F (λ w' b'. F w') (λ w' v. F w')
          (λ w' b' f'. kept_by_call (call w' b') (step w' b' f'))
          (λ w' b' e d' f'. quiet w' e d' f') (λ w' b' f'. f') fuel d w b f
