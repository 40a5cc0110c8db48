-- ===== src/ProcessManager/Effect/Run.antt =====
-- `effect.execute()`, where nothing else runs between the chunks.
use rocket_toolkit.Prelude.{◌≡◌, refl, ap, ◌∙◌, true, false, Bool-cases, inl, inr}
use rocket_toolkit.ProcessManager.Effect.{
  Error, Effect, pure, throw, chunk, bind, catch_error, Completion, normal, abrupt, of_completion,
  from_sync,
}

-- `blocked` is a promise that never settles: a chunk that waits, with nobody to wake it.
pub data Outcome {ℓ} (A : Type ℓ) : Type ℓ where
  returned : A → Outcome A
  threw : Error → Outcome A
  blocked : Outcome A

-- what a completion is, when the effect that makes it has run
abbrev pub outcome {ℓ} : {A : Type ℓ} → Completion A → Outcome A
outcome (normal a) = returned a
outcome (abrupt e) = threw e

module _ {W : Type 0} where
  unfoldable pub execute {ℓ} : {A : Type ℓ} → Effect W A → W → Outcome A × W
  execute (pure a) w = (returned a, w)
  execute (throw e) w = (threw e, w)
  execute (chunk ready update next) w = elim (ready w) [
    | true ↦ execute (next w) (update w)
    | false ↦ (blocked, w)
  ]

  abbrev pub continue {ℓ κ} :
      {A : Type ℓ} {B : Type κ} → (A → Effect W B) → Outcome A × W → Outcome B × W
  continue f (returned a, w) = execute (f a) w
  continue f (threw e, w) = (threw e, w)
  continue f (blocked, w) = (blocked, w)

  abbrev pub handle {ℓ} : {A : Type ℓ} → (Error → Effect W A) → Outcome A × W → Outcome A × W
  handle f (returned a, w) = (returned a, w)
  handle f (threw e, w) = execute (f e) w
  handle f (blocked, w) = (blocked, w)

  pub execute-bind {ℓ κ} :
      {A : Type ℓ} {B : Type κ} (e : Effect W A) (f : A → Effect W B) (w : W)
      → execute (bind e f) w ≡ continue f (execute e w)
  unfolding execute bind
  execute-bind (pure a) f w = refl
  execute-bind (throw x) f w = refl
  execute-bind (chunk r u k) f w = elim (Bool-cases (r w)) [
    | inl e ↦ rw (e) (execute-bind (k w) f (u w))
    | inr e ↦ rw e
  ]

  pub execute-of_completion {ℓ} :
      {A : Type ℓ} (c : Completion A) (w : W) → execute (of_completion c) w ≡ (outcome c, w)
  unfolding execute
  execute-of_completion (normal a) w = refl
  execute-of_completion (abrupt e) w = refl

  pub execute-from_sync {ℓ} :
      {A : Type ℓ} (value : W → Completion A) (update : W → W) (w : W)
      → execute (from_sync value update) w ≡ (outcome (value w), update w)
  unfolding execute from_sync
  execute-from_sync value update w = execute-of_completion (value w) (update w)

  -- behind an effect that returns, or throws
  pub execute-bind_returned {ℓ κ} :
      {A : Type ℓ} {B : Type κ} (e : Effect W A) (f : A → Effect W B) (w v : W) (a : A)
      → execute e w ≡ (returned a, v)
      → execute (bind e f) w ≡ execute (f a) v
  execute-bind_returned e f w v a h = execute-bind e f w ∙ ap (continue f) h

  pub execute-bind_threw {ℓ κ} :
      {A : Type ℓ} {B : Type κ} (e : Effect W A) (f : A → Effect W B) (w v : W) (x : Error)
      → execute e w ≡ (threw x, v)
      → execute (bind e f) w ≡ (threw x, v)
  execute-bind_threw e f w v x h = execute-bind e f w ∙ ap (continue f) h

  -- The handler runs on the error that the effect threw, in the world that it left: what was
  -- written before the throw stays written.
  pub execute-catch_error {ℓ} :
      {A : Type ℓ} (e : Effect W A) (f : Error → Effect W A) (w : W)
      → execute (catch_error e f) w ≡ handle f (execute e w)
  unfolding execute catch_error
  execute-catch_error (pure a) f w = refl
  execute-catch_error (throw x) f w = refl
  execute-catch_error (chunk r u k) f w = elim (Bool-cases (r w)) [
    | inl e ↦ rw e (execute-catch_error (k w) f (u w))
    | inr e ↦ rw e
  ]

  -- One chunk of an effect that is under way, if it is ready: what is left, and the world.
  unfoldable pub run_chunk {ℓ} : {A : Type ℓ} → Effect W A → W → Effect W A × W
  run_chunk (pure a) w = (pure a, w)
  run_chunk (throw e) w = (throw e, w)
  run_chunk (chunk ready update next) w = elim (ready w) [
    | true ↦ (next w, update w)
    | false ↦ (chunk ready update next, w)
  ]
