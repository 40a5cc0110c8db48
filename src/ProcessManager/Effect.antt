-- ===== src/ProcessManager/Effect.antt =====
-- packages/process-manager/src/effects.ts: a deferred asynchronous computation, as the tree of its
-- synchronous chunks over a shared world `W`.
pub mod Monad
pub mod Run
pub mod Pool
pub mod Parallel
use rocket_toolkit.Prelude.{false, Bool, true, ℕ, String, List, [], ◌∷◌, ◌++◌, map, foldl}

-- What a chunk throws. A `ConcurrencyError` of the in-memory store carries the version expected
-- and the version found.
pub data Error : Type 0 where
  concurrency_error : (expected actual : ℕ) → Error
  error : String → Error

-- One synchronous chunk runs when `ready` holds of the world, replaces the world by `update`, and
-- goes on with what `next` makes of the world that it found. `ready` is `true` but for the wait of
-- a lock. Between two chunks any other computation may run.
pub data Effect {ℓ} (W : Type 0) (A : Type ℓ) : Type ℓ where
  pure : A → Effect W A
  throw : Error → Effect W A
  chunk : (ready : W → Bool) → (update : W → W) → (next : W → Effect W A) → Effect W A

-- How a synchronous function ends.
pub data Completion {ℓ} (A : Type ℓ) : Type ℓ where
  normal : A → Completion A
  abrupt : Error → Completion A

abbrev pub of_completion {ℓ} : {W : Type 0} {A : Type ℓ} → Completion A → Effect W A
of_completion (normal a) = pure a
of_completion (abrupt e) = throw e

module _ {W : Type 0} where
  -- Monadic bind
  unfoldable pub bind {ℓ κ} : {A : Type ℓ} {B : Type κ} → Effect W A → (A → Effect W B) → Effect W B
  bind (pure a) f = f a
  bind (throw e) f = throw e
  bind (chunk ready update next) f = chunk ready update (λ w. bind (next w) f)

  -- a promise that never settles: what stands behind the chunk is not reached
  abbrev pub never {ℓ} : {A : Type ℓ} → Effect W A
  never = chunk (λ _. false) (λ w. w) (λ _. throw (error ""))

  unfoldable pub catch_error {ℓ} : {A : Type ℓ} → Effect W A → (Error → Effect W A) → Effect W A
  catch_error (pure a) handler = pure a
  catch_error (throw e) handler = handler e
  catch_error (chunk ready update next) handler =
      chunk ready update (λ w. catch_error (next w) handler)

  -- `pipe` on functions of one dynamic type, as the implementation signature has it
  unfoldable pub pipe {ℓ} : {A : Type ℓ} → Effect W A → List (A → Effect W A) → Effect W A
  pipe effect fns = foldl bind effect fns

  -- the typed overloads of two and three effects
  abbrev pub pipe_two {ℓ κ} : {A : Type ℓ} {B : Type κ} → Effect W A → (A → Effect W B) → Effect W B
  pipe_two effect f = bind effect f

  abbrev pub pipe_three {ℓ κ μ} :
      {A : Type ℓ} {B : Type κ} {C : Type μ}
      → Effect W A
      → (A → Effect W B)
      → (B → Effect W C)
      → Effect W C
  pipe_three effect f g = bind (bind effect f) g

  abbrev pub unit : Effect W (Unit {0})
  unit = pure tt

  pub sequence_loop {ℓ} : {A : Type ℓ} → List A → List (Effect W A) → Effect W (List A)
  sequence_loop results [] = pure results
  sequence_loop results (effect ∷ effects) =
      bind effect (λ result. sequence_loop (results ++ result ∷ []) effects)

  -- left to right
  unfoldable pub sequence {ℓ} : {A : Type ℓ} → List (Effect W A) → Effect W (List A)
  unfolding sequence_loop
  sequence effects = sequence_loop [] effects

  unfoldable pub traverse {ℓ κ} :
      {A : Type ℓ} {B : Type κ} → List A → (A → Effect W B) → Effect W (List B)
  traverse list f = sequence (map f list)

  unfoldable pub map_effect {ℓ κ} : {A : Type ℓ} {B : Type κ} → Effect W A → (A → B) → Effect W B
  map_effect effect f = bind effect (λ a. pure (f a))

  unfoldable pub ignore {ℓ} : {A : Type ℓ} → Effect W A → Effect W (Unit {0})
  unfolding map_effect
  ignore effect = map_effect effect (λ _. tt)

  unfoldable pub lift_two {ℓ κ μ} :
      {A : Type ℓ} {B : Type κ} {C : Type μ} → (A → B → C) → Effect W A → Effect W B → Effect W C
  lift_two f effect_a effect_b = bind effect_a (λ a. bind effect_b (λ b. pure (f a b)))

  -- a synchronous function is one chunk
  unfoldable pub from_sync {ℓ} : {A : Type ℓ} → (W → Completion A) → (W → W) → Effect W A
  from_sync value update = chunk (λ _. true) update (λ w. of_completion (value w))
