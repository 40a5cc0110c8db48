-- ===== src/ProcessManager/Algebra/State.antt =====
-- `ProcessState` of packages/process-manager/src/process-algebra.ts. `Reply` is
-- `ProcessResult | null`, where null says that the event was ignored. A state is a well-founded
-- tree: each event takes a process nearer to its end, so a process that loops for ever is left out.
pub mod Laws
pub mod Apply
use rocket_toolkit.Prelude.{String, Option, none, some, List, foldl}
use rocket_toolkit.ProcessManager.Effect.{Effect, bind}

mutual
  pub data ProcessState (W S E R : Type 0) : Type 0 where
    in_progress : S → (E → Reply W S E R) → ProcessState W S E R
    succeeded : S → R → ProcessState W S E R
    failed : S → String → ProcessState W S E R

  pub data Reply (W S E R : Type 0) : Type 0 where
    null : Reply W S E R
    result : Effect W (Unit {0}) → ProcessState W S E R → Reply W S E R

-- the field `state`, which every kind has
abbrev pub state_of : {W S E R : Type 0} → ProcessState W S E R → S
state_of (in_progress s next) = s
state_of (succeeded s value) = s
state_of (failed s e) = s

-- the body of the fold in `applyHistory` of process-runtime.ts: an ignored event and a state that
-- is not in progress leave the state as it is
abbrev pub settle : {W S E R : Type 0} → ProcessState W S E R → Reply W S E R → ProcessState W S E R
settle state null = state
settle state (result effect next_state) = next_state

abbrev pub advance : {W S E R : Type 0} → ProcessState W S E R → E → ProcessState W S E R
advance (in_progress s next) event = settle (in_progress s next) (next event)
advance (succeeded s value) event = succeeded s value
advance (failed s e) event = failed s e

unfoldable pub replay : {W S E R : Type 0} → ProcessState W S E R → List E → ProcessState W S E R
replay state events = foldl advance state events

unfoldable mutual
  pub map_value : {W S E A B : Type 0} → (A → B) → ProcessState W S E A → ProcessState W S E B
  map_value f (succeeded s value) = succeeded s (f value)
  map_value f (failed s e) = failed s e
  map_value f (in_progress s next) = in_progress s (λ event. map_reply f (next event))

  pub map_reply : {W S E A B : Type 0} → (A → B) → Reply W S E A → Reply W S E B
  map_reply f null = null
  map_reply f (result effect next_state) = result effect (map_value f next_state)

unfoldable mutual
  pub map_state : {W S T E A : Type 0} → (S → T) → ProcessState W S E A → ProcessState W T E A
  map_state f (succeeded s value) = succeeded (f s) value
  map_state f (failed s e) = failed (f s) e
  map_state f (in_progress s next) = in_progress (f s) (λ event. map_state_reply f (next event))

  pub map_state_reply : {W S T E A : Type 0} → (S → T) → Reply W S E A → Reply W T E A
  map_state_reply f null = null
  map_state_reply f (result effect next_state) = result effect (map_state f next_state)

module _ {W S E A B : Type 0} where
  -- What an event does to the two sides of `apply`: the cases on two nullable results. The left
  -- result holds its effect and `apply` of its next state; the right one its effect, its next
  -- state, and the left state applied to that.
  join :
      Option (Effect W (Unit {0}) × (ProcessState W S E A → ProcessState W (S × S) E B))
      → Option (Effect W (Unit {0}) × ProcessState W S E A × ProcessState W (S × S) E B)
      → ProcessState W S E A
      → Reply W (S × S) E B
  join none none state = null
  join (some (eff_f, apply_f)) none state = result eff_f (apply_f state)
  join none (some (eff_state, next_state, applied)) state = result eff_state applied
  join (some (eff_f, apply_f)) (some (eff_state, next_state, applied)) state =
      result (bind eff_f (λ _. eff_state)) (apply_f next_state)

  -- `apply` of a left state in progress, with data `s`: `on_value` is its result where the right
  -- one has succeeded, `step` is what an event does to the left side.
  module _ (s : S) (on_value : S → A → ProcessState W (S × S) E B)
      (step : E
        → Option (Effect W (Unit {0}) × (ProcessState W S E A → ProcessState W (S × S) E B))) where
    mutual
      unfolding join

      apply_running : ProcessState W S E A → ProcessState W (S × S) E B
      apply_running (succeeded t value) = on_value t value
      apply_running (failed t e) = failed (s, t) e
      apply_running (in_progress t next) =
          in_progress (s, t)
            (λ event. join (step event) (apply_to_reply (next event)) (in_progress t next))

      apply_to_reply :
          Reply W S E A
          → Option (Effect W (Unit {0}) × ProcessState W S E A × ProcessState W (S × S) E B)
      apply_to_reply null = none
      apply_to_reply (result effect next_state) =
          some (effect, next_state, apply_running next_state)

  abbrev apply_failed : S → String → ProcessState W S E A → ProcessState W (S × S) E B
  apply_failed s e (failed t e') = failed (s, t) e'
  apply_failed s e (in_progress t next) = failed (s, t) e
  apply_failed s e (succeeded t value) = failed (s, t) e

  unfoldable mutual
    unfolding apply_running map_value map_state

    pub apply : ProcessState W S E (A → B) → ProcessState W S E A → ProcessState W (S × S) E B
    apply (succeeded s f) state = map_state (λ t. (s, t)) (map_value f state)
    apply (failed s e) state = apply_failed s e state
    apply (in_progress s next) state =
        apply_running s
          (λ t value. map_state (λ u. (u, t)) (map_value (λ f. f value) (in_progress s next)))
          (λ event. apply_reply (next event)) state

    apply_reply :
        Reply W S E (A → B)
        → Option (Effect W (Unit {0}) × (ProcessState W S E A → ProcessState W (S × S) E B))
    apply_reply null = none
    apply_reply (result effect next_f) = some (effect, λ state. apply next_f state)
