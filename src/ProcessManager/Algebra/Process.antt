-- ===== src/ProcessManager/Algebra/Process.antt =====
-- `Process` of packages/process-manager/src/process-algebra.ts: from an instance id and an initial
-- state, the effect of starting and the process state reached.
pub mod Laws
pub mod Delivery
pub mod Events
pub mod Both
use rocket_toolkit.Prelude.{String, Bool, Option, none, some, List, [], ◌∷◌, foldl, if◌then◌else◌}
use rocket_toolkit.ProcessManager.Result
use rocket_toolkit.ProcessManager.Result.{Result}
use rocket_toolkit.ProcessManager.Effect
use rocket_toolkit.ProcessManager.Effect.{Effect}
use rocket_toolkit.ProcessManager.Mediator.{Mediator, EnqueueEvent, send, get_type}
use rocket_toolkit.ProcessManager.Algebra.State.{
  ProcessState, Reply, in_progress, succeeded, failed, null, result, map_value, map_state, apply,
}

abbrev pub ProcessResult : (W S E R : Type 0) → Type 0
ProcessResult W S E R = Effect W (Unit {0}) × ProcessState W S E R

abbrev pub Process : (W I S E R : Type 0) → Type 0
Process W I S E R = I → S → ProcessResult W S E R

-- the body of `waitForEvent` on what `eventFn` made of the event
abbrev pub wait_reply : {W S E R : Type 0} → S → Option (Result R String) → Reply W S E R
wait_reply state none = null
wait_reply state (some r) =
    Result.match r (λ value. result Effect.unit (succeeded state value))
      (λ error. result Effect.unit (failed state error))

module _ {W I S E : Type 0} where
  unfoldable pub pure : {R : Type 0} → R → Process W I S E R
  pure value _ state = (Effect.unit, succeeded state value)

  unfoldable pub failure : {R : Type 0} → String → Process W I S E R
  failure error _ state = (Effect.unit, failed state error)

  unfoldable pub ignore : Process W I S E (Unit {0})
  unfolding pure
  ignore = pure tt

  unfoldable pub lift_effect : Effect W (Unit {0}) → Process W I S E (Unit {0})
  lift_effect effect _ state = (effect, succeeded state tt)

  -- sends each event that the effect returns back to the instance, in order
  unfoldable pub lift_event_returning_effect :
      (I → String) → Mediator W (EnqueueEvent I E) → Effect W (List E) → Process W I S E (Unit {0})
  lift_event_returning_effect process_name mediator effect instance_id state = (
    Effect.pipe_three effect
        (λ events. Effect.traverse events (λ event.
          send (get_type process_name) mediator
            (record { instance_id = instance_id; event = event })))
        (λ _. Effect.unit),
    succeeded state tt,
  )

  unfoldable pub map_process : {A B : Type 0} → (A → B) → Process W I S E A → Process W I S E B
  map_process f proc instance_id state =
      let (effect, reached) = proc instance_id state in (effect, map_value f reached)

  module _ {A B : Type 0} (f : A → Process W I S E B) (instance_id : I) where
    -- The closure of `bind` over a result of the first process: its own recursion is on the
    -- process state.
    unfoldable mutual
      pub bind_result : Effect W (Unit {0}) → ProcessState W S E A → ProcessResult W S E B
      bind_result effect (succeeded s value) =
          let (next_effect, next_state) = f value instance_id s in
          (Effect.bind effect (λ _. next_effect), next_state)
      bind_result effect (failed s error) = (effect, failed s error)
      bind_result effect (in_progress s next) =
          (effect, in_progress s (λ event. bind_reply (next event)))

      pub bind_reply : Reply W S E A → Reply W S E B
      bind_reply null = null
      bind_reply (result effect state) =
          let (next_effect, next_state) = bind_result effect state in result next_effect next_state

  unfoldable pub bind :
      {A B : Type 0} → Process W I S E A → (A → Process W I S E B) → Process W I S E B
  unfolding bind_result
  bind proc f instance_id state =
      let (effect, reached) = proc instance_id state in bind_result f instance_id effect reached

  unfoldable pub wait_for_event : {R : Type 0} → (E → Option (Result R String)) → Process W I S E R
  unfolding Result.match
  wait_for_event event_fn _ state =
      (Effect.unit, in_progress state (λ event. wait_reply state (event_fn event)))

  unfoldable pub from_effect :
      {R : Type 0}
      → (I → String)
      → Mediator W (EnqueueEvent I E)
      → Effect W (List E)
      → (E → Option (Result R String))
      → Process W I S E R
  unfolding bind lift_event_returning_effect wait_for_event
  from_effect process_name mediator effect event_handler =
      bind (lift_event_returning_effect process_name mediator effect)
        (λ _. wait_for_event event_handler)

  unfoldable pub from_side_effect : Effect W (Unit {0}) → Process W I S E (Unit {0})
  unfolding lift_effect
  from_side_effect effect = lift_effect effect

  unfoldable pub set_state : (S → S) → Process W I S E (Unit {0})
  set_state state_fn _ state = (Effect.unit, succeeded (state_fn state) tt)

  -- the condition is read when the process starts
  unfoldable pub if_then_else :
      {R : Type 0} → (Unit {0} → Bool) → Process W I S E R → Process W I S E R → Process W I S E R
  if_then_else condition then_proc else_proc instance_id state =
      if condition tt then then_proc instance_id state else else_proc instance_id state

  unfoldable pub both :
      {A B : Type 0} → Process W I S E A → Process W I S E B → (S → S → S) → Process W I S E (A × B)
  both {A} {B} left right merge instance_id state =
      let (left_effect, left_state) = left instance_id state in
      let (right_effect, right_state) = right instance_id state in
      let pair : A → B → A × B = λ a b. (a, b) in
      (
        Effect.pipe_two left_effect (λ _. right_effect),
        map_state (λ (l, r). merge l r) (apply (map_value pair left_state) right_state),
      )

  -- `pipe` on functions of one dynamic type, as the implementation signature has it
  unfoldable pub pipe :
      {A : Type 0} → Process W I S E A → List (A → Process W I S E A) → Process W I S E A
  pipe proc fns = foldl bind proc fns

-- What a generator object does next: return, or yield a process and take its value. Each value is
-- sent in once, so the object's position is the subtree.
pub data Generator (W I S E V R : Type 0) : Type 0 where
  done : R → Generator W I S E V R
  yield_process : Process W I S E V → (V → Generator W I S E V R) → Generator W I S E V R

module _ {W I S E V R : Type 0} where
  -- `step` of `Do`
  step : Generator W I S E V R → Process W I S E R
  unfolding pure
  step (done value) = pure value
  step (yield_process yielded resume) = bind yielded (λ value. step (resume value))

  -- the generator is made anew each time the process starts
  unfoldable pub do_process : (I → Generator W I S E V R) → Process W I S E R
  unfolding step
  do_process gen_fn instance_id state = step (gen_fn instance_id) instance_id state
