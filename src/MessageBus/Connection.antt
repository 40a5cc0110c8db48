-- ===== src/MessageBus/Connection.antt =====
-- The shared connection of the nats, rusi and jetstream transports in
-- packages/message-bus/src/transport: `connect` and `disconnect`, which test it again under a mutex.
-- Making a connection and closing one are effects of the client library, parameters here.
pub mod Once
pub mod Exclusive
pub mod Calls
use rocket_toolkit.Prelude.{
  ◌≡◌, refl, ap, ◌∙◌, Bool, true, false, not, Option, none, some, if◌then◌else◌,
}
use rocket_toolkit.ProcessManager.Effect
use rocket_toolkit.ProcessManager.Effect.{Effect, Error, throw, chunk, pure}

-- The variables of the module, and all else; `held` is whether the mutex is taken.
pub record Shared (C O : Type 0) : Type 0 where
  pub client : Option C
  pub held : Bool
  pub outside : O

module _ {C O : Type 0} where
  abbrev pub set_held : Bool → Shared C O → Shared C O
  set_held b w = record w { held = b }

  -- `clientMutex.acquire()`, a `try` block and the `finally` block that releases
  unfoldable pub locked : {A : Type 0} → Effect (Shared C O) A → Effect (Shared C O) A
  locked body =
      chunk (λ w. not w.held) (set_held true)
        (λ _.
          Effect.bind
            (Effect.catch_error body (λ e. chunk (λ _. true) (set_held false) (λ _. throw e)))
            (λ a. chunk (λ _. true) (set_held false) (λ _. pure a)))

-- `usable` is the test on the connection: jetstream asks that it is not closed, the others nothing.
module _ {C O : Type 0} (usable : C → O → Bool) (dial : Effect (Shared C O) C) where
  abbrev pub found : Option C → O → Effect (Shared C O) C → Effect (Shared C O) C
  found none o otherwise = otherwise
  found (some c) o otherwise = if usable c o then pure c else otherwise

  -- what `connect` does under the mutex
  abbrev pub connect_locked : Effect (Shared C O) C
  connect_locked =
      chunk (λ _. true) (λ w. w)
        (λ w. found w.client w.outside (
          Effect.bind dial
            (λ c. chunk (λ _. true) (λ w. record w { client = some c }) (λ _. pure c))))

  unfoldable pub connect : Effect (Shared C O) C
  unfolding locked
  connect = chunk (λ _. true) (λ w. w) (λ w. found w.client w.outside (locked connect_locked))

module _ {C O : Type 0} (close : C → Effect (Shared C O) (Unit {0})) where
  abbrev pub closing : Option C → Effect (Shared C O) (Unit {0})
  closing none = Effect.unit
  closing (some c) =
      Effect.bind (close c)
        (λ _. chunk (λ _. true) (λ w. record w { client = none }) (λ _. Effect.unit))

  abbrev pub close_open : Option C → Effect (Shared C O) (Unit {0})
  close_open none = Effect.unit
  close_open (some c) = locked (chunk (λ _. true) (λ w. w) (λ w. closing w.client))

  unfoldable pub disconnect : Effect (Shared C O) (Unit {0})
  unfolding locked
  disconnect = chunk (λ _. true) (λ w. w) (λ w. close_open w.client)
