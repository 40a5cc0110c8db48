-- ===== src/MessageBus/Request.antt =====
-- `sendCommandAndReceiveEvent` of packages/message-bus/src/messageBus.ts. The variables that its
-- closures share are a record in the world.
pub mod Answer
use rocket_toolkit.Prelude.{
  String, Bool, true, false, ◌&&◌, Option, none, some, List, [], ◌∷◌, foldl, str_eq, if◌then◌else◌,
}
use rocket_toolkit.ProcessManager.Result.{Result, ok, err}
use rocket_toolkit.ProcessManager.Effect
use rocket_toolkit.ProcessManager.Effect.{Effect, Error, error, throw, chunk, pure}
use rocket_toolkit.MessageBus.Envelope.{Envelope, get_correlation_id}
use rocket_toolkit.MessageBus.Bus.{SubscriptionOptions, rpc}

-- `resolver` is whether `resolveEventReceived` is set, and `outcome` is what the promise has been
-- settled with.
pub record Request (T : Type 0) : Type 0 where
  pub published_msg : Option (Envelope T)
  pub resolver : Bool
  pub outcome : Option (Result (String × Envelope T) String)

-- JavaScript's `==` on two strings or undefined
abbrev pub same_id : Option String → Option String → Bool
same_id none none = true
same_id none (some b) = false
same_id (some a) none = false
same_id (some a) (some b) = str_eq a b

module _ {T : Type 0} where
  abbrev pub fresh : Request T
  fresh = record { published_msg = none; resolver = false; outcome = none }

  -- a promise is settled once
  abbrev pub settle_once : Result (String × Envelope T) String → Request T → Request T
  settle_once answer r = elim r.outcome [
    | none ↦ record r { outcome = some answer }
    | some first ↦ r
  ]

  abbrev pub is_answer : Option (Envelope T) → Bool → Envelope T → Bool
  is_answer none resolver ev = false
  is_answer (some published) resolver ev =
      resolver && same_id (get_correlation_id ev) (get_correlation_id published)

  -- the handler that is subscribed to `event_topic`
  unfoldable pub on_event : String → Envelope T → Request T → Request T
  on_event event_topic ev r =
      if is_answer r.published_msg r.resolver ev then settle_once (ok (event_topic, ev)) r else r

  -- `publish` has returned, and the executor of the promise has run
  unfoldable pub on_published : Envelope T → Request T → Request T
  on_published msg r = record r { published_msg = some msg; resolver = true }

  unfoldable pub on_timeout : Request T → Request T
  on_timeout r = settle_once (err "Message timeout occurred.") r

  abbrev pub is_settled : Request T → Bool
  is_settled r = elim r.outcome [ none ↦ false | some first ↦ true ]

module _ {W T Sub : Type 0} (get : W → Request T) (set : Request T → W → W)
    (subscribe : String → (Envelope T → Effect W (Unit {0})) → SubscriptionOptions → Effect W Sub)
    (start_unsubscribe : Sub → W → W) where
  abbrev pub event_handler : String → Envelope T → Effect W (Unit {0})
  event_handler event_topic ev =
      chunk (λ _. true) (λ w. set (on_event event_topic ev (get w)) w) (λ _. pure tt)

  -- `Promise.all` of the subscriptions, here in their order
  unfoldable pub subscribe_all : List String → Effect W (List Sub)
  subscribe_all events =
      Effect.traverse events (λ event_topic. subscribe event_topic (event_handler event_topic) rpc)

  -- The `finally` block: every unsubscription is started and none is awaited. What they do later
  -- runs on its own, and their errors are only logged.
  abbrev pub unsubscribe_all : List Sub → W → W
  unsubscribe_all [] w = w
  unsubscribe_all (subscription ∷ subscriptions) w =
      unsubscribe_all subscriptions (start_unsubscribe subscription w)

  -- `await` of the promise when it has been settled; a pending one stays pending
  abbrev pub settled_with :
      Option (Result (String × Envelope T) String) → Effect W (String × Envelope T)
  settled_with none = Effect.never
  settled_with (some (ok answer)) = pure answer
  settled_with (some (err message)) = throw (error message)

  unfoldable pub send_command_and_receive_event :
      Effect W (Envelope T) → List String → Effect W (String × Envelope T)
  send_command_and_receive_event publish events =
      Effect.bind (subscribe_all events) (λ subscriptions. Effect.bind publish (λ msg.
        chunk (λ _. true) (λ w. set (on_published msg (get w)) w)
          (λ _.
            chunk (λ w. is_settled (get w)) (unsubscribe_all subscriptions)
              (λ w. settled_with (get w).outcome))))
