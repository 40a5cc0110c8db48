-- ===== src/MessageBus/Nats.antt =====
-- packages/message-bus/src/transport/nats/index.ts: `publish` and `subscribe`. The client library is a
-- parameter, and so is `connect`, which MessageBus.Connection models; MessageBus.Subscriptions has the
-- options and the handler of messages, MessageBus.Timeout the end of a subscription.
use rocket_toolkit.Prelude.{
  ℕ, String, ◌≡◌, refl, ap, Bool, Option, none, some, List, [], ◌∷◌, map, if◌then◌else◌,
}
use rocket_toolkit.ProcessManager.Effect
use rocket_toolkit.ProcessManager.Effect.{Effect, Error, Completion, normal, abrupt}
use rocket_toolkit.MessageBus.Bus.{SubscriptionOptions}
use rocket_toolkit.MessageBus.Subscriptions.{Settings, NatsOptions, nats_options, on_message}

-- What the code calls of the client library: `S` is a subscription of it, `Raw` what is sent, and `R`
-- what the promise of a publication is fulfilled with.
pub record Library (W S Raw R : Type 0) : Type 0 where
  pub connect : Effect W (Unit {0})
  pub publish : String → Raw → Effect W R
  -- the queue group is none for a call without one
  pub subscribe : String → Option String → NatsOptions → Effect W S

-- what a subscription of the library emits, in time
pub data Emission (Raw : Type 0) : Type 0 where
  message : Raw → Emission Raw
  ready : Emission Raw
  emits_error : Error → Emission Raw
  -- a time-out, the end, and what else the code only writes to the console
  told : Emission Raw

module _ {W S Raw R : Type 0} (library : Library W S Raw R) where
  unfoldable pub publish : {T : Type 0} → (T → Raw) → String → T → Effect W R
  publish serialize subject envelope =
      Effect.bind library.connect (λ _. library.publish subject (serialize envelope))

  module _ (parse_int : String → Option ℕ) (durable q_group : String)
      (max_in_flight : Settings String) (ack_wait : Settings (Option String)) where
    abbrev pub group_of : NatsOptions → Option String
    group_of options = if options.use_q_group then some q_group else none

    -- the call of `subscribe` up to the listeners
    unfoldable pub subscribe : String → SubscriptionOptions → Effect W (S × NatsOptions)
    subscribe subject opts =
        let options = nats_options parse_int durable max_in_flight ack_wait opts in
        Effect.bind library.connect (λ _.
          Effect.bind (library.subscribe subject (group_of options) options)
            (λ subscription. Effect.pure (subscription, options)))

module _ {Raw : Type 0} where
  -- The promise of `subscribe`: the first of `ready` and `error` settles it, none while neither came.
  unfoldable pub subscribed : {S : Type 0} → S → List (Emission Raw) → Option (Completion S)
  subscribed subscription [] = none
  subscribed subscription (ready ∷ later) = some (normal subscription)
  subscribed subscription (emits_error e ∷ later) = some (abrupt e)
  subscribed subscription (message msg ∷ later) = subscribed subscription later
  subscribed subscription (told ∷ later) = subscribed subscription later

  abbrev pub messages_of : List (Emission Raw) → List Raw
  messages_of [] = []
  messages_of (message msg ∷ later) = msg ∷ messages_of later
  messages_of (ready ∷ later) = messages_of later
  messages_of (emits_error e ∷ later) = messages_of later
  messages_of (told ∷ later) = messages_of later

  module _ {W T : Type 0} (de_serialize : Raw → Completion T) (handler : T → Effect W (Unit {0}))
      (ack : Raw → Effect W (Unit {0})) (manual_acks : Bool) where
    -- the calls of the message listener, each started as its message comes and awaited by no one
    unfoldable pub started : List (Emission Raw) → List (Effect W (Unit {0}))
    started [] = []
    started (message msg ∷ later) =
        on_message de_serialize handler ack manual_acks msg ∷ started later
    started (ready ∷ later) = started later
    started (emits_error e ∷ later) = started later
    started (told ∷ later) = started later

    -- Every message that comes is handed to the listener, in order, also before the promise of
    -- `subscribe` is settled and behind its rejection.
    pub started_lem :
        (emissions : List (Emission Raw))
        → started emissions
          ≡ map (on_message de_serialize handler ack manual_acks) (messages_of emissions)
    unfolding started
    started_lem [] = refl
    started_lem (message msg ∷ later) =
        ap (λ calls. on_message de_serialize handler ack manual_acks msg ∷ calls)
          (started_lem later)
    started_lem (ready ∷ later) = started_lem later
    started_lem (emits_error e ∷ later) = started_lem later
    started_lem (told ∷ later) = started_lem later
