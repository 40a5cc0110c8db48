-- ===== src/MessageBus/Jetstream.antt =====
-- packages/message-bus/src/transport/jetstream/index.ts: `publish`, `subscribe` and what they call.
-- The client library is a parameter, and so is `_connect`, which MessageBus.Connection models.
pub mod Consume
use Prim.Native.String.{◌++◌ as concat}
use rocket_toolkit.Prelude.{
  ℕ, String, ◌≡◌, ◌∙◌, Bool, true, false, Option, none, some, List, [], ◌∷◌,
}
use rocket_toolkit.ProcessManager.Effect
use rocket_toolkit.ProcessManager.Effect.{Effect, Error, error, throw, pure}
use rocket_toolkit.ProcessManager.Effect.Run.{
  execute, execute-bind_returned, execute-bind_threw, returned, threw,
}
use rocket_toolkit.MessageBus.Bus.{SubscriptionOptions}
use rocket_toolkit.MessageBus.Subscriptions.{
  Settings, ConsumerConfig, consumer_config, get_max_messages,
}

pub data AckPolicy : Type 0 where
  ack_none ack_explicit ack_all ack_not_set : AckPolicy

-- What the code calls of the client library: `C` is a consumer, `I` an iterator of messages, `Raw`
-- what is sent, and `R` what the server says of it.
pub record Library (W C I Raw R : Type 0) : Type 0 where
  pub connect : Effect W (Unit {0})
  pub publish_raw : String → Raw → Effect W R
  pub find_stream : String → Effect W (Option String)
  -- the name of the consumer that was added
  pub add_consumer : String → ConsumerConfig → Effect W String
  pub consumer_by_name : String → String → Effect W C
  pub ack_policy_of : C → Effect W AckPolicy
  -- none is NaN
  pub consume : C → Option ℕ → Effect W I
  pub close_messages : I → Effect W (Unit {0})

-- What is left of a call of `subscribe`: the loop of Consume runs over `messages_iterator` with these.
pub record Subscription (I : Type 0) : Type 0 where
  pub messages_iterator : I
  pub manual_ack : Bool
  pub max_concurrent : Option ℕ

abbrev pub is_manual : AckPolicy → Bool
is_manual ack_explicit = true
is_manual ack_all = true
is_manual ack_none = false
is_manual ack_not_set = false

module _ {W C I Raw R : Type 0} (library : Library W C I Raw R) where
  -- `encode` is the serializer of the bus, and then that of the library
  unfoldable pub publish : {T : Type 0} → (T → Raw) → String → T → Effect W R
  publish encode subject envelope =
      Effect.bind library.connect (λ _. library.publish_raw subject (encode envelope))

  abbrev pub unresolved : String → Error
  unresolved subject =
      error (concat "Jetstream stream cannot be resolved for subject " (concat subject "."))

  abbrev pub stream_or_throw : String → Option String → Effect W String
  stream_or_throw subject none = throw (unresolved subject)
  stream_or_throw subject (some stream) = pure stream

  unfoldable pub get_stream : String → Effect W String
  get_stream subject = Effect.bind (library.find_stream subject) (stream_or_throw subject)

  unfoldable pub get_consumer : ConsumerConfig → String → Effect W C
  get_consumer config stream =
      Effect.bind (library.add_consumer stream config)
        (λ name. library.consumer_by_name stream name)

  module _ (parse_int : String → Option ℕ) (replace_dots : String → String) (client_id : String)
      (max_messages ack_wait : Settings String) where
    abbrev pub subscribe_to : String → SubscriptionOptions → String → Effect W (Subscription I)
    subscribe_to subject opts stream =
        Effect.bind
          (get_consumer
            (consumer_config parse_int replace_dots client_id max_messages ack_wait opts subject)
            stream)
          (λ consumer. Effect.bind (library.ack_policy_of consumer) (λ policy.
            let max =
              get_max_messages parse_int replace_dots client_id max_messages ack_wait opts in
            Effect.bind (library.consume consumer max) (λ iterator. pure (record {
              messages_iterator = iterator;
              manual_ack = is_manual policy;
              max_concurrent = max;
            }))))

    unfoldable pub subscribe : String → SubscriptionOptions → Effect W (Subscription I)
    unfolding get_stream
    subscribe subject opts =
        Effect.bind library.connect
          (λ _. Effect.bind (get_stream subject) (subscribe_to subject opts))

    -- When the connection is there and the server names no stream for the subject, `subscribe` throws
    -- an error that names the subject, and does nothing behind that: no consumer is added.
    pub subscribe-unresolved :
        (subject : String) (opts : SubscriptionOptions) (u v w : W)
        → execute library.connect u ≡ (returned tt, v)
        → execute (library.find_stream subject) v ≡ (returned none, w)
        → execute (subscribe subject opts) u ≡ (threw (unresolved subject), w)
    unfolding subscribe get_stream execute
    subscribe-unresolved subject opts u v w connected missing =
        execute-bind_returned library.connect
          (λ _. Effect.bind (get_stream subject) (subscribe_to subject opts)) u v tt connected
        ∙ execute-bind_threw (get_stream subject) (subscribe_to subject opts) v w
            (unresolved subject)
            (execute-bind_returned (library.find_stream subject) (stream_or_throw subject) v w none
              missing)

  -- the `unsubscribe` of the subscription
  abbrev pub unsubscribe : Subscription I → Effect W (Unit {0})
  unsubscribe s = library.close_messages s.messages_iterator

-- What the connection of the bus emits: 'close', when `closed()` of the library's is fulfilled with an
-- error or none; it is pending otherwise.
abbrev pub jetstream_connection : Option (Option Error) → List (String × Option Error)
jetstream_connection none = []
jetstream_connection (some err) = ("close", err) ∷ []
