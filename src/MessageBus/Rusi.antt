-- ===== src/MessageBus/Rusi.antt =====
-- packages/message-bus/src/transport/rusi/index.ts: `publish`, `subscribe` and `wrapClient`, with
-- `deSerializePayload` of packages/message-bus/src/serDes.ts. The gRPC client is a parameter, and so is
-- `_connect`, which MessageBus.Connection models. A text is its UTF-16 code units.
use Prim.Native.String.{◌++◌ as concat}
use rocket_toolkit.Prelude.{ℕ, String, ◌≡◌, ap, ◌∙◌, Option, List}
use rocket_toolkit.ProcessManager.Effect
use rocket_toolkit.ProcessManager.Effect.{
  Effect, Error, error, Completion, normal, abrupt, of_completion, pure,
}
use rocket_toolkit.ProcessManager.Effect.Run.{
  execute, execute-bind_returned, execute-bind_threw, returned, threw,
}
use rocket_toolkit.MessageBus.Utf8.{to_utf8_array, from_utf8_array}
use rocket_toolkit.MessageBus.Utf8.RoundTrip.{IsUtf16, from_utf8_array-to_utf8_array}
use rocket_toolkit.MessageBus.Envelope.{Headers, Envelope}
use rocket_toolkit.MessageBus.Bus.{SubscriptionOptions}
use rocket_toolkit.MessageBus.Subscriptions.{Settings, RusiOptions, rusi_options}

pub record PublishRequest : Type 0 where
  pub pubsub_name : String
  pub topic : String
  pub payload_bytes : List ℕ
  pub data_content_type : String
  pub metadata : Headers

-- What a client writes to the stream of a subscription.
pub data Written : Type 0 where
  subscription_request : (pubsub_name topic : String) → RusiOptions → Written
  ack_request : (message_id : String) → Written

-- a message that comes in
pub record Received : Type 0 where
  pub id : String
  pub payload_bytes : List ℕ
  pub metadata : Headers

-- What the code calls of the client: `K` is a stream.
pub record Client (W K R : Type 0) : Type 0 where
  pub connect : Effect W (Unit {0})
  pub publish_request : PublishRequest → Effect W R
  pub open_stream : Effect W K
  pub write : K → Written → Effect W (Unit {0})
  pub cancel : K → Effect W (Unit {0})

abbrev pub content_type : String
content_type = "application/json;charset=utf-8"

-- JSON and `humps.camelizeKeys`
pub record Json (J : Type 0) : Type 0 where
  pub stringify : J → List ℕ
  pub parse : List ℕ → Completion J
  pub camelize_keys : J → J

module _ {J : Type 0} (json : Json J) where
  abbrev pub camelized : Completion J → Completion J
  camelized (normal j) = normal (json.camelize_keys j)
  camelized (abrupt e) = abrupt e

  unfoldable pub de_serialize_payload : List ℕ → Completion J
  de_serialize_payload payload = camelized (json.parse payload)

module _ {W K R J : Type 0} (client : Client W K R) (json : Json J) (pub_sub_name : String) where
  unfoldable pub request_of : String → Envelope J → PublishRequest
  request_of subject envelope = record {
    pubsub_name = pub_sub_name;
    topic = subject;
    payload_bytes = to_utf8_array (json.stringify envelope.payload);
    data_content_type = content_type;
    metadata = envelope.headers;
  }

  unfoldable pub publish : String → Envelope J → Effect W R
  unfolding request_of
  publish subject envelope =
      Effect.bind client.connect (λ _. client.publish_request (request_of subject envelope))

  module _ (handler : Envelope J → Effect W (Unit {0})) where
    -- the listener of 'data'
    unfoldable pub on_data : K → Received → Effect W (Unit {0})
    unfolding de_serialize_payload
    on_data call msg =
        Effect.bind (of_completion (de_serialize_payload json (from_utf8_array msg.payload_bytes)))
          (λ payload.
            Effect.bind (handler (record { payload = payload; headers = msg.metadata }))
              (λ _. client.write call (ack_request msg.id)))

  -- the stream of the subscription, on which `on_data` listens behind this
  unfoldable pub subscribe :
      (String → Option ℕ)
      → (max_concurrent ack_wait : Settings String) → String
      → SubscriptionOptions
      → Effect W K
  unfolding rusi_options
  subscribe parse_int max_concurrent ack_wait subject opts = Effect.bind client.connect (λ _.
      Effect.bind client.open_stream (λ call.
        Effect.bind
          (client.write call (
            subscription_request pub_sub_name subject
              (rusi_options parse_int max_concurrent ack_wait opts)))
          (λ _. pure call)))

  abbrev pub unsubscribe : K → Effect W (Unit {0})
  unsubscribe call = client.cancel call

  -- the message that a subscription receives for a request, when the sidecar hands on its data
  abbrev pub delivered : String → PublishRequest → Received
  delivered id request = record {
    id = id;
    payload_bytes = request.payload_bytes;
    metadata = request.metadata;
  }

  module _ (handler : Envelope J → Effect W (Unit {0})) (call : K) (id subject : String)
      (envelope : Envelope J) (u v : W) (readable : IsUtf16 (json.stringify envelope.payload))
      (faithful : json.parse (json.stringify envelope.payload) ≡ normal envelope.payload) where
    -- what the handler is given
    abbrev pub seen : Envelope J
    seen = record { payload = json.camelize_keys envelope.payload; headers = envelope.headers }

    on_data-request_of :
        on_data handler call (delivered id (request_of subject envelope))
        ≡ Effect.bind (handler seen) (λ _. client.write call (ack_request id))
    unfolding on_data request_of de_serialize_payload Effect.bind
    on_data-request_of =
        ap
          (λ c. Effect.bind (of_completion (camelized json c)) (λ payload.
            Effect.bind (handler (record { payload = payload; headers = envelope.headers }))
              (λ _. client.write call (ack_request id))))
          (ap json.parse (from_utf8_array-to_utf8_array (json.stringify envelope.payload) readable)
            ∙ faithful)

    -- What `publish` asks the sidecar to send, when it comes back to a subscription, reaches the
    -- handler with the same headers and with the keys of the payload in camel case, and is
    -- acknowledged behind the handler exactly when that returns; when it throws, nothing is
    -- acknowledged. The payload's JSON has every surrogate in a pair, and parses to the payload.
    pub on_data-publish :
        (execute (handler seen) u ≡ (returned tt, v)
          → execute (on_data handler call (delivered id (request_of subject envelope))) u
            ≡ execute (client.write call (ack_request id)) v)
        × ((e : Error)
            → execute (handler seen) u ≡ (threw e, v)
            → execute (on_data handler call (delivered id (request_of subject envelope))) u
              ≡ (threw e, v))
    on_data-publish =
        let run = ap (λ (d : Effect W (Unit {0})). execute d u) on_data-request_of in
        (
          λ h. run ∙ execute-bind_returned (handler seen) _ u v tt h,
          λ e h. run ∙ execute-bind_threw (handler seen) _ u v e h,
        )

-- `wrapClient`: `watched` is whether `watchConnectivityState` returned, and the emitter throws what is
-- emitted as an 'error' before there is a listener for it.
abbrev pub closed_error : Error
closed_error = error "The channel has been closed"

unfoldable pub wrap_client : Completion (Unit {0}) → Completion (Unit {0})
wrap_client (normal u) = normal u
wrap_client (abrupt e) = abrupt closed_error

-- The error that the connection emits when the watch calls back, by what `getConnectivityState` gives.
unfoldable pub on_connectivity : Completion String → Error
on_connectivity (normal current_state) =
    error (concat "The channel's connectivity state is " current_state)
on_connectivity (abrupt e) = closed_error
