-- ===== src/MessageBus/Subscriptions.antt =====
-- How the transports in packages/message-bus/src/transport turn the subscription options into those
-- of their client library, and what they do with a message. `parse_int` is `parseInt` in base 10,
-- where none is NaN; the settings are the environment variables of each transport.
use Prim.Native.String.{◌++◌ as concat}
use rocket_toolkit.Prelude.{
  ℕ, zero, suc, String, ◌≡◌, refl, Bool, true, false, Option, none, some, str_eq, if◌then◌else◌,
}
use rocket_toolkit.ProcessManager.Effect
use rocket_toolkit.ProcessManager.Effect.{Effect, Error, error, throw, Completion, normal, abrupt}
use rocket_toolkit.MessageBus.Bus.{SubscriptionOptions, stream_processor, pub_sub, rpc}

-- JavaScript's `parsed || default`, where NaN and 0 are falsy
abbrev pub number_or : Option ℕ → ℕ → ℕ
number_or none d = d
number_or (some zero) d = d
number_or (some (suc n)) d = suc n

-- One setting for each of the options.
pub record Settings (V : Type 0) : Type 0 where
  pub of_stream_processor : V
  pub of_pub_sub : V
  pub of_rpc : V

pub record RusiOptions : Type 0 where
  pub q_group : Bool
  pub durable : Bool
  pub deliver_new_messages_only : Bool
  pub max_concurrent_messages : ℕ
  pub ack_wait_time : ℕ

module _ (parse_int : String → Option ℕ) (max_concurrent ack_wait : Settings String) where
  unfoldable pub rusi_options : SubscriptionOptions → RusiOptions
  rusi_options stream_processor = record {
    q_group = true;
    durable = true;
    deliver_new_messages_only = false;
    max_concurrent_messages = number_or (parse_int max_concurrent.of_stream_processor) 1;
    ack_wait_time = number_or (parse_int ack_wait.of_stream_processor) 5000;
  }
  rusi_options pub_sub = record {
    q_group = true;
    durable = false;
    deliver_new_messages_only = true;
    max_concurrent_messages = number_or (parse_int max_concurrent.of_pub_sub) 100;
    ack_wait_time = number_or (parse_int ack_wait.of_pub_sub) 5000;
  }
  rusi_options rpc = record {
    q_group = false;
    durable = false;
    deliver_new_messages_only = true;
    max_concurrent_messages = number_or (parse_int max_concurrent.of_rpc) 1;
    ack_wait_time = number_or (parse_int ack_wait.of_rpc) 5000;
  }

pub data StartPosition : Type 0 where
  deliver_all_available : StartPosition
  new_only : StartPosition

-- `ack_wait` and `durable_name` are none where the option is left as the library has it.
pub record NatsOptions : Type 0 where
  pub use_q_group : Bool
  pub durable_name : Option String
  pub start_at : StartPosition
  pub max_in_flight : ℕ
  pub ack_wait : Option (Option ℕ)
  pub manual_acks : Bool

module _ (parse_int : String → Option ℕ) (durable : String) (max_in_flight : Settings String)
    (ack_wait : Settings (Option String)) where
  -- a setting that is empty or missing is not set
  abbrev pub ack_wait_of : Option String → Option (Option ℕ)
  ack_wait_of none = none
  ack_wait_of (some s) = if str_eq s "" then none else some (parse_int s)

  unfoldable pub nats_options : SubscriptionOptions → NatsOptions
  nats_options stream_processor = record {
    use_q_group = true;
    durable_name = some durable;
    start_at = deliver_all_available;
    max_in_flight = number_or (parse_int max_in_flight.of_stream_processor) 1;
    ack_wait = ack_wait_of ack_wait.of_stream_processor;
    manual_acks = true;
  }
  nats_options pub_sub = record {
    use_q_group = true;
    durable_name = none;
    start_at = new_only;
    max_in_flight = number_or (parse_int max_in_flight.of_pub_sub) 100;
    ack_wait = ack_wait_of ack_wait.of_pub_sub;
    manual_acks = false;
  }
  nats_options rpc = record {
    use_q_group = false;
    durable_name = none;
    start_at = new_only;
    max_in_flight = number_or (parse_int max_in_flight.of_rpc) 1;
    ack_wait = ack_wait_of ack_wait.of_rpc;
    manual_acks = false;
  }

-- The configuration of a jetstream consumer; a setting that is not given is none.
pub record ConsumerConfig : Type 0 where
  pub filter_subject : String
  pub durable_name : Option String
  pub deliver_policy : StartPosition
  pub inactive_threshold : Option ℕ
  -- none is NaN
  pub ack_wait : Option ℕ
  pub sets_explicit_ack : Bool

-- `replace_dots` is `replaceAll('.', '_')`, and `client_id` is `JETSTREAM_CLIENT_ID`.
module _ (parse_int : String → Option ℕ) (replace_dots : String → String) (client_id : String)
    (max_messages ack_wait : Settings String) where
  unfoldable pub get_max_messages : SubscriptionOptions → Option ℕ
  get_max_messages stream_processor = parse_int max_messages.of_stream_processor
  get_max_messages pub_sub = parse_int max_messages.of_pub_sub
  get_max_messages rpc = parse_int max_messages.of_rpc

  unfoldable pub consumer_config : SubscriptionOptions → String → ConsumerConfig
  consumer_config stream_processor subject = record {
    filter_subject = subject;
    durable_name = some (replace_dots (concat client_id (concat "__" subject)));
    deliver_policy = deliver_all_available;
    inactive_threshold = some 3600000000000;
    ack_wait = parse_int ack_wait.of_stream_processor;
    sets_explicit_ack = true;
  }
  consumer_config pub_sub subject = record {
    filter_subject = subject;
    durable_name = none;
    deliver_policy = new_only;
    inactive_threshold = none;
    ack_wait = parse_int ack_wait.of_pub_sub;
    sets_explicit_ack = false;
  }
  consumer_config rpc subject = record {
    filter_subject = subject;
    durable_name = none;
    deliver_policy = new_only;
    inactive_threshold = none;
    ack_wait = parse_int ack_wait.of_rpc;
    sets_explicit_ack = false;
  }

-- What a subscription is, in the words of `SubscriptionOptions`.
pub record Delivery : Type 0 where
  pub durable : Bool
  pub in_queue_group : Bool
  pub sees_old_messages : Bool

abbrev pub documented : SubscriptionOptions → Delivery
documented stream_processor = record {
  durable = true;
  in_queue_group = true;
  sees_old_messages = true;
}
documented pub_sub = record { durable = false; in_queue_group = true; sees_old_messages = false }
documented rpc = record { durable = false; in_queue_group = false; sees_old_messages = false }

abbrev pub rusi_delivery : RusiOptions → Delivery
rusi_delivery o = record {
  durable = o.durable;
  in_queue_group = o.q_group;
  sees_old_messages = if o.deliver_new_messages_only then false else true;
}

abbrev pub nats_delivery : NatsOptions → Delivery
nats_delivery o = record {
  durable = elim o.durable_name [ none ↦ false | some name ↦ true ];
  in_queue_group = o.use_q_group;
  sees_old_messages = elim o.start_at [ deliver_all_available ↦ true | new_only ↦ false ];
}

module _ (parse_int : String → Option ℕ) (max ack : Settings String) (durable : String)
    (nats_ack : Settings (Option String)) where
  -- For each of the options, rusi and nats streaming are asked for the same kind of subscription,
  -- the documented one, whatever the settings say.
  pub options_lem :
      (opts : SubscriptionOptions)
      → (rusi_delivery (rusi_options parse_int max ack opts) ≡ documented opts)
        × (nats_delivery (nats_options parse_int durable max nats_ack opts) ≡ documented opts)
  unfolding rusi_options nats_options
  options_lem stream_processor = (refl, refl)
  options_lem pub_sub = (refl, refl)
  options_lem rpc = (refl, refl)

module _ {W T Raw : Type 0} (de_serialize : Raw → Completion T) (handler : T → Effect W (Unit {0}))
    (ack : Raw → Effect W (Unit {0})) where
  -- the message handler of a subscription: the message is acknowledged behind the handler
  unfoldable pub on_message : Bool → Raw → Effect W (Unit {0})
  on_message manual_acks msg = Effect.bind (Effect.of_completion (de_serialize msg)) (λ envelope.
      Effect.bind (handler envelope) (λ _. if manual_acks then ack msg else Effect.unit))
