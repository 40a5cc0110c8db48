-- ===== src/MessageBus/Envelope.antt =====
-- packages/message-bus/src/envelope.ts and topicRegistry.ts. A header value is a string or undefined;
-- reading a header that is not there gives undefined.
use Prim.Native.String.{◌++◌ as concat}
use text.Mathlib.TextLemmas.{append_cancel_left}
use rocket_toolkit.Prelude.{String, ◌≡◌, refl, Option, none, some, str_eq, if◌then◌else◌}

abbrev pub Headers : Type 0
Headers = String → Option String

-- the fields of the context that are read
pub record Context : Type 0 where
  pub correlation_id : Option String
  pub tenant_id : Option String

pub record Envelope (T : Type 0) : Type 0 where
  pub payload : T
  pub headers : Headers

abbrev pub correlation_header : String
correlation_header = "nbb-correlationId"

abbrev pub source_header : String
source_header = "nbb-source"

abbrev pub tenant_header : String
tenant_header = "nbb-tenantId"

-- JavaScript's `a || b`, where undefined and the empty string are falsy
abbrev pub or_else : Option String → String → String
or_else none b = b
or_else (some a) b = if str_eq a "" then b else a

-- JavaScript's `ctx && ctx.field`
abbrev pub of_context : (Context → Option String) → Option Context → Option String
of_context field none = none
of_context field (some ctx) = field ctx

abbrev pub platform_headers : Option String → Option String → Option String → Headers
platform_headers correlation_id tenant_id messaging_source name =
    if str_eq name correlation_header
    then correlation_id
    else if str_eq name tenant_header
    then tenant_id
    else if str_eq name source_header
    then messaging_source
    else none

abbrev pub customized : Option (Headers → Headers) → Headers → Headers
customized none headers = headers
customized (some envelope_customizer) headers = envelope_customizer headers

-- `source` is `process.env.Messaging__Source`, and `v4` is the fresh identifier.
module _ (source : Option String) (v4 : String) where
  unfoldable pub envelope :
      {T : Type 0} → T → Option Context → Option (Headers → Headers) → Envelope T
  envelope payload ctx envelope_customizer = record {
    payload = payload;
    headers = customized envelope_customizer (
        platform_headers (some (or_else (of_context (λ (c : Context). c.correlation_id) ctx) v4))
          (of_context (λ (c : Context). c.tenant_id) ctx) (some (or_else source "")));
  }

module _ {T : Type 0} where
  abbrev pub get_correlation_id : Envelope T → Option String
  get_correlation_id msg = msg.headers correlation_header

  abbrev pub get_tenant_id : Envelope T → Option String
  get_tenant_id msg = msg.headers tenant_header

  abbrev pub get_source : Envelope T → Option String
  get_source msg = msg.headers source_header

module _ (source : Option String) (v4 : String) {T : Type 0} (payload : T) (c : Context) where
  -- An envelope made without a customizer is read back by the accessors: the correlation id of the
  -- context if it has one that is not empty and the fresh identifier otherwise, the tenant of the
  -- context, and the source, which is empty when it is not set.
  pub envelope_lem :
      (get_correlation_id (envelope source v4 payload (some c) none)
        ≡ some (or_else c.correlation_id v4))
      × (get_tenant_id (envelope source v4 payload (some c) none) ≡ c.tenant_id)
      × (get_source (envelope source v4 payload (some c) none) ≡ some (or_else source ""))
      × ((envelope source v4 payload (some c) none).payload ≡ payload)
  unfolding envelope
  envelope_lem = (refl, refl, refl, refl)

-- `env` is `Messaging__Env`, and `prefix` is `Messaging__TopicPrefix`.
abbrev pub topic_prefix : (env prefix : Option String) → String
topic_prefix none prefix = or_else prefix ""
topic_prefix (some env) prefix = if str_eq env "" then or_else prefix "" else concat env "."

unfoldable pub get_full_topic_name : (env prefix : Option String) → String → String
get_full_topic_name env prefix topic = concat (topic_prefix env prefix) topic

-- Two topics with one full name are one topic.
pub get_full_topic_name-injective :
    (env prefix : Option String) (a b : String)
    → get_full_topic_name env prefix a ≡ get_full_topic_name env prefix b
    → a ≡ b
unfolding get_full_topic_name
get_full_topic_name-injective env prefix a b e = append_cancel_left (topic_prefix env prefix) a b e
