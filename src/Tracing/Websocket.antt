-- ===== src/Tracing/Websocket.antt =====
-- packages/opentelemetry-instrumentation-ws/src/instrumentation.ts: the configuration, and the patched
-- constructor with the spans that follow the life of a socket.
pub mod Life
pub mod Methods
pub mod Send
pub mod Requests
pub mod Patching
use rocket_toolkit.Prelude.{
  ℕ, String, Bool, true, false, not, ◌&&◌, Option, none, some, List, [], ◌∷◌, ◌++◌, if◌then◌else◌,
}
use rocket_toolkit.Tracing.Spans.{
  Call, record_exception, set_error_status, end_span, set_attributes, Attribute, messaging_system,
  messaging_destination_kind, messaging_operation, messaging_destination, messaging_protocol,
  close_code, close_reason, close_was_clean,
}

-- What is written in an object for a field: none where the field is not there, and `some none` where it
-- is there and undefined.
abbrev pub Given : Type 0 → Type 0
Given V = Option (Option V)

-- `WSInstrumentationConfig`, but for the hooks, which have no default
pub record Config : Type 0 where
  pub generate_receive_spans : Given Bool
  pub generate_send_spans : Given Bool
  pub max_message_length : Given ℕ

-- `{ ...DEFAULT_CONFIG, ...config }`: what is there takes the place of the default, undefined too
abbrev pub spread : {V : Type 0} → V → Given V → Option V
spread default none = some default
spread default (some v) = v

pub record Settings : Type 0 where
  pub generate_receive_spans : Option Bool
  pub generate_send_spans : Option Bool
  pub max_message_length : Option ℕ

unfoldable pub set_config : Config → Settings
set_config config = record {
  generate_receive_spans = spread true config.generate_receive_spans;
  generate_send_spans = spread true config.generate_send_spans;
  max_message_length = spread 1022 config.max_message_length;
}

pub data SpanKind : Type 0 where
  client server internal : SpanKind

-- what a socket emits
pub data Emission (X : Type 0) : Type 0 where
  opens : Emission X
  errors : X → Emission X
  closes : (code : ℕ) → (reason : String) → (was_clean : Bool) → Emission X
  emits_other : Emission X

-- The connecting span of a client, with the listeners of the constructor that belong to it.
pub record Connecting (X : Type 0) : Type 0 where
  pub on_error : Bool
  pub on_open : Bool
  pub calls : List (Call X)

-- The open span, none before it is started, with the other listeners.
pub record Open (X : Type 0) : Type 0 where
  pub on_open : Bool
  pub on_error : Bool
  pub on_close : Bool
  pub span : Option (SpanKind × List (Call X))

pub record Socket (X : Type 0) : Type 0 where
  -- none for a socket that a server made, with no address
  pub connecting : Option (Connecting X)
  pub opened : Open X

abbrev pub connect_attributes : List Attribute
connect_attributes =
    messaging_system "ws"
    ∷ messaging_destination_kind "websocket"
    ∷ messaging_operation "connect"
    ∷ []

abbrev pub open_attributes : List Attribute
open_attributes = messaging_system "ws" ∷ messaging_destination_kind "websocket" ∷ []

module _ {X : Type 0} where
  abbrev pub connecting_of : Option String → String → String → Option (Connecting X)
  connecting_of none url protocol = none
  connecting_of (some address) url protocol = some (record {
    on_error = true;
    on_open = true;
    calls = set_attributes (messaging_destination url ∷ messaging_protocol protocol ∷ []) ∷ [];
  })

  -- the constructor, where `super` made a socket with this url and protocol
  unfoldable pub new_socket : Option String → String → String → Socket X
  new_socket address url protocol = record {
    connecting = connecting_of address url protocol;
    opened = record { on_open = true; on_error = true; on_close = true; span = none };
  }

  abbrev pub kind_of : Option (Connecting X) → SpanKind
  kind_of none = server
  kind_of (some c) = client

  abbrev pub told :
      Option (SpanKind × List (Call X)) → List (Call X) → Option (SpanKind × List (Call X))
  told none calls = none
  told (some (kind, before)) calls = some (kind, before ++ calls)

-- `removes` is whether `removeEventListener` of the library removes a listener that `once` added; the
-- documentation of `ws` says that it removes only those that `addEventListener` added, so it is false
-- there. `message` reads the message of an error.
module _ {X : Type 0} (removes : Bool) (message : X → Option String) where
  abbrev pub error_calls : X → List (Call X)
  error_calls e = record_exception e ∷ set_error_status (message e) ∷ []

  unfoldable pub emit_connecting : Emission X → Connecting X → Connecting X
  emit_connecting opens c =
      if c.on_open
      then record {
        on_error = c.on_error && not removes;
        on_open = false;
        calls = c.calls ++ end_span ∷ [];
      }
      else c
  emit_connecting (errors e) c =
      if c.on_error
      then record {
        on_error = false;
        on_open = c.on_open;
        calls = c.calls ++ (error_calls e ++ end_span ∷ []);
      }
      else c
  emit_connecting (closes code reason was_clean) c = c
  emit_connecting emits_other c = c

  unfoldable pub emit_open : SpanKind → Emission X → Open X → Open X
  emit_open kind opens o =
      if o.on_open then record o { on_open = false; span = some (kind, []) } else o
  emit_open kind (errors e) o =
      if o.on_error then record o { on_error = false; span = told o.span (error_calls e) } else o
  emit_open kind (closes code reason was_clean) o =
      if o.on_close
      then record o {
        on_close = false;
        span = told o.span (
            set_attributes (close_code code ∷ close_reason reason ∷ close_was_clean was_clean ∷ [])
            ∷ end_span
            ∷ []);
      }
      else o
  emit_open kind emits_other o = o

  abbrev pub emit_connecting_of : Emission X → Option (Connecting X) → Option (Connecting X)
  emit_connecting_of e none = none
  emit_connecting_of e (some c) = some (emit_connecting e c)

  unfoldable pub emit_socket : Emission X → Socket X → Socket X
  unfolding emit_connecting emit_open
  emit_socket e s = record {
    connecting = emit_connecting_of e s.connecting;
    opened = emit_open (kind_of s.connecting) e s.opened;
  }

  unfoldable pub emit_all : List (Emission X) → Socket X → Socket X
  unfolding emit_socket
  emit_all [] s = s
  emit_all (e ∷ events) s = emit_all events (emit_socket e s)
