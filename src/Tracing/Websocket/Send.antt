-- ===== src/Tracing/Websocket/Send.antt =====
-- The patched `send` of a socket.
use rocket_toolkit.Prelude.{ℕ, String, false, Option, none, some, List, [], ◌∷◌, ◌++◌, map}
use rocket_toolkit.Tracing.Spans.{
  Call, record_exception, set_error_status, end_span, messaging_destination, message_attribute,
  Ended, returned,
}
use rocket_toolkit.Tracing.Websocket.{Settings, client}
use rocket_toolkit.Tracing.Websocket.Methods.{Patched, message_of}

-- What the original `send` does: the calls of its callback, by the error they give, and its end.
pub record Sent (X : Type 0) : Type 0 where
  pub called_back : List (Option X)
  pub ended : Ended (Unit {0}) X

-- The arguments behind the first one, `O` being the options and `K` a callback.
pub data SendOptions (O K : Type 0) : Type 0 where
  callback_given : K → SendOptions O K
  options_given : O → SendOptions O K

module _ {X : Type 0} (text message : X → Option String) where
  abbrev pub error_told : X → Option String → List (Call X)
  error_told err (some s) = set_error_status (some s) ∷ []
  error_told err none = record_exception err ∷ set_error_status (message err) ∷ []

  -- what the callback of the patch does to the span; none is a falsy error
  abbrev pub callback_calls : Option X → List (Call X)
  callback_calls none = end_span ∷ []
  callback_calls (some err) = error_told err (text err) ++ end_span ∷ []

  abbrev pub all_callback_calls : List (Option X) → List (Call X)
  all_callback_calls [] = []
  all_callback_calls (err ∷ errors) = callback_calls err ++ all_callback_calls errors

module _ {X K : Type 0} where
  -- How a call of the patch's callback ends, which is how the caller's callback does; `calling` says how
  -- a callback ends on an error.
  abbrev pub calling_back :
      (calling : K → Option X → Ended (Unit {0}) X) → Option K → Option X → Ended (Unit {0}) X
  calling_back calling none err = returned tt
  calling_back calling (some callback) err = calling callback err

  -- a callback that is not there is not called
  abbrev pub forwarded : Option K → List (Option X) → List (K × Option X)
  forwarded none errors = []
  forwarded (some callback) errors = map (λ err. (callback, err)) errors

module _ {O K : Type 0} where
  abbrev pub callback_of : SendOptions O K → Option K → Option K
  callback_of (callback_given k) callback = some k
  callback_of (options_given o) callback = callback

  abbrev pub options_of : O → SendOptions O K → O
  options_of no_options (callback_given k) = no_options
  options_of no_options (options_given o) = o

module _ {Ctx X O K : Type 0} (text message : X → Option String) where
  -- The span, the calls of the caller's callback, and the end of the call. `original` gets the options,
  -- the context and the callback of the patch, which may throw in it; `no_options` is `{}`, and `hook_calls` is what the `sendHook` did to the span.
  unfoldable pub patch_send :
      (in_span : Ctx → Ctx)
      → (calling : K → Option X → Ended (Unit {0}) X) → List ℕ
      → Settings
      → (url : String) → (no_options : O)
      → (original : List ℕ → O → Ctx → (Option X → Ended (Unit {0}) X) → Sent X)
      → (hook_calls : List (Call X)) → List ℕ
      → SendOptions O K
      → Option K
      → Ctx
      → Patched Ctx (Unit {0}) X × List (K × Option X)
  unfolding message_of
  patch_send in_span calling dots config url no_options original hook_calls data' options callback
        ctx =
      let sent =
        original data' (options_of no_options options) (in_span ctx)
          (calling_back calling (callback_of options callback)) in
      (
        record {
          ended = sent.ended;
          spans =
              record {
                name = "WS send";
                kind = client;
                parent = ctx;
                attributes =
                    messaging_destination url
                    ∷ message_attribute (message_of dots config.max_message_length false data')
                    ∷ [];
                calls = hook_calls ++ all_callback_calls text message sent.called_back;
              }
              ∷ [];
        },
        forwarded (callback_of options callback) sent.called_back,
      )
