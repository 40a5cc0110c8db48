-- ===== src/Tracing/Websocket/Methods.antt =====
-- The patched `emit` and `close` of a socket. `Ctx` is the active context, and a method under
-- the patch is what it does in the context that it is called in.
use rocket_toolkit.Prelude.{
  ℕ, zero, suc, ◌+◌, ◌≤◌, ◌≡◌, refl, ◌∙◌, String, Bool, true, false, not, ◌&&◌, Bool-cases, inl,
  inr, Option, none, some, List, [], ◌∷◌, ◌++◌, length, if◌then◌else◌, arith,
}
use rocket_toolkit.Tracing.Spans.{
  Call, Attribute, messaging_destination, message_attribute, Ended, Traced, end_span_of, result_of,
  limit_length, count_ends, count_ends-append, end_span_of_lem, length-limit_length,
}
use rocket_toolkit.Tracing.Websocket.{Settings, SpanKind, client, internal}

-- A span that was started, and the calls on it; the parent is the context that it was started in.
pub record Span (Ctx X : Type 0) : Type 0 where
  pub name : String
  pub kind : SpanKind
  pub parent : Ctx
  pub attributes : List Attribute
  pub calls : List (Call X)

-- How a call of a patched method ends, and the spans that it started.
pub record Patched (Ctx A X : Type 0) : Type 0 where
  pub ended : Ended A X
  pub spans : List (Span Ctx X)

abbrev pub is_on : Option Bool → Bool
is_on none = false
is_on (some b) = b

-- a value of the setting `maxMessageLength` other than 0: undefined is one too
abbrev pub keeps_message : Option ℕ → Bool
keeps_message none = true
keeps_message (some zero) = false
keeps_message (some (suc n)) = true

-- `limitLength` with undefined for the length gives the text as it is
unfoldable pub limited : (dots : List ℕ) → Option ℕ → List ℕ → List ℕ
limited dots none str = str
limited dots (some n) str = limit_length dots str n

-- The attribute of a message, if it is one that is shown.
unfoldable pub message_of : (dots : List ℕ) → Option ℕ → Bool → List ℕ → Option (List ℕ)
unfolding limited
message_of dots max_length is_binary text =
    if keeps_message max_length && not is_binary then some (limited dots max_length text) else none

abbrev pub shown_length : Option (List ℕ) → ℕ
shown_length none = 0
shown_length (some text) = length text

-- With `maxMessageLength` set to a number, no message attribute is longer than that number and the
-- dots, whatever the message; with 0 there is none, and a binary message has none.
pub message_of_bounded :
    (dots : List ℕ) (max_length : ℕ) (is_binary : Bool) (text : List ℕ)
    → (shown_length (message_of dots (some max_length) is_binary text) ≤ max_length + length dots)
      × (message_of dots (some 0) is_binary text ≡ none)
      × (message_of dots (some max_length) true text ≡ none)
unfolding message_of limited
message_of_bounded dots zero is_binary text = (omega arith, refl, refl)
message_of_bounded dots (suc n) true text = (omega arith, refl, refl)
message_of_bounded dots (suc n) false text =
    ((length-limit_length dots text (suc n) (omega arith)).0, refl, refl)

module _ {Ctx X : Type 0} where
  -- how often spans were ended, all together
  abbrev pub ends_of : List (Span Ctx X) → ℕ
  ends_of [] = 0
  ends_of (span ∷ spans) = count_ends span.calls + ends_of spans

module _ {Ctx : Type 0} where
  abbrev pub receives : Bool → Option (Ctx → Ctx) → Bool
  receives is_message none = false
  receives is_message (some open_context) = is_message

  -- the context in which the listeners of a message run
  abbrev pub listener_context : (Ctx → Ctx) → Settings → Bool → Option (Ctx → Ctx) → Ctx → Ctx
  listener_context in_span config false open_context ctx = ctx
  listener_context in_span config true none ctx = ctx
  listener_context in_span config true (some open_context) ctx =
      if is_on config.generate_receive_spans then in_span (open_context ctx) else open_context ctx

-- `open_context` makes the open span the active one of a context, and `in_span` the span that the method
-- starts.
module _ {Ctx A X : Type 0} (truthy : X → Bool) (text message : X → Option String) where
  abbrev pub spanned :
      String
      → SpanKind
      → Ctx
      → List Attribute
      → (hook_calls : List (Call X)) → Traced A X
      → Patched Ctx A X
  spanned name kind parent attributes hook_calls traced =
      let (ended, calls) = end_span_of truthy text message traced in
      record {
        ended = ended;
        spans =
            record {
              name = name;
              kind = kind;
              parent = parent;
              attributes = attributes;
              calls = hook_calls ++ calls;
            }
            ∷ [];
      }

  abbrev pub unspanned : Traced A X → Patched Ctx A X
  unspanned traced = record { ended = result_of truthy text message traced; spans = [] }

  abbrev pub receive_in :
      (in_span : Ctx → Ctx)
      → List ℕ
      → Settings
      → (is_binary : Bool) → (buffer : List ℕ) → (original : Ctx → Traced A X) → Ctx
      → Patched Ctx A X
  receive_in in_span dots config is_binary buffer original ctx =
      if is_on config.generate_receive_spans
      then spanned "WS receive" internal ctx
          (message_attribute (message_of dots config.max_message_length is_binary buffer) ∷ []) []
          (original (in_span ctx))
      else unspanned (original ctx)

  -- `open_context` is none where there is no open span
  unfoldable pub patch_emit :
      (in_span : Ctx → Ctx)
      → List ℕ
      → Settings
      → (is_message : Bool) → (open_context : Option (Ctx → Ctx)) → (is_binary : Bool)
      → (buffer : List ℕ) → (original : Ctx → Traced A X) → Ctx
      → Patched Ctx A X
  unfolding message_of
  patch_emit in_span dots config false open_context is_binary buffer original ctx =
      unspanned (original ctx)
  patch_emit in_span dots config true none is_binary buffer original ctx = unspanned (original ctx)
  patch_emit in_span dots config true (some open_context) is_binary buffer original ctx =
      receive_in in_span dots config is_binary buffer original (open_context ctx)

  -- The span of a close stands under the context in which the socket was made. `hook_calls` is what the
  -- `closeHook` did to the span, if there is one, by the time that it returned or threw: what it throws
  -- is caught.
  unfoldable pub patch_close :
      (in_span : Ctx → Ctx)
      → (url : String) → (parent_context : Ctx) → (hook_calls : List (Call X))
      → (original : Ctx → Traced A X) → Ctx
      → Patched Ctx A X
  patch_close in_span url parent_context hook_calls original ctx =
      spanned "WS close" client parent_context (messaging_destination url ∷ []) hook_calls
        (original (in_span ctx))

  spanned_lem :
      (name : String) (kind : SpanKind) (parent : Ctx) (attributes : List Attribute)
      (hook_calls : List (Call X)) (traced : Traced A X)
      → let p = spanned name kind parent attributes hook_calls traced in
        (p.ended ≡ result_of truthy text message traced)
        × (ends_of p.spans ≡ count_ends hook_calls + 1)
  spanned_lem name kind parent attributes hook_calls traced =
      let (same, once) = end_span_of_lem truthy text message traced in
      (
        same,
        omega
            (arith, count_ends-append hook_calls (end_span_of truthy text message traced).1, once),
      )

  -- The patched `close` ends just as the original does in the context of the close span, which it ends
  -- exactly once if the hook does not end it.
  pub patch_close_lem :
      (in_span : Ctx → Ctx) (url : String) (parent_context : Ctx) (hook_calls : List (Call X))
      (original : Ctx → Traced A X) (ctx : Ctx)
      → let p = patch_close in_span url parent_context hook_calls original ctx in
        (p.ended ≡ result_of truthy text message (original (in_span ctx)))
        × (ends_of p.spans ≡ count_ends hook_calls + 1)
  unfolding patch_close
  patch_close_lem in_span url parent_context hook_calls original ctx =
      spanned_lem "WS close" client parent_context (messaging_destination url ∷ []) hook_calls
        (original (in_span ctx))

  -- The patched `emit` ends just as the original does in its context: that of the open span for a
  -- message on an open socket, with the receive span active when these are on, and otherwise the
  -- context of the call. It starts one span, where it is for a message on an open
  -- socket and receive spans are on, and otherwise none, and ends each exactly once.
  pub patch_emit_lem :
      (in_span : Ctx → Ctx) (dots : List ℕ) (config : Settings) (is_message : Bool)
      (open_context : Option (Ctx → Ctx)) (is_binary : Bool) (buffer : List ℕ)
      (original : Ctx → Traced A X) (ctx : Ctx)
      → let p =
          patch_emit in_span dots config is_message open_context is_binary buffer original ctx in
        (p.ended
          ≡ result_of truthy text message
              (original (listener_context in_span config is_message open_context ctx)))
        × (ends_of p.spans ≡ length p.spans)
        × (length p.spans ≡ (
            if receives is_message open_context && is_on config.generate_receive_spans
            then 1
            else 0))
  unfolding patch_emit
  patch_emit_lem in_span dots config false none is_binary buffer original ctx = (refl, refl, refl)
  patch_emit_lem in_span dots config false (some open_context) is_binary buffer original ctx =
      (refl, refl, refl)
  patch_emit_lem in_span dots config true none is_binary buffer original ctx = (refl, refl, refl)
  patch_emit_lem in_span dots config true (some open_context) is_binary buffer original ctx =
      elim (Bool-cases (is_on config.generate_receive_spans)) [
        | inl e ↦
            let (same, once) =
              spanned_lem "WS receive" internal (open_context ctx) [] []
                (original (in_span (open_context ctx))) in
            rw e (same, once ∙ omega arith, refl)
        | inr e ↦ rw e (refl, refl, refl)
      ]
