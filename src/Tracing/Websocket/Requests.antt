-- ===== src/Tracing/Websocket/Requests.antt =====
-- The patched `emit` of an HTTP server for an upgrade, and the patched `handleUpgrade` of a websocket
-- server, which share the span of a request through `_requestSpans`.
use rocket_toolkit.Prelude.{
  ℕ, ◌≡◌, refl, String, Bool, true, false, Option, none, some, List, [], ◌∷◌, ◌++◌, if◌then◌else◌,
}
use rocket_toolkit.Tracing.Spans.{
  Call, record_exception, set_error_status, end_span, set_attributes, http_status_code, Ended,
  returned, threw, Traced, value, throws, end_span_of, count_ends,
}

-- `Key` are the requests, and `SpanId` the spans. `told` is what was done to each span, in
-- order.
pub record Requests (Key SpanId X : Type 0) : Type 0 where
  pub request_spans : Key → Option SpanId
  pub told : SpanId → List (Call X)

-- What a listener does, with all that it calls.
abbrev pub Action : (S A X : Type 0) → Type 0
Action S A X = S → Ended A X × S

module _ {Key SpanId X : Type 0} (same_key : Key → Key → Bool)
    (same_id : SpanId → SpanId → Bool) where
  -- `_requestSpans.set` and `_requestSpans.delete`
  abbrev pub set_span : Key → Option SpanId → Requests Key SpanId X → Requests Key SpanId X
  set_span key span r = record r {
    request_spans = λ k. if same_key key k then span else r.request_spans k;
  }

  abbrev pub tell : SpanId → List (Call X) → Requests Key SpanId X → Requests Key SpanId X
  tell span calls r = record r {
    told = λ s. if same_id span s then r.told s ++ calls else r.told s;
  }

  abbrev pub tell_parent :
      Option SpanId → List (Call X) → Requests Key SpanId X → Requests Key SpanId X
  tell_parent none calls r = r
  tell_parent (some span) calls r = tell span calls r

  module _ (message : X → Option String) where
    -- the `catch` block
    abbrev pub emit_failed :
        {A : Type 0}
        → Key
        → SpanId
        → Ended A X × Requests Key SpanId X
        → Ended A X × Requests Key SpanId X
    emit_failed request span (returned a, r) = (returned a, r)
    emit_failed request span (threw e, r) = (
      threw e,
      set_span request none
          (tell span (record_exception e ∷ set_error_status (message e) ∷ end_span ∷ []) r),
    )

    -- `event` is none for any other event than an upgrade, and else its request with the span that is
    -- started for it.
    unfoldable pub patch_incoming_request_emit :
        {A : Type 0}
        → Action (Requests Key SpanId X) A X
        → Option (Key × SpanId)
        → Action (Requests Key SpanId X) A X
    patch_incoming_request_emit original none r = original r
    patch_incoming_request_emit original (some (request, span)) r =
        emit_failed request span (original (set_span request (some span) r))

  abbrev pub upgraded_calls : List (Call X)
  upgraded_calls = set_attributes (http_status_code 101 ∷ []) ∷ end_span ∷ []

  -- the callback that the patch gives to the original; `parent` is the span of the request
  unfoldable pub on_upgraded :
      {A : Type 0}
      → Option SpanId
      → Key
      → Action (Requests Key SpanId X) A X
      → Action (Requests Key SpanId X) A X
  on_upgraded parent request callback r =
      callback (set_span request none (tell_parent parent upgraded_calls r))

  abbrev pub traced_of : {A : Type 0} → Ended A X → Traced A X
  traced_of (returned a) = value a
  traced_of (threw e) = throws e

  module _ (truthy : X → Bool) (text message : X → Option String) where
    -- `endSpan` around the original
    abbrev pub span_ended :
        {A : Type 0}
        → SpanId
        → Ended A X × Requests Key SpanId X
        → Ended A X × Requests Key SpanId X
    span_ended span (ended, r) =
        let (result, calls) = end_span_of truthy text message (traced_of ended) in
        (result, tell span calls r)

    -- `original` takes the callback, `span` is the one that is started for the upgrade, and `hook_calls`
    -- is what the `handleUpgradeHook` did to it.
    unfoldable pub patch_server_handle_upgrade :
        {A : Type 0}
        → (Action (Requests Key SpanId X) A X → Action (Requests Key SpanId X) A X)
        → Key
        → SpanId
        → (hook_calls : List (Call X)) → Action (Requests Key SpanId X) A X
        → Action (Requests Key SpanId X) A X
    unfolding on_upgraded
    patch_server_handle_upgrade original request span hook_calls callback r =
        span_ended span (
          original (on_upgraded (r.request_spans request) request callback)
            (tell span hook_calls r))

-- What the listeners of an upgrade come to: one call of `handleUpgrade` that completes the upgrade, and
-- whose callback then ends in some way; or no upgrade.
pub data Listener (A X : Type 0) : Type 0 where
  completes : Ended A X → Listener A X
  refuses : Ended A X → Listener A X

abbrev pub end_of : {A X : Type 0} → Listener A X → Ended A X
end_of (completes ended) = ended
end_of (refuses ended) = ended

abbrev pub ends_expected : {A X : Type 0} → Listener A X → ℕ
ends_expected (completes (returned a)) = 1
ends_expected (completes (threw e)) = 2
ends_expected (refuses (returned a)) = 0
ends_expected (refuses (threw e)) = 1

module _ {Key SpanId X A : Type 0} (same_key : Key → Key → Bool) (same_id : SpanId → SpanId → Bool)
    (truthy : X → Bool) (text message : X → Option String) (request : Key)
    (span upgrade_span : SpanId) (hook_calls : List (Call X)) where
  abbrev pub action_of : Listener A X → Action (Requests Key SpanId X) A X
  action_of (completes ended) =
      patch_server_handle_upgrade same_key same_id truthy text message (λ callback. callback)
        request upgrade_span hook_calls (λ r. (ended, r))
  action_of (refuses ended) = λ r. (ended, r)

  -- The patched `emit` of an upgrade ends as its listeners do. The span of the request is ended once when
  -- the upgrade is completed, and once when a listener throws instead; but when the callback of a
  -- completed upgrade throws it is ended twice, and when the listeners return without an upgrade it is
  -- never ended. Requests and spans are told apart, and the span is new.
  pub patch_incoming_request_emit_lem :
      (listener : Listener A X) (r : Requests Key SpanId X)
      → same_key request request ≡ true
      → same_id span span ≡ true
      → same_id upgrade_span span ≡ false
      → r.told span ≡ []
      → let (ended, after) =
          patch_incoming_request_emit same_key same_id message
            (action_of listener)
            (some (request, span))
            r in
        (ended ≡ end_of listener) × (count_ends (after.told span) ≡ ends_expected listener)
  unfolding patch_incoming_request_emit patch_server_handle_upgrade on_upgraded end_span_of
  patch_incoming_request_emit_lem (completes (returned a)) r k s u fresh =
      (refl, rw (k, s, u, fresh) refl)
  patch_incoming_request_emit_lem (completes (threw e)) r k s u fresh =
      (refl, rw (k, s, u, fresh) refl)
  patch_incoming_request_emit_lem (refuses (returned a)) r k s u fresh = (refl, rw fresh refl)
  patch_incoming_request_emit_lem (refuses (threw e)) r k s u fresh = (refl, rw (s, fresh) refl)
