-- ===== src/Tracing/Spans.antt =====
-- `endSpan` and `limitLength` of packages/opentelemetry-instrumentation-ws/src/utils.ts, and
-- `traceError` and `traceErrors` of packages/opentracing/src/tracingUtils.ts. What is done to a span
-- is the list of the calls on it.
use rocket_toolkit.Prelude.{
  ℕ, zero, suc, ◌+◌, ◌≤◌, ◌<◌, ◌≡◌, refl, String, Bool, true, false, ◌&&◌, Bool-cases, inl, inr,
  Option, none, some, List, [], ◌∷◌, ◌++◌, length, length-append, ltb, if◌then◌else◌, arith,
}

-- What is written on a span beside its status; a text is its code units, and a message that is left
-- out is none.
pub data Attribute : Type 0 where
  messaging_system messaging_destination_kind messaging_operation : String → Attribute
  messaging_destination messaging_protocol : String → Attribute
  message_attribute : Option (List ℕ) → Attribute
  close_code : ℕ → Attribute
  close_reason : String → Attribute
  close_was_clean : Bool → Attribute
  http_status_code : ℕ → Attribute
  net_host_ip net_host_port net_peer_ip net_peer_port : Option String → Attribute
  component : String → Attribute

-- `X` is a value that is thrown
pub data Call (X : Type 0) : Type 0 where
  record_exception : X → Call X
  set_error_status : Option String → Call X
  end_span : Call X
  set_sampling_priority : Call X
  set_error_tag : Call X
  log_error : X → Call X
  set_attributes : List Attribute → Call X

pub data Ended (A X : Type 0) : Type 0 where
  returned : A → Ended A X
  threw : X → Ended A X

-- what `traced` gives: it throws, or returns a value, or a promise that settles later
pub data Traced (A X : Type 0) : Type 0 where
  throws : X → Traced A X
  value : A → Traced A X
  promise : Ended A X → Traced A X

module _ {X : Type 0} where
  abbrev pub count_ends : List (Call X) → ℕ
  count_ends [] = 0
  count_ends (end_span ∷ calls) = suc (count_ends calls)
  count_ends (record_exception err ∷ calls) = count_ends calls
  count_ends (set_error_status m ∷ calls) = count_ends calls
  count_ends (set_sampling_priority ∷ calls) = count_ends calls
  count_ends (set_error_tag ∷ calls) = count_ends calls
  count_ends (log_error err ∷ calls) = count_ends calls
  count_ends (set_attributes a ∷ calls) = count_ends calls

  pub count_ends-append :
      (before after : List (Call X))
      → count_ends (before ++ after) ≡ count_ends before + count_ends after
  count_ends-append [] after = omega arith
  count_ends-append (end_span ∷ before) after = omega (arith, count_ends-append before after)
  count_ends-append (record_exception err ∷ before) after = count_ends-append before after
  count_ends-append (set_error_status m ∷ before) after = count_ends-append before after
  count_ends-append (set_sampling_priority ∷ before) after = count_ends-append before after
  count_ends-append (set_error_tag ∷ before) after = count_ends-append before after
  count_ends-append (log_error err ∷ before) after = count_ends-append before after
  count_ends-append (set_attributes a ∷ before) after = count_ends-append before after

module _ {X : Type 0} (truthy : X → Bool) (text message : X → Option String) where
  -- the handler of the rejection; `text` is the error when it is a string
  abbrev pub rejection_calls : X → Option String → List (Call X)
  rejection_calls err (some s) = set_error_status (some s) ∷ []
  rejection_calls err none = record_exception err ∷ set_error_status (message err) ∷ []

  abbrev pub on_rejected : X → List (Call X)
  on_rejected err = if truthy err then rejection_calls err (text err) else []

  rejected_once : (err : X) → count_ends (on_rejected err ++ end_span ∷ []) ≡ 1
  rejected_once err = elim (Bool-cases (truthy err)) [
    | inl t ↦ rw t (told (text err))
    | inr f ↦ rw f
  ]
    where
      told : (s : Option String) → count_ends (rejection_calls err s ++ end_span ∷ []) ≡ 1
      told none = refl
      told (some s) = refl

module _ {A X : Type 0} (truthy : X → Bool) (text message : X → Option String) where
  -- `endSpan`, with what the span is told by the time that it is settled
  unfoldable pub end_span_of : Traced A X → Ended A X × List (Call X)
  end_span_of (throws err) =
      (threw err, record_exception err ∷ set_error_status (message err) ∷ end_span ∷ [])
  end_span_of (value a) = (returned a, end_span ∷ [])
  end_span_of (promise (returned a)) = (returned a, end_span ∷ [])
  end_span_of (promise (threw err)) =
      (threw err, on_rejected truthy text message err ++ end_span ∷ [])

  abbrev pub result_of : Traced A X → Ended A X
  result_of (throws err) = threw err
  result_of (value a) = returned a
  result_of (promise ended) = ended

  -- Whatever the traced function does, its result or its error comes out unchanged, and the span is
  -- ended exactly once.
  pub end_span_of_lem :
      (traced : Traced A X)
      → ((end_span_of traced).0 ≡ result_of traced) × (count_ends (end_span_of traced).1 ≡ 1)
  unfolding end_span_of
  end_span_of_lem (throws err) = (refl, refl)
  end_span_of_lem (value a) = (refl, refl)
  end_span_of_lem (promise (returned a)) = (refl, refl)
  end_span_of_lem (promise (threw err)) = (refl, rejected_once truthy text message err)

module _ {C : Type 0} (dots : List C) where
  abbrev pub substring : ℕ → List C → List C
  substring zero str = []
  substring (suc n) [] = []
  substring (suc n) (c ∷ str) = c ∷ substring n str

  -- a string is its code units; `dots` are three of them
  unfoldable pub limit_length : List C → ℕ → List C
  limit_length str max_length =
      if ltb 0 max_length && ltb max_length (length str)
      then substring max_length str ++ dots
      else str

  length-substring : (n : ℕ) (str : List C) → length (substring n str) ≤ n
  length-substring zero str = omega arith
  length-substring (suc n) [] = omega arith
  length-substring (suc n) (c ∷ str) = omega (arith, length-substring n str)

  -- A text that is limited to a positive length has at most that length and the dots, however long it
  -- was; and a text within the length is not changed.
  pub length-limit_length :
      (str : List C) (max_length : ℕ)
      → 0 < max_length
      → (length (limit_length str max_length) ≤ max_length + length dots)
        × (length str ≤ max_length → limit_length str max_length ≡ str)
  unfolding limit_length
  length-limit_length str max_length positive = (
    elim (Bool-cases (ltb max_length (length str))) [
      | inl over ↦
          rw (positive_test, over)
            (omega (
              arith,
              length-append (substring max_length str) dots,
              length-substring max_length str,
            ))
      | inr within ↦ rw (positive_test, within) (omega (arith, not_over within))
    ],
    λ h. rw (positive_test, is_within h) refl,
  )
    where
      positive_test : ltb 0 max_length ≡ true
      positive_test = ground arith

      not_over : ltb max_length (length str) ≡ false → length str ≤ max_length
      not_over e = ground arith

      is_within : length str ≤ max_length → ltb max_length (length str) ≡ false
      is_within h = ground arith

module _ {X : Type 0} where
  abbrev pub error_tags : List (Call X)
  error_tags = set_sampling_priority ∷ set_error_tag ∷ []

  -- none is a falsy error
  unfoldable pub trace_error : Option X → List (Call X)
  trace_error none = []
  trace_error (some err) = error_tags ++ log_error err ∷ []

  abbrev pub log_errors : List X → List (Call X)
  log_errors [] = []
  log_errors (err ∷ errors) = log_error err ∷ log_errors errors

  -- none is not an array
  unfoldable pub trace_errors : Option (List X) → List (Call X)
  trace_errors none = []
  trace_errors (some errors) = error_tags ++ log_errors errors
