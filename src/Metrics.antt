-- ===== src/Metrics.antt =====
-- packages/metrics/src: metrics.ts and plugin.ts, as the samples that the instruments of the library are
-- given. A duration keeps the two times that it is between.
pub mod Diagnostics
use rocket_toolkit.Prelude.{
  ℕ, suc, String, ◌≡◌, refl, ap, Option, none, some, List, [], ◌∷◌, ◌++◌, str_eq, if◌then◌else◌,
  ◌==◌,
}

pub data OperationType : Type 0 where
  query mutation subscription : OperationType

pub record MetricsContext : Type 0 where
  pub operation_name : Option String
  pub operation_type : Option OperationType
  -- how many errors there are, also 0 where the field is missing
  pub errors : ℕ

-- the attributes of a sample; a missing or undefined one is none
pub record Labels : Type 0 where
  pub operation_name : Option String
  pub operation_type : Option OperationType

pub record Duration : Type 0 where
  pub from : ℕ
  pub to : ℕ

pub data Sample : Type 0 where
  request_started : Labels → Sample
  request_failed : Labels → Sample
  request_duration : Duration → Labels → (success : String) → Sample
  -- of the duration divided by 1000
  request_duration_seconds : Duration → Labels → (success : String) → Sample
  subscription_started : Labels → Sample

abbrev pub get_labels_from_context : MetricsContext → Labels
get_labels_from_context context = record {
  operation_name = context.operation_name;
  operation_type = context.operation_type;
}

abbrev pub record_request_started : MetricsContext → List Sample
record_request_started context =
    request_started (record { operation_name = context.operation_name; operation_type = none }) ∷ []

abbrev pub record_request_failed : MetricsContext → List Sample
record_request_failed context = request_failed (get_labels_from_context context) ∷ []

abbrev pub success_of : MetricsContext → String
success_of context = if context.errors == 0 then "true" else "false"

abbrev pub record_request_duration : Duration → MetricsContext → List Sample
record_request_duration duration context =
    request_duration duration (get_labels_from_context context) (success_of context)
    ∷ request_duration_seconds duration (get_labels_from_context context) (success_of context)
    ∷ []

-- `payload?.operationName || undefined`
abbrev pub given_name : Option String → Option String
given_name none = none
given_name (some name) = if str_eq name "" then none else some name

abbrev pub record_subscription_started : OperationType → Option String → List Sample
record_subscription_started type_of payload_name =
    subscription_started
      (record { operation_name = given_name payload_name; operation_type = some type_of })
    ∷ []

-- What the server tells the plugin of one request, behind its start.
pub data Told : Type 0 where
  did_encounter_errors : MetricsContext → Told
  will_send_response : (request_end_date : ℕ) → MetricsContext → Told

-- the listener of a request that has started at a time
abbrev pub listener : ℕ → Told → List Sample
listener request_start_date (did_encounter_errors context) = record_request_failed context
listener request_start_date (will_send_response request_end_date context) =
    record_request_duration (record { from = request_start_date; to = request_end_date }) context

unfoldable pub listened : ℕ → List Told → List Sample
listened request_start_date [] = []
listened request_start_date (event ∷ events) =
    listener request_start_date event ++ listened request_start_date events

-- `requestDidStart`, and its listener on what comes behind it
unfoldable pub request_did_start : ℕ → MetricsContext → List Told → List Sample
unfolding listened
request_did_start now context events = record_request_started context ++ listened now events

abbrev pub count_started : List Sample → ℕ
count_started [] = 0
count_started (request_started labels ∷ samples) = suc (count_started samples)
count_started (_ ∷ samples) = count_started samples

listened-count_started : (now : ℕ) (events : List Told) → count_started (listened now events) ≡ 0
unfolding listened
listened-count_started now [] = refl
listened-count_started now (did_encounter_errors context ∷ events) =
    listened-count_started now events
listened-count_started now (will_send_response end context ∷ events) =
    listened-count_started now events

-- A request is counted once as started, whatever the server tells of it.
pub request_did_start-count_started :
    (now : ℕ) (context : MetricsContext) (events : List Told)
    → count_started (request_did_start now context events) ≡ 1
unfolding request_did_start
request_did_start-count_started now context events = ap suc (listened-count_started now events)
