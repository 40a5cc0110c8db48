-- ===== src/Tracing/Logs.antt =====
-- The pino streams that put log lines on the active span:
-- packages/pino-opentracing/src/opentracingTransport.ts and
-- packages/pino-opentelemetry/src/openTelemetryTracingTransport.ts. `J` is a JSON value.
use rocket_toolkit.Prelude.{
  ℕ, suc, ◌+◌, ◌≡◌, refl, sym, ap, ◌∙◌, String, Bool, true, false, not, ◌&&◌, ◌||◌, Bool-cases, inl,
  inr, Option, none, some, List, [], ◌∷◌, ◌++◌, append-nil, append_assoc, ltb, if◌then◌else◌, arith,
}

-- The fields of an error that are read: a falsy one is none.
pub record ErrorFields (J : Type 0) : Type 0 where
  pub code : Option String
  pub name : Option String
  pub kind : Option String
  pub message : Option String
  pub stack : Option String
  pub whole : J

-- A line that was parsed. `rest` is what it holds beside the fields that the transports know.
pub record LogLine (J : Type 0) : Type 0 where
  pub level : ℕ
  pub time : ℕ
  pub msg : Option String
  pub err : Option (ErrorFields J)
  pub rest : List (String × J)

-- `pino.levels.values['error']`
abbrev pub error_level : ℕ
error_level = 50

abbrev pub is_error : {J : Type 0} → LogLine J → Bool
is_error log = not (ltb log.level error_level)

-- what an opentracing span is given with a line
pub record TracingLog (J : Type 0) : Type 0 where
  pub event : Option String
  pub timestamp : ℕ
  pub message : Option String
  pub error : Option (ErrorFields J)

-- A span: whether it has the error tag, how often the two tags of an error were set, and its logs. It is
-- taken to keep its tags in `_tags`, where the code looks for them.
pub record Tagged (J : Type 0) : Type 0 where
  pub has_error_tag : Bool
  pub times_set : ℕ
  pub logs : List (TracingLog J)

module _ {J : Type 0} (labels : ℕ → Option String) where
  abbrev pub error_of : LogLine J → Option (ErrorFields J)
  error_of log = if is_error log then log.err else none

  abbrev pub tracing_log : LogLine J → TracingLog J
  tracing_log log = record {
    event = labels log.level;
    timestamp = log.time;
    message = log.msg;
    error = error_of log;
  }

  -- `setTags` on the active span
  unfoldable pub set_tags : LogLine J → Tagged J → Tagged J
  set_tags log span =
      if is_error log && not span.has_error_tag
      then record {
        has_error_tag = true;
        times_set = suc span.times_set;
        logs = span.logs ++ tracing_log log ∷ [];
      }
      else record span { logs = span.logs ++ tracing_log log ∷ [] }

  -- the stream, on the lines of the time that a span is active; none is a line that is no JSON
  unfoldable pub write_all : List (Option (LogLine J)) → Tagged J → Tagged J
  unfolding set_tags
  write_all [] span = span
  write_all (none ∷ lines) span = write_all lines span
  write_all (some log ∷ lines) span = write_all lines (set_tags log span)

  abbrev pub parsed_logs : List (Option (LogLine J)) → List (TracingLog J)
  parsed_logs [] = []
  parsed_logs (none ∷ lines) = parsed_logs lines
  parsed_logs (some log ∷ lines) = tracing_log log ∷ parsed_logs lines

  abbrev pub has_error : List (Option (LogLine J)) → Bool
  has_error [] = false
  has_error (none ∷ lines) = has_error lines
  has_error (some log ∷ lines) = is_error log || has_error lines

  abbrev span_of : Bool → ℕ → List (TracingLog J) → Tagged J
  span_of b n logs = record { has_error_tag = b; times_set = n; logs = logs }

  module _ (log : LogLine J) (b : Bool) (n : ℕ) (logs : List (TracingLog J)) where
    tags_set :
        is_error log && not b ≡ true
        → set_tags log (span_of b n logs) ≡ span_of true (suc n) (logs ++ tracing_log log ∷ [])
    unfolding set_tags
    tags_set e = rw e refl

    tags_left :
        is_error log && not b ≡ false
        → set_tags log (span_of b n logs) ≡ span_of b n (logs ++ tracing_log log ∷ [])
    unfolding set_tags
    tags_left e = rw e refl

  logs-write_all :
      (lines : List (Option (LogLine J))) (b : Bool) (n : ℕ) (logs : List (TracingLog J))
      → (write_all lines (span_of b n logs)).logs ≡ logs ++ parsed_logs lines
  unfolding write_all
  logs-write_all [] b n logs = sym (append-nil logs)
  logs-write_all (none ∷ lines) b n logs = logs-write_all lines b n logs
  logs-write_all (some log ∷ lines) b n logs = elim (Bool-cases (is_error log && not b)) [
    | inl e ↦
        ap (λ span. (write_all lines span).logs) (tags_set log b n logs e)
        ∙ logs-write_all lines true (suc n) (logs ++ tracing_log log ∷ [])
        ∙ append_assoc logs (tracing_log log ∷ []) (parsed_logs lines)
    | inr e ↦
        ap (λ span. (write_all lines span).logs) (tags_left log b n logs e)
        ∙ logs-write_all lines b n (logs ++ tracing_log log ∷ [])
        ∙ append_assoc logs (tracing_log log ∷ []) (parsed_logs lines)
  ]

  times-tagged :
      (lines : List (Option (LogLine J))) (n : ℕ) (logs : List (TracingLog J))
      → (write_all lines (span_of true n logs)).times_set ≡ n
  unfolding write_all
  times-tagged [] n logs = refl
  times-tagged (none ∷ lines) n logs = times-tagged lines n logs
  times-tagged (some log ∷ lines) n logs =
      ap (λ span. (write_all lines span).times_set)
        (tags_left log true n logs (never (is_error log)))
      ∙ times-tagged lines n (logs ++ tracing_log log ∷ [])
    where
      never : (b : Bool) → b && not true ≡ false
      never true = refl
      never false = refl

  times-untagged :
      (lines : List (Option (LogLine J))) (n : ℕ) (logs : List (TracingLog J))
      → (write_all lines (span_of false n logs)).times_set ≡ n + (if has_error lines then 1 else 0)
  unfolding write_all
  times-untagged [] n logs = omega arith
  times-untagged (none ∷ lines) n logs = times-untagged lines n logs
  times-untagged (some log ∷ lines) n logs = elim (Bool-cases (is_error log)) [
    | inl e ↦
        ap (λ span. (write_all lines span).times_set) (tags_set log false n logs (rw e refl))
        ∙ times-tagged lines (suc n) (logs ++ tracing_log log ∷ [])
        ∙ rw e (omega arith)
    | inr e ↦
        ap (λ span. (write_all lines span).times_set) (tags_left log false n logs (rw e refl))
        ∙ times-untagged lines n (logs ++ tracing_log log ∷ [])
        ∙ rw e refl
  ]

  -- On a span with no error tag, every line that is JSON is logged, in order, and no other; and the tags
  -- of an error are set once if any of them is of the level of an error or above, and otherwise never.
  pub write_all_lem :
      (lines : List (Option (LogLine J))) (logs : List (TracingLog J))
      → let span = write_all lines (record { has_error_tag = false; times_set = 0; logs = logs }) in
        (span.logs ≡ logs ++ parsed_logs lines)
        × (span.times_set ≡ (if has_error lines then 1 else 0))
  write_all_lem lines logs =
      (logs-write_all lines false 0 logs, times-untagged lines 0 logs ∙ omega arith)

abbrev pub code_or_name : Option String → Option String → Option String
code_or_name none name = name
code_or_name (some code) name = some code

-- a value of an attribute: a text, or what the line holds
pub data Value (J : Type 0) : Type 0 where
  text : Option String → Value J
  held : J → Value J

-- What an opentelemetry span is told of a line: an attribute that is set later takes the place of one of
-- the same key.
pub record SpanEvent (J : Type 0) : Type 0 where
  pub name : Option String
  pub attributes : List (String × Value J)
  pub time : ℕ

module _ {J : Type 0} (labels : ℕ → Option String) where
  abbrev pub set_text : String → Option String → List (String × Value J) → List (String × Value J)
  set_text key none attributes = attributes
  set_text key (some s) attributes = attributes ++ (key, text (some s)) ∷ []

  abbrev pub exception_attributes :
      Option (ErrorFields J) → List (String × Value J) → List (String × Value J)
  exception_attributes none attributes = attributes
  exception_attributes (some e) attributes = set_text "exception.stacktrace" e.stack (
      set_text "exception.message" e.message
        (set_text "exception.type" (code_or_name e.code e.name) attributes))

  abbrev pub held_attributes : List (String × J) → List (String × Value J)
  held_attributes [] = []
  held_attributes ((k, j) ∷ rest) = (k, held j) ∷ held_attributes rest

  -- `setTags` of the opentelemetry transport on the active span
  unfoldable pub span_event : LogLine J → SpanEvent J
  span_event log =
      let attributes = ("message", text log.msg) ∷ held_attributes log.rest in
      record {
        name = labels log.level;
        attributes = if is_error log then exception_attributes log.err attributes else attributes;
        time = log.time;
      }
