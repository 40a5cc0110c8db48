-- ===== src/ApolloLogger.antt =====
-- packages/apollo-logger/src/utils.ts. The context of a request is the world; the identifier of a log
-- entry, the time and the text of an error are parameters. Writing to the console is left out.
pub mod Secured
pub mod Plugin
use Prim.Native.String.{◌++◌ as concat}
use rocket_toolkit.Prelude.{
  ℕ, String, Bool, true, false, ◌||◌, Option, none, some, List, [], ◌∷◌, ◌++◌, str_eq,
  if◌then◌else◌,
}
use rocket_toolkit.ProcessManager.Effect
use rocket_toolkit.ProcessManager.Effect.{Effect, chunk, pure}

pub data LoggingLevel : Type 0 where
  info : LoggingLevel
  error_level : LoggingLevel
  debug : LoggingLevel

abbrev pub name_of : LoggingLevel → String
name_of info = "INFO"
name_of error_level = "ERROR"
name_of debug = "DEBUG"

-- `X` is an error
pub record Log (X : Type 0) : Type 0 where
  pub uid : String
  pub request_id : String
  pub code : String
  pub message : String
  pub time_stamp : ℕ
  pub logging_level : LoggingLevel
  pub cause : Option X

pub record Context (X O : Type 0) : Type 0 where
  pub request_id : String
  pub logs : List (Log X)
  pub outside : O

pub record GraphqlError : Type 0 where
  pub message : String
  pub code : String

abbrev pub is_operation : String → Option String → Bool
is_operation name none = false
is_operation name (some operation) = str_eq operation name

abbrev pub level_is : LoggingLevel → Option String → Bool
level_is level none = false
level_is level (some configured) = str_eq configured (name_of level)

-- `configured` is `APOLLO_LOGGING_LEVEL`.
module _ (configured : Option String) where
  abbrev pub skips_level : LoggingLevel → Bool
  skips_level info = level_is error_level configured
  skips_level debug = level_is info configured || level_is error_level configured
  skips_level error_level = false

  unfoldable pub should_skip_logging : LoggingLevel → Option String → Bool
  should_skip_logging log_level operation_name =
      if is_operation "IntrospectionQuery" operation_name then true else skips_level log_level

module _ {X O : Type 0} (log_id : String) (now : ℕ)
    (persist : Option (Effect (Context X O) (Unit {0}))) where
  abbrev pub entry : String → String → LoggingLevel → Option X → Context X O → Log X
  entry message code level cause c = record {
    uid = log_id;
    request_id = c.request_id;
    code = code;
    message = message;
    time_stamp = now;
    logging_level = level;
    cause = cause;
  }

  abbrev pub add_log : String → String → LoggingLevel → Option X → Context X O → Context X O
  add_log message code level cause c = record c {
    logs = c.logs ++ entry message code level cause c ∷ [];
  }

  abbrev pub clear_logs : Context X O → Context X O
  clear_logs c = record c { logs = [] }

  abbrev pub persist_and_clear :
      Option (Effect (Context X O) (Unit {0})) → Effect (Context X O) (Unit {0})
  persist_and_clear none = Effect.unit
  persist_and_clear (some persist_logs) =
      Effect.bind persist_logs (λ _. chunk (λ _. true) clear_logs (λ _. Effect.unit))

  unfoldable pub log_event : String → String → LoggingLevel → Effect (Context X O) (Unit {0})
  log_event message code level =
      chunk (λ _. true) (add_log message code level none) (λ _. persist_and_clear persist)

  abbrev pub persisted : Option (Effect (Context X O) (Unit {0})) → Effect (Context X O) (Unit {0})
  persisted none = Effect.unit
  persisted (some persist_logs) = persist_logs

  -- the text with the details of the error, and the text without
  abbrev pub shown : (Option X → String) → Bool → String → String → Option X → String → String
  shown details secured message code cause request_id =
      if secured
      then concat message (
          concat " For more details check Log Id: < "
            (concat log_id (concat " > Request Id: < " (concat request_id " >"))))
      else concat code (
          concat " " (
            concat message (
              concat " " (
                concat (details cause) (
                  concat " - Log Id: < "
                    (concat log_id (concat " > Request Id: < " (concat request_id " >"))))))))

  abbrev pub code_or : Option String → String
  code_or none = ""
  code_or (some code) = code

  abbrev pub secured_or : Option Bool → Bool
  secured_or none = true
  secured_or (some secured) = secured

  unfoldable pub log_db_error :
      (Option X → String)
      → String
      → Option String
      → LoggingLevel
      → Option X
      → Option Bool
      → Effect (Context X O) GraphqlError
  log_db_error details message code level cause secured_message =
      chunk (λ _. true) (add_log message (code_or code) level cause)
        (λ c. Effect.bind (persisted persist) (λ _.
          chunk (λ _. true) clear_logs
            (λ _. pure (record {
              message =
                  shown details (secured_or secured_message) message (code_or code) cause
                    c.request_id;
              code = code_or code;
            }))))

  module _ (configured : Option String) (operation_name : Option String) where
    -- the functions of `initializeLogger`
    unfoldable pub log_info : String → String → Effect (Context X O) (Unit {0})
    unfolding log_event should_skip_logging
    log_info message code =
        if should_skip_logging configured info operation_name
        then Effect.never
        else log_event message code info

    unfoldable pub log_debug : String → String → Effect (Context X O) (Unit {0})
    unfolding log_event should_skip_logging
    log_debug message code =
        if should_skip_logging configured debug operation_name
        then Effect.never
        else log_event message code debug

    abbrev pub first_given : Option Bool → Option Bool → Option Bool
    first_given none secured_messages = secured_messages
    first_given (some secure) secured_messages = some secure

    unfoldable pub log_error :
        (Option X → String)
        → Option Bool
        → String
        → Option String
        → Option X
        → Option Bool
        → Effect (Context X O) GraphqlError
    unfolding log_db_error should_skip_logging
    log_error details secured_messages message code cause secure_message =
        if should_skip_logging configured error_level operation_name
        then Effect.never
        else log_db_error details message code error_level cause
            (first_given secure_message secured_messages)
