-- ===== src/PinoApollo/Plugin.antt =====
-- The handlers of the plugin in packages/pino-apollo/src/plugin.ts. What they write to the logger is the
-- list of its entries. `shown` is the text of an operation name; the correlation id is a parameter.
use Prim.Native.String.{◌++◌ as concat}
use rocket_toolkit.Prelude.{
  String, Bool, true, false, Option, none, some, List, [], ◌∷◌, ◌++◌, str_eq, if◌then◌else◌,
}
use rocket_toolkit.KnexFilters.Names.{Text}
use rocket_toolkit.MessageBus.Envelope.{or_else}
use rocket_toolkit.PinoApollo.{
  Request, get_operation_name, should_skip_logging, truthy, or_try, name_or,
}

-- What an error object holds; `code` is that of its extensions, and `extensions` is what
-- `JSON.stringify` makes of these.
pub record GqlError : Type 0 where
  pub message : String
  pub stack : Option String
  pub code : Option String
  pub extensions : Option String

pub data Level : Type 0 where
  info debug error : Level

-- An entry of the logger, with the error that it was given, as that was then.
pub record Entry : Type 0 where
  pub level : Level
  pub cause : Option GqlError
  pub text : String

-- `securedMessages === undefined ? true : securedMessages`
unfoldable pub secured_messages : Option Bool → Bool
secured_messages none = true
secured_messages (some secured) = secured

-- how a template shows what may be undefined
abbrev pub shown_or : Option String → String
shown_or none = "undefined"
shown_or (some s) = s

abbrev pub is_business : Option String → Bool
is_business none = false
is_business (some code) = str_eq code "BUSINESS_ERROR"

module _ (secured : Bool) (correlation_id : Option String) where
  unfoldable pub enrich_error : (message full : String) → GqlError → GqlError
  enrich_error message full e =
      let id = or_else correlation_id "Not available" in
      if secured
      then record e {
        message =
            concat message (concat " For more details check Correlation Id: < " (concat id " >"));
        stack = none;
      }
      else record e { message = concat full (concat " - Correlation Id: < " (concat id " >")) }

  abbrev pub without_stack : GqlError → GqlError
  without_stack e = if secured then record e { stack = none } else e

  abbrev pub full_message : String → GqlError → String
  full_message message e = concat message (
      concat " " (
        concat e.message
          (concat " " (concat (shown_or e.stack) (concat " " (shown_or e.extensions))))))

  -- the error afterwards, and what was logged
  unfoldable pub log_request_error :
      (shown : Text → String)
      → (message_prefix : String) → (operation : Text) → (skip_enrichment : Bool) → GqlError
      → GqlError × List Entry
  unfolding enrich_error
  log_request_error shown message_prefix operation skip_enrichment e =
      let message = concat message_prefix (concat " < " (concat (shown operation) " > \r\n")) in
      (
        if skip_enrichment
            then without_stack e
            else enrich_error message (full_message message e) e,
        if should_skip_logging (some operation)
            then []
            else record { level = error; cause = some e; text = message } ∷ [],
      )

  -- `_logError`, whose template has a brace more
  unfoldable pub log_server_error : String → GqlError → GqlError × List Entry
  unfolding enrich_error
  log_server_error message_prefix e =
      let message = concat message_prefix " \r\n" in
      let full =
        concat message
          (concat " " (concat e.message (concat " " (concat (shown_or e.stack) "}")))) in
      (enrich_error message full e, record { level = error; cause = some e; text = message } ∷ [])

  module _ (shown : Text → String) (request : Request) (operation_name : Option Text) where
    -- `contextValue.operationName || getOperationName(...)`
    abbrev pub operation_of : Option Text → Text
    operation_of of_context =
        name_or (truthy of_context) (get_operation_name request operation_name)

    abbrev pub execution_prefix : String
    execution_prefix =
        "[GraphQL_Execution][Error] The server encounters errors while parsing, validating, or executing the operation"

    unfoldable pub did_encounter_errors : Option Text → List GqlError → List GqlError × List Entry
    unfolding log_request_error
    did_encounter_errors of_context [] = ([], [])
    did_encounter_errors of_context (e ∷ errors) =
        let (e', entries) =
          log_request_error shown execution_prefix (operation_of of_context) (is_business e.code)
            e in
        let (errors', more) = did_encounter_errors of_context errors in
        (e' ∷ errors', entries ++ more)

    -- `unexpectedErrorProcessingRequest`: its error is a plain one, without extensions
    unfoldable pub unexpected_error_processing_request :
        Option Text → GqlError → GqlError × List Entry
    unfolding log_request_error
    unexpected_error_processing_request of_context e =
        log_request_error shown
          "[GraphQL_Execution][Error] The server encountered errors while parsing, validating, or executing the operation"
          (operation_of of_context) false (record e { extensions = none })

  unfoldable pub context_creation_did_fail : GqlError → GqlError × List Entry
  unfolding log_server_error
  context_creation_did_fail e =
      log_server_error
        "[GraphQL_CreateContext][Error] The server encountered errors while creating context \r\n" e

  unfoldable pub invalid_request_was_received : GqlError → GqlError × List Entry
  unfolding log_server_error
  invalid_request_was_received e =
      log_server_error
        "[GraphQL_InvalidRequest][Error] The server encountered a malformed request \r\n" e

  unfoldable pub startup_did_fail : GqlError → GqlError × List Entry
  unfolding log_server_error
  startup_did_fail e =
      log_server_error "[GraphQL_Startup][Error] The server encountered errors during startup \r\n"
        e

-- The operation name of the context, and what is logged, along a request.
module _ (shown : Text → String) where
  abbrev pub named : String → Option Text → String → String
  named before none after = concat before (concat "undefined" after)
  named before (some name) after = concat before (concat (shown name) after)

  abbrev pub at_level : Level → String → Entry
  at_level level text = record { level = level; cause = none; text = text }

  unfoldable pub request_did_start : Request → Option Text → Option Text × List Entry
  request_did_start request operation_name =
      let name = get_operation_name request operation_name in
      (
        some name,
        if should_skip_logging (some name)
            then []
            else at_level info
                (named "[REQUEST_STARTED] Request for operation name <" (some name) "> started!")
              ∷ [],
      )

  -- `resolved` is the name of the first definition of the document, if that is an operation with a name
  unfoldable pub did_resolve_operation : Option Text → Option Text → Option Text × List Entry
  did_resolve_operation resolved of_context =
      let name = or_try (truthy resolved) of_context in
      (
        name,
        at_level debug
              (named "[GraphQL_Validation] Validation successful for operation <" name ">!")
            ∷ [],
      )

  unfoldable pub execution_did_start : Option Text → List Entry
  execution_did_start of_context =
      if should_skip_logging of_context
      then []
      else at_level debug
          (named "[GraphQL_Execution] Execution for operation <" of_context "> started!")
        ∷ []

  unfoldable pub will_send_response : Option Text → List Entry
  will_send_response of_context =
      at_level debug
        (named "[GraphQL_Response] A response for the operation <" of_context "> was sent!")
      ∷ []
