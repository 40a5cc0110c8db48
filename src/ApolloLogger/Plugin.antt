-- ===== src/ApolloLogger/Plugin.antt =====
-- packages/apollo-logger/src/plugin.ts. The plugin does not hand its `persistLogsFn` on to
-- `initializeLogger`, and calls it at the end of the request.
use Prim.Native.String.{◌++◌ as concat}
use rocket_toolkit.Prelude.{
  ℕ, suc, String, ◌≡◌, refl, ap, ◌∙◌, Bool, true, false, Option, none, some, List, [], ◌∷◌, str_eq,
  length, arith, if◌then◌else◌,
}
use rocket_toolkit.ProcessManager.Effect
use rocket_toolkit.ProcessManager.Effect.{Effect, chunk, pure}
use rocket_toolkit.ProcessManager.Effect.Run.{returned, blocked, execute, execute-bind_returned}
use rocket_toolkit.ApolloLogger.{
  error_level, Context, GraphqlError, log_info, log_debug, log_error, should_skip_logging,
  log_db_error,
}

-- `a ?? b`
abbrev pub given_or : Option String → Option String → Option String
given_or none b = b
given_or (some a) b = some a

abbrev pub shown_name : Option String → String
shown_name none = "undefined"
shown_name (some name) = name

-- `request_name` and `operation_name` are the two places of the name of the operation.
unfoldable pub operation_of : Option String → Option String → String
operation_of request_name operation_name = elim (given_or request_name operation_name) [
  | none ↦ "unidentifiedOperation"
  | some name ↦ name
]

abbrev pub error_message : Option String → String
error_message name =
    concat "The server encounters errors while parsing, validating, or executing the operation < "
      (concat (shown_name name) " > \r\n")

-- `log_id` and `now` are the fresh identifiers and the times of the entries, `configured` is
-- `APOLLO_LOGGING_LEVEL`, and `details` the text of an error.
module _ {X O : Type 0} (log_id : ℕ → String) (now : ℕ → ℕ) (configured : Option String)
    (details : Option X → String) (secured : Option Bool) (operation : String) where
  -- A call that is not awaited: with nothing to persist it is over when it comes back.
  abbrev pub unawaited : Effect (Context X O) (Unit {0}) → Effect (Context X O) (Unit {0})
  unawaited call = chunk (λ _. true) (λ c. (execute call c).1) (λ _. Effect.unit)

  abbrev pub informs : ℕ → String → String → Effect (Context X O) (Unit {0})
  informs n message code =
      unawaited (log_info (log_id n) (now n) none configured (some operation) message code)

  abbrev pub debugs : ℕ → String → String → Effect (Context X O) (Unit {0})
  debugs n message code =
      unawaited (log_debug (log_id n) (now n) none configured (some operation) message code)

  -- `v4` is the fresh identifier of a request that has none.
  unfoldable pub request_did_start :
      ℕ
      → (v4 : String) → (requested : Option String) → (name : Option String)
      → Effect (Context X O) (Unit {0})
  unfolding log_info
  request_did_start n v4 requested name =
      Effect.bind
        (chunk (λ _. true)
          (λ c. record c { request_id = elim requested [ none ↦ v4 | some id ↦ id ] })
          (λ _. Effect.unit))
        (λ _.
          informs n (concat "Request for operation name <" (concat (shown_name name) "> started!"))
            "[REQUEST_STARTED]")

  unfoldable pub parsing_did_start : ℕ → Option String → Effect (Context X O) (Unit {0})
  unfolding log_debug
  parsing_did_start n name =
      debugs n (concat "The parsing of operation <" (concat (shown_name name) "> started!"))
        "[GraphQL_Parsing]"

  -- the function that `parsingDidStart` returns: `shown` is the text of an error in a template
  unfoldable pub parsing_did_end : (X → String) → ℕ → Option X → Effect (Context X O) (Unit {0})
  unfolding log_error
  parsing_did_end shown n none = Effect.unit
  parsing_did_end shown n (some e) =
      Effect.bind
        (log_error (log_id n) (now n) none configured (some operation) details secured
          (concat "[GraphQL_Parsing][Error] " (shown e)) none none none)
        (λ _. Effect.unit)

  unfoldable pub validation_did_start : ℕ → Option String → Effect (Context X O) (Unit {0})
  unfolding log_debug
  validation_did_start n name =
      debugs n (concat "The validation of operation <" (concat (shown_name name) "> started!"))
        "[GraphQL_Validation]"

  unfoldable pub execution_did_start : ℕ → Option String → Effect (Context X O) (Unit {0})
  unfolding log_debug
  execution_did_start n name =
      debugs n (concat "The execution of operation <" (concat (shown_name name) "> started!"))
        "[GraphQL_Execution]"

  abbrev pub logs_error : ℕ → Option String → X → Effect (Context X O) GraphqlError
  logs_error n name e =
      log_error (log_id n) (now n) none configured (some operation) details secured
        (error_message name) (some "[GraphQL_Execution][Error]") (some e) none

  -- the new messages of the errors
  unfoldable pub did_encounter_errors :
      ℕ → Option String → List X → Effect (Context X O) (List String)
  unfolding log_error
  did_encounter_errors n name [] = pure []
  did_encounter_errors n name (e ∷ errors) = Effect.bind (logs_error n name e) (λ template_error.
      Effect.bind (did_encounter_errors (suc n) name errors)
        (λ messages. pure (template_error.message ∷ messages)))

  abbrev pub persist_at_end :
      Option (Effect (Context X O) (Unit {0})) → Effect (Context X O) (Unit {0})
  persist_at_end none = Effect.unit
  persist_at_end (some persist_logs) =
      Effect.bind persist_logs
        (λ _. chunk (λ _. true) (λ c. record c { logs = [] }) (λ _. Effect.unit))

  unfoldable pub will_send_response :
      Option (Effect (Context X O) (Unit {0})) → ℕ → Option String → Effect (Context X O) (Unit {0})
  unfolding log_debug
  will_send_response persist n name =
      Effect.bind
        (debugs n (concat "A response for the operation <" (concat (shown_name name) "> was sent!"))
          "[GraphQL_Response]")
        (λ _. persist_at_end persist)

module _ {X O : Type 0} where
  abbrev pub without_logs : List X → Context X O → Context X O
  without_logs [] c = c
  without_logs (e ∷ errors) c = record c { logs = [] }

  cleared :
      (errors : List X) (c : Context X O)
      → without_logs errors (record c { logs = [] }) ≡ record c { logs = [] }
  cleared [] c = refl
  cleared (x ∷ xs) c = refl

module _ {X O : Type 0} (log_id : ℕ → String) (now : ℕ → ℕ) (configured : Option String)
    (details : Option X → String) (secured : Option Bool) (operation : String) where
  -- The error was told, and its log is gone.
  abbrev IsTold : Effect (Context X O) GraphqlError → Context X O → Type 0
  IsTold call c =
      (answer : GraphqlError) × (execute call c ≡ (returned answer, record c { logs = [] }))

  logs_error-IsTold :
      (n : ℕ) (name : Option String) (e : X) (c : Context X O)
      → str_eq operation "IntrospectionQuery" ≡ false
      → IsTold (logs_error log_id now configured details secured operation n name e) c
  unfolding log_error should_skip_logging log_db_error execute Effect.bind
  logs_error-IsTold n name e c other = told (str_eq operation "IntrospectionQuery") other
    where
      told :
          (b : Bool)
          → b ≡ false
          → IsTold
              (if (if b then true else false)
                then Effect.never
                else log_db_error
                    (log_id n)
                    (now n)
                    none
                    details
                    (error_message name)
                    (some "[GraphQL_Execution][Error]")
                    error_level
                    (some e)
                    secured)
              c
      told true absurdity = absurd (cc)
      told false e = (_, refl)

  -- On any operation but an introspection query, each error is told to the caller, and behind an error
  -- the context has no logs: neither that of the error nor those from before it. No function that
  -- persists logs has been called by then.
  pub did_encounter_errors-forgets :
      (errors : List X) (n : ℕ) (name : Option String) (c : Context X O)
      → str_eq operation "IntrospectionQuery" ≡ false
      → (messages : List String) × (length messages ≡ length errors)
        × (execute
              (did_encounter_errors log_id now configured details secured operation n name errors)
              c
            ≡ (returned messages, without_logs errors c))
  unfolding did_encounter_errors execute
  did_encounter_errors-forgets [] n name c other = ([], refl, refl)
  did_encounter_errors-forgets (e ∷ errors) n name c other =
      let (answer, told) = logs_error-IsTold n name e c other in
      let empty : Context X O = record c { logs = [] } in
      let (messages, count, more) = did_encounter_errors-forgets errors (suc n) name empty other in
      (
        answer.message ∷ messages,
        omega (arith, count),
        execute-bind_returned (logs_error log_id now configured details secured operation n name e)
              _ c empty answer told
            ∙ execute-bind_returned
                (did_encounter_errors log_id now configured details secured operation (suc n) name
                  errors)
                _ empty (without_logs errors empty) messages more
            ∙ ap (λ c'. (returned (answer.message ∷ messages), c')) (cleared errors c),
      )

  -- On an introspection query with at least one error, the handler never settles, so the server waits
  -- for it for ever; no error gets a message and nothing is logged.
  pub did_encounter_errors-introspection :
      (e : X) (errors : List X) (n : ℕ) (name : Option String) (c : Context X O)
      → str_eq operation "IntrospectionQuery" ≡ true
      → execute
          (did_encounter_errors log_id now configured details secured operation n name (e ∷ errors))
          c
        ≡ (blocked, c)
  unfolding did_encounter_errors log_error should_skip_logging execute Effect.bind
  did_encounter_errors-introspection e errors n name c same = rw (same, execute, Effect.bind) refl
