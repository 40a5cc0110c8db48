-- ===== src/ApolloLogger/Secured.antt =====
-- What an answer shows of an error, and what is left in the logs.
use rocket_toolkit.Prelude.{ℕ, String, ◌≡◌, refl, ◌∙◌, Bool, true, Option, none, some, []}
use rocket_toolkit.ProcessManager.Effect
use rocket_toolkit.ProcessManager.Effect.{Effect, chunk, pure}
use rocket_toolkit.ProcessManager.Effect.Run.{
  Outcome, returned, threw, blocked, execute, continue, execute-bind,
}
use rocket_toolkit.ApolloLogger.{
  LoggingLevel, Context, add_log, clear_logs, log_event, log_db_error, log_error,
  should_skip_logging,
}

module _ {X O : Type 0} (log_id : String) (now : ℕ) where
  -- A secured answer is the same for any two errors, when nothing persists the logs.
  pub log_db_error-secured :
      (details : Option X → String) (message : String) (code : Option String) (level : LoggingLevel)
      (x y : Option X) (c : Context X O)
      → (execute (log_db_error log_id now none details message code level x (some true)) c).0
        ≡ (execute (log_db_error log_id now none details message code level y (some true)) c).0
  unfolding log_db_error execute Effect.bind
  log_db_error-secured details message code level x y c = refl

  -- A persisted event is appended, then persisted, and then the logs are empty; what the persisting
  -- function throws is thrown on, and the logs are kept.
  abbrev emptied : Outcome (Unit {0}) × Context X O → Outcome (Unit {0}) × Context X O
  emptied (returned u, c) = (returned tt, record c { logs = [] })
  emptied (threw e, c) = (threw e, c)
  emptied (blocked, c) = (blocked, c)

  emptied-eq :
      (o : Outcome (Unit {0}) × Context X O)
      → continue (λ _. chunk (λ _. true) (clear_logs log_id now none) (λ _. Effect.unit)) o
        ≡ emptied o
  unfolding execute
  emptied-eq (returned u, c) = refl
  emptied-eq (threw e, c) = refl
  emptied-eq (blocked, c) = refl

  pub execute-log_event :
      (persist_logs : Effect (Context X O) (Unit {0})) (message code : String)
      (level : LoggingLevel) (c : Context X O)
      → execute (log_event log_id now (some persist_logs) message code level) c
        ≡ emptied (execute persist_logs (add_log log_id now none message code level none c))
  unfolding log_event execute
  execute-log_event persist_logs message code level c =
      execute-bind persist_logs _ (add_log log_id now none message code level none c)
      ∙ emptied-eq (execute persist_logs (add_log log_id now none message code level none c))

  -- On an introspection query, logging an error gives a promise that never settles, and logs nothing.
  pub log_error-introspection :
      (persist : Option (Effect (Context X O) (Unit {0}))) (configured : Option String)
      (details : Option X → String) (secured : Option Bool) (message : String)
      (code : Option String) (cause : Option X) (secure : Option Bool) (c : Context X O)
      → execute
          (log_error log_id now persist configured
            (some "IntrospectionQuery")
            details
            secured
            message
            code
            cause
            secure)
          c
        ≡ (blocked, c)
  unfolding log_error should_skip_logging execute
  log_error-introspection persist configured details secured message code cause secure c = refl
