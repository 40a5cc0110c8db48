-- ===== src/PinoMssqlserver/Transport.antt =====
-- `insertLogs` and `close` of packages/pino-mssqlserver/src/dbTransport.ts. The table of the database
-- and JSON are parameters.
use rocket_toolkit.Prelude.{ℕ, zero, suc, ◌≡◌, refl, ◌∙◌, String, Option, none, some, List, map}
use rocket_toolkit.ProcessManager.Effect
use rocket_toolkit.ProcessManager.Effect.{Effect, Error, pure}
use rocket_toolkit.ProcessManager.Effect.Run.{
  Outcome, returned, threw, blocked, execute, handle, execute-catch_error,
}

-- the fields of a log entry that are read; `J` is a JSON value
pub record Log (J : Type 0) : Type 0 where
  pub time : J
  pub correlation_id : J
  pub msg : J
  pub level : ℕ
  pub tenant_id : J
  pub err : Option J
  pub whole : J

pub record LogRow (J : Type 0) : Type 0 where
  pub time_stamp : J
  pub correlation_id : J
  pub service_name : String
  pub message : J
  pub level : Option String
  pub log_event : String
  pub tenant_id : J
  pub exception : Option String

-- `options.flushInterval || 2000`, of a natural number
abbrev pub flush_interval : Option ℕ → ℕ
flush_interval none = 2000
flush_interval (some zero) = 2000
flush_interval (some (suc n)) = suc n

-- `options.batchLimit`: a number that is falsy or missing, or another one, by how many entries `splice`
-- takes out with it, which are none for a negative number or a fraction below 1.
pub data Limit : Type 0 where
  falsy : Limit
  splicing : ℕ → Limit

-- `options.batchLimit || 20`, as `splice` uses it
abbrev pub batch_limit : Limit → ℕ
batch_limit falsy = 20
batch_limit (splicing n) = n

module _ {W J : Type 0} (service_name : String) (labels : ℕ → Option String)
    (stringify : J → String) (insert : List (LogRow J) → Effect W (Unit {0})) where
  abbrev pub exception_of : Option J → Option String
  exception_of none = none
  exception_of (some err) = some (stringify err)

  abbrev pub row_of : Log J → LogRow J
  row_of log = record {
    time_stamp = log.time;
    correlation_id = log.correlation_id;
    service_name = service_name;
    message = log.msg;
    level = labels log.level;
    log_event = stringify log.whole;
    tenant_id = log.tenant_id;
    exception = exception_of log.err;
  }

  unfoldable pub insert_logs : List (Log J) → Effect W (Unit {0})
  insert_logs logs_batch = Effect.catch_error (insert (map row_of logs_batch)) (λ e. Effect.unit)

  abbrev quietly : Outcome (Unit {0}) × W → Outcome (Unit {0}) × W
  quietly (returned u, w) = (returned u, w)
  quietly (threw e, w) = (returned tt, w)
  quietly (blocked, w) = (blocked, w)

  quietly-eq : (o : Outcome (Unit {0}) × W) → handle (λ (e : Error). Effect.unit) o ≡ quietly o
  unfolding execute
  quietly-eq (returned u, w) = refl
  quietly-eq (threw e, w) = refl
  quietly-eq (blocked, w) = refl

  -- A batch is inserted as one row for each entry, in order, and a failing insert does not throw: the
  -- flush that waits for it goes on.
  pub execute-insert_logs :
      (batch : List (Log J)) (w : W)
      → execute (insert_logs batch) w ≡ quietly (execute (insert (map row_of batch)) w)
  unfolding insert_logs
  execute-insert_logs batch w =
      execute-catch_error (insert (map row_of batch)) (λ e. Effect.unit) w
      ∙ quietly-eq (execute (insert (map row_of batch)) w)
