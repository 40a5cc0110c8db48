-- ===== src/ProcessManager/Tests/Databases.antt =====
-- The database store beside the in-memory store, and the HTTP effects, on concrete values.
use rocket_toolkit.Prelude.{
  ℕ, ◌≡◌, refl, String, false, Option, none, some, List, [], ◌∷◌, ◌++◌, Bool-cases, inl, inr,
  if◌then◌else◌, str_eq, arith,
}
use rocket_toolkit.ProcessManager.Result.{Result, ok, err}
use rocket_toolkit.ProcessManager.Effect
use rocket_toolkit.ProcessManager.Effect.{
  Effect, Error, Completion, normal, pure, chunk, concurrency_error,
}
use rocket_toolkit.ProcessManager.Effect.Run.{execute, returned, threw}
use rocket_toolkit.ProcessManager.Mediator.{Mediator, EnqueueEvent, no_handlers}
use rocket_toolkit.ProcessManager.CustomEffects.{RequestOptions, Response}
use rocket_toolkit.ProcessManager.Tests.{W}
use rocket_toolkit.ProcessManager.EventStore.Memory
use rocket_toolkit.ProcessManager.EventStore.Memory.{World, put}
use rocket_toolkit.ProcessManager.EventStore.Sql
use rocket_toolkit.ProcessManager.EventStore.Sql.{
  Row, RequestError, SqlWorld, Database, new_rows, rows_for,
}
use rocket_toolkit.ProcessManager.EventStore.Sql.Index.{
  IsUniqueIndex, has_duplicate, append_event-many,
}
use rocket_toolkit.ProcessManager.EventStore.Sql.Optimistic.{appended, append_event-append_event}
use rocket_toolkit.ProcessManager.EventStore.Sql.Mirrored.{stored, Mirrors}
use rocket_toolkit.ProcessManager.EventStore.Sql.Refines.{
  recorded, remembered, extended, append_event-mirrored,
}
use rocket_toolkit.ProcessManager.EventStore.Sql.Compare.{append_event-past_end, answers_mirrored}

-- a server with the index, and events that are their own text
abbrev taken_key : RequestError
taken_key = record { number = 2601; message = "Cannot insert duplicate key row" }

abbrev refuses : List Row → List Row → Option RequestError
refuses table rows = if has_duplicate table rows then some taken_key else none

abbrev db : Database ℕ ℕ String
db = record {
  dial = pure 1;
  stringify = λ x. x;
  parse = λ s. normal s;
  type_of = λ x. some x;
  uuid = λ n. "id";
  refuses = refuses;
  from_version_rows = λ s n t. normal t;
}

index : IsUniqueIndex refuses
index = record {
  accepts = λ table rows e. rw e refl;
  rejects = λ table rows e. (taken_key, rw e refl, refl);
}

-- one stream with one event, in both stores
abbrev history : String → List String
history s = if str_eq "orders" s then "paid" ∷ [] else []

abbrev one_row : Row
one_row = record {
  event_id = "id";
  event_data = "paid";
  event_type = "paid";
  correlation_id = none;
  stream_id = "orders";
  stream_version = 1;
}

abbrev in_database : SqlWorld ℕ ℕ
in_database = record { pool = some 1; table = one_row ∷ []; ids = 1; outside = 0 }

abbrev in_memory : World String ℕ
in_memory = record {
  memory = record { store = λ s. stored (history s); locks = λ s. false };
  outside = 0;
}

mirrored : Mirrors db history in_database in_memory
mirrored = record {
  in_rows = λ s. elim (Bool-cases (str_eq "orders" s)) [
    | inl e ↦ rw e (record { numbered = (refl, tt); contents = (refl, tt) })
    | inr e ↦ rw e (record { numbered = tt; contents = tt })
  ];
  in_memory = λ s. refl;
}

append_event-mirrored_example :
    (execute (Sql.append_event db "orders" ("sent" ∷ []) 1) in_database ≡ (
      returned tt,
      recorded db index history in_database in_memory mirrored 1 refl "orders" "sent",
    ))
    × (execute (Memory.append_event "orders" ("sent" ∷ []) 1) in_memory
        ≡ (returned tt, remembered "orders" "sent" in_memory refl ("paid" ∷ [])))
    × Mirrors db
        (extended db index history in_database in_memory mirrored 1 refl "orders" "sent")
        (recorded db index history in_database in_memory mirrored 1 refl "orders" "sent")
        (remembered "orders" "sent" in_memory refl ("paid" ∷ []))
append_event-mirrored_example =
    append_event-mirrored db index history in_database in_memory mirrored 1 refl "orders" "sent"
      refl

append_event-past_end_example :
    (execute (Sql.append_event db "orders" ("sent" ∷ []) 5) in_database ≡ (
      returned tt,
      record in_database {
        table = in_database.table ++ rows_for db "orders" ("sent" ∷ []) 5 in_database;
        ids = 2;
      },
    ))
    × (execute (Memory.append_event "orders" ("sent" ∷ []) 5) in_memory
        ≡ (threw (concurrency_error 5 1), in_memory))
append_event-past_end_example =
    append_event-past_end db index history in_database in_memory mirrored 1 refl "orders" refl
      "sent" 5 (λ e. cc) (omega arith)

append_event-many_example :
    execute (Sql.append_event db "orders" ("sent" ∷ "seen" ∷ []) 1) in_database
    ≡ (threw (concurrency_error 1 2), record in_database { ids = 3 })
append_event-many_example =
    append_event-many db index "orders" 1 1 in_database refl "sent" "seen" []

append_event-append_event_example :
    (execute (Sql.append_event db "orders" ("sent" ∷ []) 1) in_database
      ≡ (returned tt, appended db "orders" 1 "sent" in_database))
    × (execute
          (Sql.append_event db "orders" ("seen" ∷ []) 1)
          (appended db "orders" 1 "sent" in_database)
        ≡ (
          threw (concurrency_error 1 2),
          record (appended db "orders" 1 "sent" in_database) { ids = 3 },
        ))
append_event-append_event_example =
    append_event-append_event db "orders" 1 index 1 in_database "sent" "seen" refl refl

answers_mirrored_example :
    execute (Sql.load_events db "orders" none) in_database ≡ (returned ("paid" ∷ []), in_database)
answers_mirrored_example =
    (answers_mirrored db index history in_database in_memory mirrored 1 refl "orders" (λ x. refl)).0

-- an answer that is not OK
abbrev not_found : String → Option RequestOptions → Effect W (Response W)
not_found url options = pure (record { is_ok = false; status = "404"; text = pure "gone" })

abbrev code_of : Result String String → ℕ
code_of (ok content) = 1
code_of (err e) = 2

abbrev none_registered : Mediator W (EnqueueEvent ℕ ℕ)
none_registered = no_handlers
