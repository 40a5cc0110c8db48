-- ===== src/ProcessManager/EventStore.antt =====
-- packages/process-manager/src/event-store/types.ts: what the runtime asks of an event store.
pub mod Memory
pub mod Sql
use rocket_toolkit.Prelude.{ℕ, String, Bool, Option, none, some, List}
use rocket_toolkit.ProcessManager.Effect.{Effect}

-- `X` is the type of what is stored.
pub record EventStore (W X : Type 0) : Type 0 where
  pub append_event : (stream : String) → List X → (expected_version : ℕ) → Effect W (Unit {0})
  pub load_events : (stream : String) → (from_version : Option ℕ) → Effect W (List X)
  pub stream_exists : (stream : String) → Effect W Bool
  pub delete_stream : (stream : String) → Effect W (Unit {0})

pub record StreamData (X : Type 0) : Type 0 where
  pub events : List X
  pub version : ℕ

-- packages/process-manager/src/event-store/factory.ts; `M` is a connection manager
pub data EventStoreOptions (M : Type 0) : Type 0 where
  in_memory : EventStoreOptions M
  mssql : (connection_manager : Option M) → EventStoreOptions M

abbrev pub manager_or : {M : Type 0} → Option M → M → M
manager_or none default = default
manager_or (some manager) default = manager

module _ {W X M : Type 0} (in_memory_event_store : EventStore W X)
    (mssql_event_store : M → EventStore W X) (default_connection_manager : M) where
  unfoldable pub create_event_store : EventStoreOptions M → EventStore W X
  create_event_store in_memory = in_memory_event_store
  create_event_store (mssql manager) =
      mssql_event_store (manager_or manager default_connection_manager)
