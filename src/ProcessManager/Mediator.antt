-- ===== src/ProcessManager/Mediator.antt =====
-- packages/process-manager/src/mediator.ts: handlers by message type. The static table is a value
-- that is passed along; a handler is registered before the effects that send to it are made.
use Prim.Native.String.{◌++◌ as concat}
use text.Mathlib.TextLemmas.{append_cancel_right}
use rocket_toolkit.Prelude.{
  String, ◌≡◌, ◌≢◌, Option, none, some, str_eq, eq_iff, eq_refl, if◌then◌else◌, arith,
}
use rocket_toolkit.ProcessManager.Effect.{Effect, unit}

-- `ICommand` is the type of the commands with its `getType`.
pub record Mediator (W C : Type 0) : Type 0 where
  pub handlers : String → Option (C → Effect W (Unit {0}))

module _ {W C : Type 0} where
  abbrev pub no_handlers : Mediator W C
  no_handlers = record { handlers = λ _. none }

  unfoldable pub register_handler : Mediator W C → String → (C → Effect W (Unit {0})) → Mediator W C
  register_handler m message_type handler = record {
    handlers = λ k. if str_eq message_type k then some handler else m.handlers k;
  }

  abbrev call_handler : Option (C → Effect W (Unit {0})) → C → Effect W (Unit {0})
  call_handler none cmd = unit
  call_handler (some handler) cmd = handler cmd

  -- a command that nothing handles is dropped
  unfoldable pub send : (C → String) → Mediator W C → C → Effect W (Unit {0})
  send get_type m cmd = call_handler (m.handlers (get_type cmd)) cmd

-- `Commands.enqueueEvent`; `instanceId` shows the name of its process
pub record EnqueueEvent (I E : Type 0) : Type 0 where
  pub instance_id : I
  pub event : E

abbrev pub message_type : String → String
message_type process_name = concat process_name ".enqueueEvent"

module _ {I E : Type 0} (process_name : I → String) where
  unfoldable pub get_type : EnqueueEvent I E → String
  get_type cmd = message_type (process_name cmd.instance_id)

module _ {W I E : Type 0} (process_name : I → String) (m : Mediator W (EnqueueEvent I E))
    (name : String) (handler : EnqueueEvent I E → Effect W (Unit {0}))
    (cmd : EnqueueEvent I E) where
  -- A command reaches the handler that was registered last for the process of its instance.
  pub send-register_handler_self :
      name ≡ process_name cmd.instance_id
      → send (get_type process_name) (register_handler m (message_type name) handler) cmd
        ≡ handler cmd
  unfolding send register_handler get_type
  send-register_handler_self same = rw (same, eq_refl)

  -- Registering a handler for a process leaves what is sent to a process of another name as it was.
  pub send-register_handler_ne :
      name ≢ process_name cmd.instance_id
      → send (get_type process_name) (register_handler m (message_type name) handler) cmd
        ≡ send (get_type process_name) m cmd
  unfolding send register_handler get_type
  send-register_handler_ne other =
      let theirs = message_type (process_name cmd.instance_id) in
      let differ : message_type name ≢ theirs =
        λ p. other (append_cancel_right name (process_name cmd.instance_id) ".enqueueEvent" p) in
      ground (arith, eq_iff (message_type name) theirs, differ)
