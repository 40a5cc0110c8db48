-- ===== src/Tests/Jetstream.antt =====
-- The consumer loop of jetstream, a round trip through rusi, the end of a nats subscription, and listeners
-- that are passed on, on concrete messages.
use rocket_toolkit.Prelude.{
  ℕ, ◌+◌, ◌≤◌, ◌==◌, ◌≡◌, refl, true, none, some, List, [], ◌∷◌, ◌++◌, length, arith,
}
use rocket_toolkit.ProcessManager.Effect
use rocket_toolkit.ProcessManager.Effect.{Effect, Completion, normal, chunk, pure, Error}
use rocket_toolkit.ProcessManager.Effect.Run.{execute, returned}
use rocket_toolkit.MessageBus.Jetstream.Consume.{
  Consumer, Reach, here, later, receives, starts, subscribed, receive, start,
}
use rocket_toolkit.MessageBus.Jetstream.Consume.Bounds.{held, concurrency_bounded}
use rocket_toolkit.MessageBus.Jetstream.Consume.Progress.{Starts, waiting-Starts}
use rocket_toolkit.MessageBus.Subscriptions.{on_message}
use rocket_toolkit.MessageBus.Envelope.{Envelope}
use rocket_toolkit.MessageBus.Utf8.RoundTrip.{end, plain}
use rocket_toolkit.MessageBus.Rusi.{Client, Json, on_data, request_of, delivered, on_data-publish}
use rocket_toolkit.MessageBus.Emitters
use rocket_toolkit.MessageBus.Timeout.{five_seconds, other, unsubscribe, unsubscribe-fulfilled}

-- the handler does nothing, and an acknowledgement counts up
abbrev ack : ℕ → Effect ℕ (Unit {0})
ack m = chunk (λ _. true) (λ n. n + 1) (λ _. pure tt)

abbrev stream : List ℕ
stream = 7 ∷ 8 ∷ 9 ∷ []

abbrev at_rest : Consumer ℕ ℕ
at_rest = subscribed {T = ℕ} (λ m. normal m) (λ m. pure tt) ack true 1 stream 0

abbrev first_came : Consumer ℕ ℕ
first_came = receive {T = ℕ} (λ m. normal m) (λ m. pure tt) ack true 7 (8 ∷ 9 ∷ []) at_rest

abbrev first_runs : Consumer ℕ ℕ
first_runs = start {T = ℕ} (λ m. normal m) (λ m. pure tt) ack true 7 0 first_came

abbrev second_waits : Consumer ℕ ℕ
second_waits = receive {T = ℕ} (λ m. normal m) (λ m. pure tt) ack true 8 (9 ∷ []) first_runs

second_reached : Reach {T = ℕ} (λ m. normal m) (λ m. pure tt) ack true at_rest second_waits
second_reached =
    later (later (later here (receives 7 (8 ∷ 9 ∷ []) refl refl refl)) (starts 7 0 refl refl refl))
      (receives 8 (9 ∷ []) refl refl refl)

concurrency_bounded_example :
    (length second_waits.running ≤ 1)
    × (second_waits.started ++ (held second_waits.waiting ++ second_waits.incoming) ≡ stream)
concurrency_bounded_example =
    concurrency_bounded {T = ℕ} (λ m. normal m) (λ m. pure tt) ack true 1 stream 0 second_waits
      second_reached

waiting-Starts_example : Starts {T = ℕ} (λ m. normal m) (λ m. pure tt) ack true second_waits 8
unfolding execute on_message Effect.bind
waiting-Starts_example =
    waiting-Starts {T = ℕ} (λ m. normal m) (λ m. pure tt) ack true 1 stream 0 second_waits 8
      (omega arith) second_reached refl ((λ e. ground arith), tt)

-- a text parses to itself, and the keys stay as they are
abbrev texts : Json (List ℕ)
texts = record { stringify = λ t. t; parse = λ t. normal t; camelize_keys = λ t. t }

-- the world counts what is written
abbrev counting : Client ℕ ℕ ℕ
counting = record {
  connect = pure tt;
  publish_request = λ r. pure 0;
  open_stream = pure 0;
  write = λ k w. chunk (λ _. true) (λ n. n + 1) (λ _. pure tt);
  cancel = λ k. pure tt;
}

abbrev hello : Envelope (List ℕ)
hello = record { payload = 104 ∷ 105 ∷ []; headers = λ _. none }

on_data-publish_example :
    execute
      (on_data counting texts "pubsub"
        (λ e. pure tt)
        3
        (delivered counting texts "pubsub" "m1"
          (request_of counting texts "pubsub" "orders" hello)))
      4
    ≡ (returned tt, 5)
unfolding execute
on_data-publish_example =
    (on_data-publish counting texts "pubsub" (λ e. pure tt) 3 "m1" "orders" hello 4 4
        (plain 104 (105 ∷ []) (omega arith) (plain 105 [] (omega arith) end)) refl).0
      refl

unsubscribe-fulfilled_example : unsubscribe (other ∷ five_seconds ∷ []) ≡ some (normal tt)
unsubscribe-fulfilled_example = unsubscribe-fulfilled (other ∷ []) []

-- The object has a listener of its own, 7; of the two equal ones that are added, the last is removed.
abbrev own_listeners : List ℕ
own_listeners = 7 ∷ []

abbrev emitter : Emitters.Emitter (λ (x l : ℕ). x == l)
emitter = record { listeners = 1 ∷ 2 ∷ []; client = 7 ∷ 1 ∷ 2 ∷ [] }

abbrev passed_on : Emitters.Reach (λ x l. x == l) own_listeners emitter
unfolding Emitters.on Emitters.remove_listener
passed_on =
    Emitters.removed 1 (Emitters.added 1 (Emitters.added 2 (Emitters.added 1 Emitters.wrapped)))

client_lem_example : emitter.client ≡ own_listeners ++ emitter.listeners
client_lem_example = Emitters.client_lem (λ x l. x == l) passed_on
