-- ===== src/Tests/Sockets.antt =====
-- The instrumentation of websockets, on concrete sockets and requests.
use rocket_toolkit.Prelude.{
  ℕ, zero, suc, ◌≡◌, refl, String, Bool, true, false, Option, none, some, List, [], ◌∷◌, ◌==◌,
}
use rocket_toolkit.Tracing.Spans.{Ended, returned, count_ends}
use rocket_toolkit.Tracing.Websocket.{
  Settings, Emission, opens, errors, closes, emits_other, new_socket, emit_all,
}
use rocket_toolkit.Tracing.Websocket.Life.{ends, connecting_ends, emit_all-ends}
use rocket_toolkit.Tracing.Websocket.Send.{Sent}
use rocket_toolkit.ProcessManager.Effect.{normal}
use rocket_toolkit.Tracing.Websocket.Patching.{
  Wrapping, IsWrapping, Patches, Module, IsBare, patch, unpatch, patch-unpatch,
}
use rocket_toolkit.Tracing.Websocket.Requests.{
  Requests, refuses, action_of, patch_incoming_request_emit, patch_incoming_request_emit_lem,
}

-- opens, gets a message, fails and closes
abbrev life : List (Emission String)
life = opens ∷ emits_other ∷ errors "reset" ∷ closes 1006 "" false ∷ []

abbrev no_message : String → Option String
no_message e = none

emit_all-ends_example :
    (connecting_ends
        (emit_all false no_message life (new_socket (some "ws://host") "ws://host" "")).connecting
      ≡ 2)
    × (ends
          (emit_all false no_message life
            (new_socket (some "ws://host") "ws://host" "")).opened.span
        ≡ 1)
emit_all-ends_example =
    emit_all-ends false no_message (some "ws://host") "ws://host" "" life (tt, (tt, tt))

abbrev defaults : Settings
defaults = record {
  generate_receive_spans = some true;
  generate_send_spans = some true;
  max_message_length = some 1022;
}

-- fails, says so once, and ends as the callback does
abbrev failing : List ℕ → ℕ → ℕ → (Option String → Ended (Unit {0}) String) → Sent String
failing data' options ctx callback = record {
  called_back = some "closed" ∷ [];
  ended = callback (some "closed");
}

abbrev silent : ℕ → Option String → Ended (Unit {0}) String
silent k err = returned tt

abbrev no_requests : Requests ℕ ℕ String
no_requests = record { request_spans = λ k. none; told = λ s. [] }

abbrev same : ℕ → ℕ → Bool
same a b = a == b

patch_incoming_request_emit_lem_example :
    ((patch_incoming_request_emit same same no_message
        (action_of {A = Bool} same same
          (λ e. true)
          no_message
          no_message
          1
          2
          3
          []
          (refuses (returned true)))
        (some (1, 2))
        no_requests).0
      ≡ returned true)
    × (count_ends (
          (patch_incoming_request_emit same same no_message
              (action_of {A = Bool} same same
                (λ e. true)
                no_message
                no_message
                1
                2
                3
                []
                (refuses (returned true)))
              (some (1, 2))
              no_requests).1.told
            2)
        ≡ 0)
patch_incoming_request_emit_lem_example =
    patch_incoming_request_emit_lem {A = Bool} same same (λ e. true) no_message no_message 1 2 3 []
      (refuses (returned true)) no_requests refl refl refl refl

-- a method is the number of the wrappers around it
abbrev layers : Wrapping ℕ
layers = record {
  is_wrapped = λ f. elim f [ zero ↦ false | suc n ↦ true ];
  wrap = λ patch f. suc f;
  unwrap = λ f. elim f [ zero ↦ 0 | suc n ↦ n ];
}

abbrev counted : IsWrapping layers
counted = record { wrapped = λ patch f. refl; unwrapped = λ patch f. refl }

abbrev patches : Patches ℕ
patches = record {
  of_constructor = suc;
  of_emit = suc;
  of_send = suc;
  of_close = suc;
  of_handle_upgrade = suc;
  of_incoming_request_emit = suc;
}

abbrev sockets : Module ℕ
sockets = record {
  whole = false;
  constructor = 0;
  emit = 0;
  send = 0;
  close = 0;
  handle_upgrade = 0;
}

abbrev unwrapped_sockets : IsBare layers sockets
unwrapped_sockets = record {
  whole = refl;
  constructor = refl;
  emit = refl;
  send = refl;
  close = refl;
  handle_upgrade = refl;
}

patch-unpatch_example :
    (patch layers patches true sockets
      ≡ normal (
        record { class_of = 1; emit = 1; send = 1; close = 1 },
        record sockets { constructor = 1; handle_upgrade = 1 },
      ))
    × (unpatch layers (record sockets { constructor = 1; handle_upgrade = 1 })
        ≡ record sockets { handle_upgrade = 1 })
    × (patch layers patches true (record sockets { handle_upgrade = 1 })
        ≡ normal (
          record { class_of = 1; emit = 1; send = 1; close = 1 },
          record sockets { constructor = 1; handle_upgrade = 1 },
        ))
patch-unpatch_example = patch-unpatch layers patches true counted sockets unwrapped_sockets
