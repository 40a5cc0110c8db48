-- ===== src/Tracing/Websocket/Life.antt =====
-- How often the spans that follow the life of a socket are ended.
use rocket_toolkit.Prelude.{
  ℕ, ◌+◌, ◌≡◌, refl, sym, ap, ◌∙◌, String, Bool, true, false, not, ◌&&◌, Option, none, some, List,
  [], ◌∷◌, ◌++◌, if◌then◌else◌, arith,
}
use rocket_toolkit.Tracing.Spans.{Call, end_span, count_ends, count_ends-append}
use rocket_toolkit.Tracing.Websocket.{
  Emission, opens, errors, closes, emits_other, Connecting, Open, Socket, SpanKind, new_socket,
  error_calls, emit_connecting, emit_open, emit_socket, emit_all,
}

module _ {X : Type 0} where
  abbrev pub HasNoOpen : List (Emission X) → Type 0
  HasNoOpen [] = Unit
  HasNoOpen (opens ∷ events) = ⊥
  HasNoOpen (errors e ∷ events) = HasNoOpen events
  HasNoOpen (closes code reason was_clean ∷ events) = HasNoOpen events
  HasNoOpen (emits_other ∷ events) = HasNoOpen events

  -- a socket does not open behind an error or its close
  abbrev pub IsOrderly : List (Emission X) → Type 0
  IsOrderly [] = Unit
  IsOrderly (opens ∷ events) = IsOrderly events
  IsOrderly (errors e ∷ events) = HasNoOpen events × IsOrderly events
  IsOrderly (closes code reason was_clean ∷ events) = HasNoOpen events × IsOrderly events
  IsOrderly (emits_other ∷ events) = IsOrderly events

  abbrev pub has_open : List (Emission X) → Bool
  has_open [] = false
  has_open (opens ∷ events) = true
  has_open (errors e ∷ events) = has_open events
  has_open (closes code reason was_clean ∷ events) = has_open events
  has_open (emits_other ∷ events) = has_open events

  abbrev pub has_error : List (Emission X) → Bool
  has_error [] = false
  has_error (opens ∷ events) = has_error events
  has_error (errors e ∷ events) = true
  has_error (closes code reason was_clean ∷ events) = has_error events
  has_error (emits_other ∷ events) = has_error events

  abbrev pub has_close : List (Emission X) → Bool
  has_close [] = false
  has_close (opens ∷ events) = has_close events
  has_close (errors e ∷ events) = has_close events
  has_close (closes code reason was_clean ∷ events) = true
  has_close (emits_other ∷ events) = has_close events

  abbrev pub ends : Option (SpanKind × List (Call X)) → ℕ
  ends none = 0
  ends (some (kind, calls)) = count_ends calls

  abbrev pub connecting_ends : Option (Connecting X) → ℕ
  connecting_ends none = 0
  connecting_ends (some c) = count_ends c.calls

  has_no_open : (events : List (Emission X)) → HasNoOpen events → has_open events ≡ false
  has_no_open [] h = refl
  has_no_open (opens ∷ events) h = absurd h
  has_no_open (errors e ∷ events) h = has_no_open events h
  has_no_open (closes code reason was_clean ∷ events) h = has_no_open events h
  has_no_open (emits_other ∷ events) h = has_no_open events h

module _ {X : Type 0} (removes : Bool) (message : X → Option String) where
  emit_all_connecting : List (Emission X) → Connecting X → Connecting X
  emit_all_connecting [] c = c
  emit_all_connecting (e ∷ events) c =
      emit_all_connecting events (emit_connecting removes message e c)

  emit_all_open : SpanKind → List (Emission X) → Open X → Open X
  emit_all_open kind [] o = o
  emit_all_open kind (e ∷ events) o = emit_all_open kind events (emit_open removes message kind e o)

  -- The two spans go their own ways.
  emit_all_client :
      (events : List (Emission X)) (c : Connecting X) (o : Open X)
      → emit_all removes message events (record { connecting = some c; opened = o }) ≡ record {
        connecting = some (emit_all_connecting events c);
        opened = emit_all_open SpanKind.client events o;
      }
  unfolding emit_all emit_socket emit_all_connecting emit_all_open
  emit_all_client [] c o = refl
  emit_all_client (e ∷ events) c o = emit_all_client events _ _

  emit_all_server :
      (events : List (Emission X)) (o : Open X)
      → emit_all removes message events (record { connecting = none; opened = o })
        ≡ record { connecting = none; opened = emit_all_open SpanKind.server events o }
  unfolding emit_all emit_socket emit_all_open
  emit_all_server [] o = refl
  emit_all_server (e ∷ events) o = emit_all_server events _

  -- behind the opening, with the listener of an error or without it
  connecting_over :
      (events : List (Emission X)) (on_error : Bool) (calls : List (Call X))
      → count_ends
          (emit_all_connecting events
            (record { on_error = on_error; on_open = false; calls = calls })).calls
        ≡ count_ends calls + (if on_error && has_error events then 1 else 0)
  unfolding emit_all_connecting emit_connecting
  connecting_over [] true calls = omega arith
  connecting_over [] false calls = omega arith
  connecting_over (opens ∷ events) on_error calls = connecting_over events on_error calls
  connecting_over (errors e ∷ events) true calls =
      connecting_over events false _
      ∙ omega (arith, count_ends-append calls (error_calls removes message e ++ end_span ∷ []))
  connecting_over (errors e ∷ events) false calls = connecting_over events false calls
  connecting_over (closes code reason was_clean ∷ events) on_error calls =
      connecting_over events on_error calls
  connecting_over (emits_other ∷ events) on_error calls = connecting_over events on_error calls

  -- behind an error
  connecting_failed :
      (events : List (Emission X)) (calls : List (Call X))
      → HasNoOpen events
      → (emit_all_connecting events
          (record { on_error = false; on_open = true; calls = calls })).calls
        ≡ calls
  unfolding emit_all_connecting emit_connecting
  connecting_failed [] calls h = refl
  connecting_failed (opens ∷ events) calls h = absurd h
  connecting_failed (errors e ∷ events) calls h = connecting_failed events calls h
  connecting_failed (closes code reason was_clean ∷ events) calls h =
      connecting_failed events calls h
  connecting_failed (emits_other ∷ events) calls h = connecting_failed events calls h

  -- closed, and not opened again
  open_over :
      (kind : SpanKind) (events : List (Emission X)) (on_open on_error : Bool)
      (span : Option (SpanKind × List (Call X)))
      → (on_open ≡ true → HasNoOpen events)
      → ends
          (emit_all_open kind events
            (record { on_open = on_open; on_error = on_error; on_close = false; span = span })).span
        ≡ ends span
  unfolding emit_all_open emit_open
  open_over kind [] on_open on_error span h = refl
  open_over kind (opens ∷ events) true on_error span h = absurd (h refl)
  open_over kind (opens ∷ events) false on_error span h =
      open_over kind events false on_error span (λ e. cc)
  open_over kind (errors e ∷ events) on_open false span h =
      open_over kind events on_open false span h
  open_over kind (errors e ∷ events) on_open true none h =
      open_over kind events on_open false none h
  open_over kind (errors e ∷ events) on_open true (some (k, calls)) h =
      open_over kind events on_open false _ h ∙ count_ends-append calls _ ∙ omega arith
  open_over kind (closes code reason was_clean ∷ events) on_open on_error span h =
      open_over kind events on_open on_error span h
  open_over kind (emits_other ∷ events) on_open on_error span h =
      open_over kind events on_open on_error span h

  -- opened, and not closed yet
  open_under_way :
      (kind : SpanKind) (events : List (Emission X)) (on_error : Bool) (k : SpanKind)
      (calls : List (Call X))
      → ends
          (emit_all_open kind events (record {
            on_open = false;
            on_error = on_error;
            on_close = true;
            span = some (k, calls);
          })).span
        ≡ count_ends calls + (if has_close events then 1 else 0)
  unfolding emit_all_open emit_open
  open_under_way kind [] on_error k calls = omega arith
  open_under_way kind (opens ∷ events) on_error k calls =
      open_under_way kind events on_error k calls
  open_under_way kind (errors e ∷ events) false k calls = open_under_way kind events false k calls
  open_under_way kind (errors e ∷ events) true k calls =
      open_under_way kind events false k _
      ∙ ap (λ n. n + (if has_close events then 1 else 0)) (count_ends-append calls _ ∙ omega arith)
  open_under_way kind (closes code reason was_clean ∷ events) on_error k calls =
      open_over kind events false on_error _ (λ e. cc) ∙ count_ends-append calls _
  open_under_way kind (emits_other ∷ events) on_error k calls =
      open_under_way kind events on_error k calls

  open_fresh :
      (kind : SpanKind) (events : List (Emission X)) (on_error : Bool)
      → IsOrderly events
      → ends
          (emit_all_open kind events
            (record { on_open = true; on_error = on_error; on_close = true; span = none })).span
        ≡ (if has_open events then (if has_close events then 1 else 0) else 0)
  unfolding emit_all_open emit_open
  open_fresh kind [] on_error h = refl
  open_fresh kind (opens ∷ events) on_error h =
      open_under_way kind events on_error kind [] ∙ omega arith
  open_fresh kind (errors e ∷ events) false (no_open, h) = open_fresh kind events false h
  open_fresh kind (errors e ∷ events) true (no_open, h) = open_fresh kind events false h
  open_fresh kind (closes code reason was_clean ∷ events) on_error (no_open, h) =
      open_over kind events true on_error none (λ _. no_open)
      ∙ sym (rw (has_no_open events no_open) refl)
  open_fresh kind (emits_other ∷ events) on_error h = open_fresh kind events on_error h

module _ {X : Type 0} where
  -- how often a connecting span is ended: at the opening, and at the first error, which the opening turns
  -- away only where `removeEventListener` removes the listener
  abbrev pub connecting_times : (removes : Bool) → List (Emission X) → ℕ
  connecting_times removes events =
      if has_open events
      then (if not removes && has_error events then 2 else 1)
      else (if has_error events then 1 else 0)

module _ {X : Type 0} (removes : Bool) (message : X → Option String) where
  connecting_fresh :
      (events : List (Emission X)) (calls : List (Call X))
      → IsOrderly events
      → count_ends
          (emit_all_connecting removes message events
            (record { on_error = true; on_open = true; calls = calls })).calls
        ≡ count_ends calls + connecting_times removes events
  unfolding emit_all_connecting emit_connecting
  connecting_fresh [] calls h = omega arith
  connecting_fresh (opens ∷ events) calls h =
      connecting_over removes message events (not removes) _
      ∙ twice (not removes && has_error events) (count_ends-append calls (end_span ∷ []))
    where
      twice :
          (b : Bool) {n : ℕ}
          → n ≡ count_ends calls + 1
          → n + (if b then 1 else 0) ≡ count_ends calls + (if b then 2 else 1)
      twice true e = omega arith
      twice false e = omega arith
  connecting_fresh (errors e ∷ events) calls (no_open, h) =
      ap count_ends (connecting_failed removes message events _ no_open)
      ∙ count_ends-append calls _
      ∙ rw (has_no_open events no_open) refl
  connecting_fresh (closes code reason was_clean ∷ events) calls (no_open, h) =
      connecting_fresh events calls h
  connecting_fresh (emits_other ∷ events) calls h = connecting_fresh events calls h

  -- Whatever a socket emits, when it does not open behind an error or its close: the open span, of a
  -- client or of a server, is ended exactly once if the socket opens and closes, and otherwise never. The
  -- connecting span of a client is ended once if the socket opens or fails, and otherwise never; but where
  -- `removeEventListener` leaves a listener of `once` in place, it is ended twice if the socket opens and
  -- then fails.
  pub emit_all-ends :
      (address : Option String) (url protocol : String) (events : List (Emission X))
      → IsOrderly events
      → let s = emit_all removes message events (new_socket address url protocol) in
        (connecting_ends s.connecting
          ≡ elim address [ none ↦ 0 | some a ↦ connecting_times removes events ])
        × (ends s.opened.span
            ≡ (if has_open events then (if has_close events then 1 else 0) else 0))
  unfolding new_socket
  emit_all-ends none url protocol events h = (
    ap (λ (s : Socket X). connecting_ends s.connecting) (emit_all_server removes message events _),
    ap (λ (s : Socket X). ends s.opened.span) (emit_all_server removes message events _)
        ∙ open_fresh removes message SpanKind.server events true h,
  )
  emit_all-ends (some a) url protocol events h = (
    ap (λ (s : Socket X). connecting_ends s.connecting) (emit_all_client removes message events _ _)
        ∙ connecting_fresh events _ h
        ∙ omega arith,
    ap (λ (s : Socket X). ends s.opened.span) (emit_all_client removes message events _ _)
        ∙ open_fresh removes message SpanKind.client events true h,
  )
