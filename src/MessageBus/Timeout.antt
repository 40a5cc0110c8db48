-- ===== src/MessageBus/Timeout.antt =====
-- packages/message-bus/src/timeout.ts, and the `unsubscribe` of a nats streaming subscription in
-- packages/message-bus/src/transport/nats/index.ts, which is its only caller.
use rocket_toolkit.Prelude.{◌≡◌, refl, Option, none, some, List, [], ◌∷◌, ◌++◌}
use rocket_toolkit.ProcessManager.Effect.{Error, Completion, normal, abrupt}

-- What happens after the call, one thing at a time: the promise is settled, or the time is over.
pub data Moment (A : Type 0) : Type 0 where
  settles : Completion A → Moment A
  times_out : Moment A

module _ {A : Type 0} (exception : Error) where
  -- `Promise.race` is settled by what happens first, none while nothing has.
  unfoldable pub race : List (Moment A) → Option (Completion A)
  race [] = none
  race (settles c ∷ later) = some c
  race (times_out ∷ later) = some (abrupt exception)

  -- A `return` in a `finally` block takes the place of any completion of the `try` block; the value of
  -- `clearTimeout` is undefined.
  abbrev pub finally_returns : Option (Completion A) → Option (Completion (Unit {0}))
  finally_returns none = none
  finally_returns (some c) = some (normal tt)

  unfoldable pub timeout : List (Moment A) → Option (Completion (Unit {0}))
  unfolding race
  timeout moments = finally_returns (race moments)

-- What the subscription emits, and the end of the five seconds.
pub data Happening : Type 0 where
  closed : Happening
  emits_error : Error → Happening
  five_seconds : Happening
  other : Happening

-- the listeners that settle the promise
abbrev pub moments_of : List Happening → List (Moment (Unit {0}))
moments_of [] = []
moments_of (closed ∷ later) = settles (normal tt) ∷ moments_of later
moments_of (emits_error e ∷ later) = settles (abrupt e) ∷ moments_of later
moments_of (five_seconds ∷ later) = times_out ∷ moments_of later
moments_of (other ∷ later) = moments_of later

abbrev pub timed_out : Error
timed_out = Error.error "Nats subscription unsubscribe timed out"

unfoldable pub unsubscribe : List Happening → Option (Completion (Unit {0}))
unfolding timeout
unsubscribe later = timeout timed_out (moments_of later)

-- The promise of `unsubscribe` is settled by the end of the five seconds whatever happens around it,
-- and it is then fulfilled, never rejected: neither an error of the subscription nor the time-out
-- itself reaches the caller.
pub unsubscribe-fulfilled :
    (before after : List Happening)
    → unsubscribe (before ++ five_seconds ∷ after) ≡ some (normal tt)
unfolding unsubscribe timeout race
unsubscribe-fulfilled [] after = refl
unsubscribe-fulfilled (closed ∷ before) after = refl
unsubscribe-fulfilled (emits_error e ∷ before) after = refl
unsubscribe-fulfilled (five_seconds ∷ before) after = refl
unsubscribe-fulfilled (other ∷ before) after = unsubscribe-fulfilled before after
