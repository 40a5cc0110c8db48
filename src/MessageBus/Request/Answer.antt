-- ===== src/MessageBus/Request/Answer.antt =====
-- Which answer a request gets.
use rocket_toolkit.Prelude.{
  ◌≡◌, refl, ap, ◌∙◌, String, true, Bool-cases, inl, inr, Option, none, some, List, [], ◌∷◌, foldl,
  if◌then◌else◌,
}
use rocket_toolkit.ProcessManager.Result.{Result, ok, err}
use rocket_toolkit.MessageBus.Envelope.{Envelope, get_correlation_id}
use rocket_toolkit.MessageBus.Request.{Request, fresh, same_id, on_event, on_published, on_timeout}

-- what happens to a request, in the order in which the event loop takes it up
pub data Happening (T : Type 0) : Type 0 where
  event : String → Envelope T → Happening T
  timeout : Happening T

module _ {T : Type 0} where
  abbrev pub happen : Request T → Happening T → Request T
  happen r (event topic ev) = on_event topic ev r
  happen r timeout = on_timeout r

  pub happen_all : Request T → List (Happening T) → Request T
  happen_all r happenings = foldl happen r happenings

  -- The first event with the correlation id of the command, or the timeout if that comes first.
  unfoldable pub first_reply :
      Envelope T → List (Happening T) → Option (Result (String × Envelope T) String)
  first_reply msg [] = none
  first_reply msg (timeout ∷ later) = some (err "Message timeout occurred.")
  first_reply msg (event topic ev ∷ later) =
      if same_id (get_correlation_id ev) (get_correlation_id msg)
      then some (ok (topic, ev))
      else first_reply msg later

  abbrev waiting : Envelope T → Option (Result (String × Envelope T) String) → Request T
  waiting msg outcome = record { published_msg = some msg; resolver = true; outcome = outcome }

  stays :
      (msg : Envelope T) (first : Result (String × Envelope T) String) (later : List (Happening T))
      → happen_all (waiting msg (some first)) later ≡ waiting msg (some first)
  unfolding happen_all on_timeout on_event
  stays msg first [] = refl
  stays msg first (timeout ∷ later) = stays msg first later
  stays msg first (event topic ev ∷ later) =
      elim (Bool-cases (same_id (get_correlation_id ev) (get_correlation_id msg))) [
        | inl same ↦ rw same (stays msg first later)
        | inr other ↦ rw other (stays msg first later)
      ]

  answered :
      (msg : Envelope T) (later : List (Happening T))
      → happen_all (waiting msg none) later ≡ waiting msg (first_reply msg later)
  unfolding happen_all first_reply on_timeout on_event
  answered msg [] = refl
  answered msg (timeout ∷ later) = stays msg (err "Message timeout occurred.") later
  answered msg (event topic ev ∷ later) =
      elim (Bool-cases (same_id (get_correlation_id ev) (get_correlation_id msg))) [
        | inl same ↦ rw same (stays msg (ok (topic, ev)) later)
        | inr other ↦ rw other (answered msg later)
      ]

  pub early : List (String × Envelope T) → Request T
  early [] = fresh
  early ((topic, ev) ∷ events) = on_event topic ev (early events)

  early-fresh : (events : List (String × Envelope T)) → early events ≡ fresh
  unfolding early on_event
  early-fresh [] = refl
  early-fresh ((topic, ev) ∷ events) = rw (early-fresh events)

  -- A request is settled by the first event, after its publication has returned, that carries the
  -- correlation id of its command, or by the timeout if that comes first; what comes later does not
  -- change the answer. Events that come before the publication has returned are lost, also those
  -- that answer the command.
  pub request_lem :
      (before : List (String × Envelope T)) (msg : Envelope T) (later : List (Happening T))
      → (happen_all (on_published msg (early before)) later).outcome ≡ first_reply msg later
  unfolding on_published
  request_lem before msg later =
      ap (λ r. (happen_all (on_published msg r) later).outcome) (early-fresh before)
      ∙ ap (λ (r : Request T). r.outcome) (answered msg later)
