-- ===== src/ProcessManager/CustomEffects.antt =====
-- packages/process-manager/src/custom-effects.ts: processes that make an HTTP request and wait for the
-- event that stands for its answer. `fetch` is a parameter, and so is how an error is written in a
-- template; the status is its decimal text.
use Prim.Native.String.{◌++◌ as concat}
use rocket_toolkit.Prelude.{
  String, Bool, Option, none, some, List, [], ◌∷◌, ◌⊎◌, inl, inr, if◌then◌else◌,
}
use rocket_toolkit.ProcessManager.Result.{Result, ok, err}
use rocket_toolkit.ProcessManager.Effect
use rocket_toolkit.ProcessManager.Effect.{Effect, Error, Completion, normal, of_completion, pure}
use rocket_toolkit.ProcessManager.Effect.Monad
use rocket_toolkit.ProcessManager.Effect.Run.{Outcome, returned, threw}
use rocket_toolkit.ProcessManager.Mediator.{Mediator, EnqueueEvent}
use rocket_toolkit.ProcessManager.Algebra.Process.{Process, from_effect}

pub record Response (W : Type 0) : Type 0 where
  pub is_ok : Bool
  pub status : String
  pub text : Effect W String

-- What `fetch` is called with: `none` for the options where only the address is given.
pub record RequestOptions : Type 0 where
  pub method : String
  pub content_type : String
  pub body : String

abbrev pub http_error : String → String → String
http_error status content = concat "HTTP error " (concat status (concat ": " content))

abbrev pub network_error : String → String
network_error e = concat "Network error: " e

module _ {W E : Type 0} (show_error : Error → String)
    (expect : Result String String → Completion E) where
  -- `[expect(...)]`
  abbrev pub expected : Result String String → Effect W (List E)
  expected r = Effect.bind (of_completion (expect r)) (λ event. pure (event ∷ []))

  -- The `try` block: what it returns, or the content that it goes on with.
  abbrev pub read_response : Response W → Effect W (List E ⊎ String)
  read_response response = Effect.bind response.text (λ content.
      if response.is_ok
      then pure (inr content)
      else Effect.bind (expected (err (http_error response.status content)))
          (λ events. pure (inl events)))

  abbrev pub caught : Error → Effect W (List E ⊎ String)
  caught e =
      Effect.bind (expected (err (network_error (show_error e)))) (λ events. pure (inl events))

  abbrev pub behind_try : List E ⊎ String → Effect W (List E)
  behind_try (inl events) = pure events
  behind_try (inr content) = expected (ok content)

  unfoldable pub requested : Effect W (Response W) → Effect W (List E)
  requested fetched =
      Effect.bind (Effect.catch_error (Effect.bind fetched read_response) caught) behind_try

module _ {W I S E R : Type 0} (fetch : String → Option RequestOptions → Effect W (Response W))
    (show_error : Error → String) (process_name : I → String)
    (mediator : Mediator W (EnqueueEvent I E)) where
  unfoldable pub http_get :
      String
      → (Result String String → Completion E)
      → (E → Option (Result R String))
      → Process W I S E R
  unfolding requested
  http_get url expect event_handler =
      from_effect process_name mediator (requested show_error expect (fetch url none)) event_handler

  -- `body` is what `JSON.stringify` made of it
  unfoldable pub http_post :
      String
      → String
      → (Result String String → Completion E)
      → (E → Option (Result R String))
      → Process W I S E R
  unfolding requested
  http_post url body expect event_handler =
      from_effect process_name mediator
        (requested show_error expect (
          fetch url
            (some (record { method = "POST"; content_type = "application/json"; body = body }))))
        event_handler

-- What a request comes to: the response with its text, or an error on the way to it.
abbrev pub exchange : {W : Type 0} → Effect W (Response W) → Effect W (Response W × String)
exchange fetched =
    Effect.bind fetched
      (λ response. Effect.bind response.text (λ content. pure (response, content)))

abbrev pub reply_of :
    {W : Type 0} → (Error → String) → Response W × String ⊎ Error → Result String String
reply_of show_error (inl (response, content)) =
    if response.is_ok then ok content else err (http_error response.status content)
reply_of show_error (inr e) = err (network_error (show_error e))

abbrev pub ended : {A : Type 0} → A ⊎ Error → Outcome A
ended (inl a) = returned a
ended (inr e) = threw e

module _ {W E : Type 0} (show_error : Error → String) (event : Result String String → E)
    (fetched : Effect W (Response W)) where
  abbrev told : Result String String → Completion E
  told r = normal (event r)

  abbrev on_exchange : Response W × String → Effect W (List E ⊎ String)
  on_exchange (response, content) =
      if response.is_ok
      then pure (inr content)
      else pure (inl (event (err (http_error response.status content)) ∷ []))

  abbrev events_of : Response W × String ⊎ Error → List E
  events_of o = event (reply_of show_error o) ∷ []
