-- ===== src/Tests/Messages.antt =====
-- Messages, requests and connections, at concrete values.
use rocket_toolkit.Prelude.{ℕ, ◌≡◌, String, some, List, [], ◌∷◌, arith}
use rocket_toolkit.ProcessManager.Result.{ok}
use rocket_toolkit.MessageBus.Utf8.{to_utf8_array, from_utf8_array}
use rocket_toolkit.MessageBus.Utf8.RoundTrip.{end, plain, pair, from_utf8_array-to_utf8_array}
use rocket_toolkit.MessageBus.Envelope.{Envelope}
use rocket_toolkit.MessageBus.Request.{on_published}
use rocket_toolkit.MessageBus.Request.Answer.{
  event, timeout, happen_all, early, first_reply, request_lem,
}

-- "aé€" and a surrogate pair
abbrev greeting : List ℕ
greeting = 97 ∷ 233 ∷ 8364 ∷ 0xd83d ∷ 0xde00 ∷ []

from_utf8_array-to_utf8_array_example : from_utf8_array (to_utf8_array greeting) ≡ greeting
from_utf8_array-to_utf8_array_example = from_utf8_array-to_utf8_array greeting (
    plain 97 _ (omega arith) (
      plain 233 _ (omega arith) (
        plain 8364 _ (omega arith)
          (pair 0xd83d 0xde00 _ (omega arith) (omega arith) (omega arith) (omega arith) end))))

abbrev about : String → Envelope ℕ
about id = record { payload = 1; headers = λ k. some id }

request_lem_example :
    (happen_all
      (on_published (about "c1") (early (("placed", about "c1") ∷ [])))
      (event "placed" (about "c2") ∷ event "paid" (about "c1") ∷ timeout ∷ [])).outcome
    ≡ some (ok ("paid", about "c1"))
unfolding first_reply
request_lem_example =
    request_lem (("placed", about "c1") ∷ []) (about "c1")
      (event "placed" (about "c2") ∷ event "paid" (about "c1") ∷ timeout ∷ [])
