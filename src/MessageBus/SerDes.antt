-- ===== src/MessageBus/SerDes.antt =====
-- packages/message-bus/src/serDes.ts. JSON, its truthiness and `humps.camelizeKeys` are parameters.
use rocket_toolkit.Prelude.{
  String, ◌≡◌, ap, ◌∙◌, Bool, true, false, Option, none, some, if◌then◌else◌,
}

-- What `JSON.parse` gives for a message: the fields that are read, in both spellings.
pub record Parsed (J : Type 0) : Type 0 where
  pub payload : J
  pub upper_payload : J
  pub headers : J
  pub upper_headers : J

pub record Message (J : Type 0) : Type 0 where
  pub payload : J
  pub headers : J

module _ {J : Type 0} (parse : String → Option (Parsed J)) (stringify : Message J → String)
    (truthy : J → Bool) (camelize_keys : J → J) where
  unfoldable pub serialize : Message J → String
  serialize msg = stringify msg

  abbrev pub of_parsed : Parsed J → Message J
  of_parsed msg = record {
    payload = if truthy msg.payload then msg.payload else camelize_keys msg.upper_payload;
    headers = if truthy msg.headers then msg.headers else msg.upper_headers;
  }

  abbrev pub parsed : Option (Parsed J) → Option (Message J)
  parsed none = none
  parsed (some msg) = some (of_parsed msg)

  -- none where `JSON.parse` throws
  unfoldable pub de_serialize : String → Option (Message J)
  de_serialize data' = parsed (parse data')

  module _ (undefined : J)
      (parse-stringify : (m : Message J)
        → parse (stringify m)
          ≡ some (record {
            payload = m.payload;
            upper_payload = undefined;
            headers = m.headers;
            upper_headers = undefined;
          }))
      (m : Message J) where
    -- A message with a truthy payload and truthy headers is read back as it was written, when
    -- parsing what was written gives its two fields and no others.
    pub de_serialize-serialize :
        truthy m.payload ≡ true → truthy m.headers ≡ true → de_serialize (serialize m) ≡ some m
    unfolding de_serialize serialize
    de_serialize-serialize p h = ap parsed (parse-stringify m) ∙ rw (p, h)

    -- When parsing what was written gives its two fields and no others, a message with a falsy
    -- payload, such as 0, false or the empty string, and with truthy headers is read back with
    -- undefined for its payload, when `camelizeKeys` leaves undefined as it is.
    pub de_serialize-falsy :
        truthy m.payload ≡ false
        → truthy m.headers ≡ true
        → camelize_keys undefined ≡ undefined
        → de_serialize (serialize m) ≡ some (record { payload = undefined; headers = m.headers })
    unfolding de_serialize serialize
    de_serialize-falsy p h c = ap parsed (parse-stringify m) ∙ rw (p, h, c)
