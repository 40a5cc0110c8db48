-- ===== src/PinoMssqlserver/Database.antt =====
-- `generateKnexConfig`, `buildDbInstance` and the stream of packages/pino-mssqlserver/src/dbTransport.ts.
-- `J` is a JSON value and `K` what `knex` makes of a configuration; `parse_int` is `parseInt`, where none
-- is NaN.
use rocket_toolkit.Prelude.{
  ℕ, zero, suc, ◌≡◌, ◌≤◌, ◌<◌, arith, ap, ◌∙◌, true, Option, none, some, List, [], ◌∷◌, ◌++◌,
  length,
}
use rocket_toolkit.ProcessManager.Effect.{Completion, normal, abrupt}
use rocket_toolkit.KnexFilters.Names.{Text, trim}
use rocket_toolkit.PinoMssqlserver.ConnectionString.{
  Entries, get, is_given, or_other, server_key, port_key, instance_name_key, user_name_key,
  parse_connection_string,
}
use rocket_toolkit.PinoMssqlserver.Queue.{Processor, Reach, enqueue, abort, flush}
use rocket_toolkit.PinoMssqlserver.Queue.Order.{
  given-queue, concat_all, concat_all-flush, AllWithin,
}
use rocket_toolkit.PinoMssqlserver.Transport.{Limit, falsy, splicing, batch_limit}

abbrev password_key : Text
password_key = 112 ∷ 97 ∷ 115 ∷ 115 ∷ 119 ∷ 111 ∷ 114 ∷ 100 ∷ []

abbrev database_key : Text
database_key = 100 ∷ 97 ∷ 116 ∷ 97 ∷ 98 ∷ 97 ∷ 115 ∷ 101 ∷ []

abbrev trust_server_certificate_key : Text
trust_server_certificate_key =
    116 ∷ 114 ∷ 117 ∷ 115 ∷ 116 ∷ 83 ∷ 101 ∷ 114 ∷ 118 ∷ 101 ∷ 114 ∷ 67 ∷ 101 ∷ 114 ∷ 116 ∷ 105
    ∷ 102 ∷ 105 ∷ 99 ∷ 97 ∷ 116 ∷ 101 ∷ []

-- 'false'
abbrev false_text : Text
false_text = 102 ∷ 97 ∷ 108 ∷ 115 ∷ 101 ∷ []

-- The fields that do not depend on the connection string are constants.
pub record KnexConfig (J : Type 0) : Type 0 where
  pub server : Option Text
  pub port : Option ℕ
  pub user : Option Text
  pub password : Option Text
  pub database : Option Text
  pub trust_server_certificate : J
  -- undefined is none
  pub instance_name : Option Text

abbrev pub or_null : Option ℕ → Option ℕ
or_null none = none
or_null (some zero) = none
or_null (some (suc n)) = some (suc n)

module _ {J K : Type 0} (camelize to_lower_case : Text → Text) (parse_int : Option Text → Option ℕ)
    (json_parse : Text → Completion J) (knex : KnexConfig J → Completion K) where
  abbrev pub trust_text : Option Text → Text
  trust_text none = false_text
  trust_text (some given) =
      let lower = to_lower_case (trim given) in
      elim (is_given lower) [ true ↦ lower | _ ↦ false_text ]

  abbrev pub config_with : Entries → J → KnexConfig J
  config_with info trust = record {
    server = get server_key info;
    port = or_null (parse_int (get port_key info));
    user = get user_name_key info;
    password = get password_key info;
    database = get database_key info;
    trust_server_certificate = trust;
    instance_name = or_other (get instance_name_key info) none;
  }

  unfoldable pub generate_knex_config : Entries → Completion (KnexConfig J)
  generate_knex_config info =
      elim (json_parse (trust_text (get trust_server_certificate_key info))) [
        | normal trust ↦ normal (config_with info trust)
        | abrupt e ↦ abrupt e
      ]

  abbrev pub unless_thrown : Completion K → Option K
  unless_thrown (normal db_instance) = some db_instance
  unless_thrown (abrupt e) = none

  abbrev pub instance_of : Completion (KnexConfig J) → Option K
  instance_of (normal config) = unless_thrown (knex config)
  instance_of (abrupt e) = none

  -- an error is written to the console, and there is no database then
  unfoldable pub build_db_instance : Text → Option K
  unfolding generate_knex_config parse_connection_string
  build_db_instance connection_string =
      instance_of (generate_knex_config (parse_connection_string camelize connection_string))

module _ {K A : Type 0} where
  -- one object of the source of the stream: without a database it is dropped
  abbrev pub received : Option K → A → Processor A → Processor A
  received none obj p = p
  received (some db_instance) obj p = enqueue obj p

module _ {A : Type 0} where
  -- The batches that `close` hands to `insertLogs`, when no other flush is under way; `turns` is the fuel
  -- of `flush`.
  unfoldable pub close : Limit → ℕ → Processor A → List (List A)
  unfolding abort flush
  close limit turns p = flush turns (batch_limit limit) (abort p).queue

  all_flushed :
      (limit : Limit) (turns : ℕ) (queue : List A)
      → 0 < batch_limit limit
      → length queue ≤ turns
      → (concat_all (flush turns (batch_limit limit) queue) ≡ queue)
        × AllWithin (batch_limit limit) (flush turns (batch_limit limit) queue)
  all_flushed falsy turns queue positive h = concat_all-flush 19 turns queue h
  all_flushed (splicing zero) turns queue positive h = absurd (omega arith)
  all_flushed (splicing (suc n)) turns queue positive h = concat_all-flush n turns queue h

  -- Whatever batches were taken before, and whatever the limit of the options, if `splice` takes out
  -- entries with it: once the transport has closed, the entries handed to insertLogs are those that were
  -- received, each once and in order; the batches of the closing are within the limit. As many turns as
  -- the queue has entries are enough.
  pub close_lem :
      (limit : Limit) (turns : ℕ) {entries : List A} {p : Processor A}
      → Reach (batch_limit limit) entries p
      → 0 < batch_limit limit
      → length p.queue ≤ turns
      → (p.given ++ concat_all (close limit turns p) ≡ entries)
        × AllWithin (batch_limit limit) (close limit turns p)
  unfolding close abort
  close_lem limit turns {p} r positive h =
      let (all, within) = all_flushed limit turns p.queue positive h in
      (ap (λ l. p.given ++ l) all ∙ given-queue r, within)
