-- ===== src/PinoMssqlserver/ConnectionString.antt =====
-- packages/pino-mssqlserver/src/utils.ts. A text is its UTF-16 code units. An object is the list of its
-- entries in the order of their keys' first assignment, where none is undefined; keys that are numbers,
-- which JavaScript puts first, are left out. `camelize` is what `humps` makes of a key.
pub mod RoundTrip
pub mod Lookup
use rocket_toolkit.Prelude.{
  ℕ, Bool, true, false, Option, none, some, List, [], ◌∷◌, map, foldl, if◌then◌else◌,
}
use rocket_toolkit.KnexFilters.Names.{Text, text_eq, split, remove_first}

abbrev pub Entries : Type 0
Entries = List (Text × Option Text)

-- `obj[key] = value`
abbrev pub set : Text → Option Text → Entries → Entries
set key value [] = (key, value) ∷ []
set key value ((k, v) ∷ entries) =
    let rest = set key value entries in
    if text_eq k key then (k, value) ∷ entries else (k, v) ∷ rest

-- a field that is missing or undefined is none
abbrev pub get : Text → Entries → Option Text
get key [] = none
get key ((k, v) ∷ entries) = if text_eq k key then v else get key entries

-- the first two parts at `=`, which are all that is read
abbrev pub pair_of_parts : List Text → Text × Option Text
pair_of_parts [] = ([], none)
pair_of_parts (k ∷ []) = (k, none)
pair_of_parts (k ∷ v ∷ more) = (k, some v)

abbrev pub pair_of : Text → Text × Option Text
pair_of part = pair_of_parts (split 61 part)

-- the `reduce`, and `Object.fromEntries`
abbrev pub assign : Entries → Entries → Entries
assign obj [] = obj
assign obj ((k, v) ∷ pairs) = assign (set k v obj) pairs

-- only the first space is taken away
unfoldable pub parsed : Text → Entries
parsed connection_string = assign [] (map pair_of (split 59 (remove_first 32 connection_string)))

abbrev pub is_given : Text → Bool
is_given [] = false
is_given (c ∷ cs) = true

abbrev pub given_parts : List Text → List Text
given_parts [] = []
given_parts (part ∷ parts) = if is_given part then part ∷ given_parts parts else given_parts parts

abbrev pub server_key : Text
server_key = 115 ∷ 101 ∷ 114 ∷ 118 ∷ 101 ∷ 114 ∷ []

abbrev pub port_key : Text
port_key = 112 ∷ 111 ∷ 114 ∷ 116 ∷ []

abbrev pub instance_name_key : Text
instance_name_key = 105 ∷ 110 ∷ 115 ∷ 116 ∷ 97 ∷ 110 ∷ 99 ∷ 101 ∷ 78 ∷ 97 ∷ 109 ∷ 101 ∷ []

abbrev pub user_name_key : Text
user_name_key = 117 ∷ 115 ∷ 101 ∷ 114 ∷ 78 ∷ 97 ∷ 109 ∷ 101 ∷ []

abbrev pub user_id_key : Text
user_id_key = 117 ∷ 115 ∷ 101 ∷ 114 ∷ 73 ∷ 100 ∷ []

abbrev pub other_params_key : Text
other_params_key = 111 ∷ 116 ∷ 104 ∷ 101 ∷ 114 ∷ 80 ∷ 97 ∷ 114 ∷ 97 ∷ 109 ∷ 115 ∷ []

-- JavaScript's `a || b`
abbrev pub or_other : Option Text → Option Text → Option Text
or_other none b = b
or_other (some a) b = if is_given a then some a else b

-- Two fields from the first two parts of the server, when there are two; else nothing changes.
abbrev pub set_parts : Text → List Text → Entries → Entries
set_parts key (first ∷ second ∷ more) info =
    set key (some second) (set server_key (some first) info)
set_parts key [] info = info
set_parts key (first ∷ []) info = info

abbrev pub split_server : ℕ → Text → Option Text → Entries → Entries
split_server u key none info = info
split_server u key (some server) info = set_parts key (split u server) info

module _ (camelize : Text → Text) where
  abbrev pub camelize_pair : Text × Option Text → Text × Option Text
  camelize_pair (k, v) = (camelize k, v)

  abbrev pub camelize_keys : Entries → Entries
  camelize_keys obj = assign [] (map camelize_pair obj)

  abbrev pub with_other_params : Option Text → Entries → Entries
  with_other_params none info = info
  with_other_params (some params) info =
      assign info (camelize_keys (assign [] (map pair_of (given_parts (split 59 params)))))

  unfoldable pub sanitize_connection_info : Entries → Entries
  sanitize_connection_info connection_info =
      let info = camelize_keys connection_info in
      let with_port = split_server 44 port_key (get server_key info) info in
      let with_instance = split_server 92 instance_name_key (get server_key with_port) with_port in
      let with_user =
        set user_name_key
          (or_other (get user_name_key with_instance) (get user_id_key with_instance))
          with_instance in
      with_other_params (get other_params_key with_user) with_user

  unfoldable pub parse_connection_string : Text → Entries
  unfolding parsed sanitize_connection_info
  parse_connection_string connection_string = sanitize_connection_info (parsed connection_string)
