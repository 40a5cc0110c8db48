-- ===== src/Hosting/KeyPerFile.antt =====
-- packages/key-per-file-configuration/src/keyPerFileConfiguration.ts. The environment is a function;
-- assigning to `process.env` makes a string of what is assigned. `basename` and the contents of the
-- files are parameters; what the watcher reports is a list of events, and logging is left out.
use rocket_toolkit.Prelude.{
  ◌≡◌, refl, String, Bool, not, ◌||◌, Option, none, some, List, [], ◌∷◌, ◌++◌, foldl, str_eq,
  if◌then◌else◌,
}
use rocket_toolkit.ProcessManager.Effect.{Completion, normal, abrupt, error}

abbrev pub Env : Type 0
Env = String → Option String

abbrev pub assign : String → String → Env → Env
assign key value env k = if str_eq key k then some value else env k

-- what the watcher reports: a file was added or changed, with its contents, or it was removed
pub data Event : Type 0 where
  loaded : (file_path contents : String) → Event
  removed : (file_path : String) → Event

abbrev pub file_of : Event → String
file_of (loaded file_path contents) = file_path
file_of (removed file_path) = file_path

abbrev pub value_of : Event → String
value_of (loaded file_path contents) = contents
value_of (removed file_path) = "undefined"

module _ (basename : String → String) where
  -- `contents` is what the file holds when it is read
  unfoldable pub load_value : String → String → Env → Env
  load_value contents file_path env = assign (basename file_path) contents env

  -- assigning undefined stores the text of it
  unfoldable pub remove_value : String → Env → Env
  remove_value file_path env = assign (basename file_path) "undefined" env

  unfoldable pub on_event : Env → Event → Env
  unfolding load_value remove_value
  on_event env (loaded file_path contents) = load_value contents file_path env
  on_event env (removed file_path) = remove_value file_path env

  -- `load` and what comes after it: the files that are there are events too
  unfoldable pub watch : Env → List Event → Env
  unfolding on_event
  watch env events = foldl on_event env events

  -- the last event of a file of this name
  unfoldable pub last_event : String → Option String → List Event → Option String
  last_event key before [] = before
  last_event key before (event ∷ events) =
      last_event key
        (if str_eq (basename (file_of event)) key then some (value_of event) else before) events

  -- At any time a variable holds the contents of the file of its name that was loaded last, in any
  -- folder, or the text "undefined" when a file of its name was removed since; and a variable that no
  -- file is named for is what it was.
  pub watch_lem :
      (env : Env) (events : List Event) (key : String)
      → watch env events key ≡ last_event key (env key) events
  unfolding watch last_event on_event load_value remove_value
  watch_lem env [] key = refl
  watch_lem env (loaded file_path contents ∷ events) key =
      watch_lem (load_value contents file_path env) events key
  watch_lem env (removed file_path ∷ events) key = watch_lem (remove_value file_path env) events key

-- The folder of the configuration: `joined` is a path put behind the working directory, `has_magic` is
-- that of `glob`, and `default` is `KEY_PER_FILE_CONFIG_PATH` or "runtime".
unfoldable pub get_absolute_path :
    (joined : String → String)
    → (has_magic : String → Bool) → (default : String) → (config_path : Option String)
    → Completion String
get_absolute_path joined has_magic default config_path =
    let path = joined (elim config_path [ none ↦ default | some given ↦ given ]) in
    if has_magic path
    then abrupt (error "Glob patterns are not supported in the config path")
    else normal path

-- The pattern is that of all files below the folder, unless the path is that of a file. `all_below` puts
-- `**` behind a path, `slashes` turns its backslashes, and `glob` is `glob.sync`.
unfoldable pub get_file_paths :
    (exists is_directory : String → Bool)
    → (all_below slashes : String → String) → (glob : String → List String) → String
    → List String
get_file_paths exists is_directory all_below slashes glob config_path = glob (
    slashes (
      if not (exists config_path) || is_directory config_path
      then all_below config_path
      else config_path))

module _ (basename contents : String → String) where
  -- `filePaths.forEach(loadValue)`
  abbrev pub load_files : List String → Env → Env
  load_files [] env = env
  load_files (file_path ∷ file_paths) env =
      load_files file_paths (load_value basename (contents file_path) file_path env)

  -- what `load` does before it watches: where the path is refused, no variable is set
  unfoldable pub load :
      (file_paths : String → List String) → Completion String → Env → Completion Env
  unfolding load_value
  load file_paths (abrupt e) env = abrupt e
  load file_paths (normal folder) env = normal (load_files (file_paths folder) env)

  abbrev pub events_of : List String → List Event
  events_of [] = []
  events_of (file_path ∷ file_paths) = loaded file_path (contents file_path) ∷ events_of file_paths

  -- The loading at the start and the watching behind it are one watch of events: first one for each file
  -- that is there.
  pub watch-load :
      (file_paths : List String) (events : List Event) (env : Env)
      → watch basename (load_files file_paths env) events
        ≡ watch basename env (events_of file_paths ++ events)
  unfolding watch on_event load_value
  watch-load [] events env = refl
  watch-load (file_path ∷ file_paths) events env =
      watch-load file_paths events (load_value basename (contents file_path) file_path env)
