-- ===== src/Metrics/Diagnostics.antt =====
-- packages/metrics/src/diagnostics.ts. A server is a number; `snapshot` is the heap snapshot, and
-- `format` is that of a number of bytes.
use Prim.Native.String.{◌++◌ as concat}
use rocket_toolkit.Prelude.{
  ℕ, String, ◌≡◌, refl, Option, none, some, List, [], ◌∷◌, map, str_eq, if◌then◌else◌, ◌==◌, true,
  false, arith,
}

-- `server` is the variable of the module, `listening` the servers that listen, the last one first.
pub record Servers : Type 0 where
  pub server : Option ℕ
  pub listening : List ℕ

-- `app.listen(port)` gives a server
unfoldable pub start_diagnostics : ℕ → Servers → Servers
start_diagnostics created s = record { server = some created; listening = created ∷ s.listening }

abbrev pub without : ℕ → List ℕ → List ℕ
without n [] = []
without n (m ∷ more) = let rest = without n more in if m == n then rest else m ∷ rest

abbrev pub stopped : Option ℕ → Servers → Servers
stopped none s = s
stopped (some server) s = record { server = none; listening = without server s.listening }

unfoldable pub stop_diagnostics : Servers → Servers
stop_diagnostics s = stopped s.server s

-- Behind a second start, the first server is out of reach: stopping ends the second one alone, and
-- stopping again ends nothing.
pub stop-start_twice :
    (first second : ℕ)
    → (first == second) ≡ false
    → let twice =
        start_diagnostics second
          (start_diagnostics first (record { server = none; listening = [] })) in
      ((stop_diagnostics twice).listening ≡ first ∷ [])
      × ((stop_diagnostics (stop_diagnostics twice)).listening ≡ first ∷ [])
unfolding start_diagnostics stop_diagnostics
stop-start_twice first second other =
    let same : (second == second) ≡ true = ground arith in
    (rw (same, other) refl, rw (same, other) refl)

-- what a handler makes of a response: a page, values by name, or an attachment
pub data Body (J : Type 0) : Type 0 where
  html : String → Body J
  values : List (String × String) → Body J
  attachment : J → (file_name : String) → Body J

module _ {J : Type 0} (snapshot : J) (now : String) (format : ℕ → String)
    (memory : List (String × ℕ)) where
  abbrev pub memory_usage : Body J
  memory_usage = values (map (λ (name, bytes). (name, format bytes)) memory)

  abbrev pub heap_dump : Body J
  heap_dump = attachment snapshot (concat now ".heapsnapshot")

  abbrev pub link : String → String
  link path = concat "<a href=\"" (concat path (concat "\">" (concat path "</a>")))

  abbrev pub index : Body J
  index = html (
      concat "<html><body>" (
        concat (link "/") (
          concat "</br>" (
            concat (link "/heap-dump")
              (concat "</br>" (concat (link "/memory-usage") "</body></html>"))))))

  -- the middleware, on a path in lower case; none goes on to the next one
  unfoldable pub routed : String → Option (Body J)
  routed path =
      if str_eq path "/"
      then some index
      else if str_eq path "/heap-dump"
      then some heap_dump
      else if str_eq path "/memory-usage"
      then some memory_usage
      else none
