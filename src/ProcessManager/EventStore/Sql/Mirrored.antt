-- ===== src/ProcessManager/EventStore/Sql/Mirrored.antt =====
-- What the two event stores of packages/process-manager hold of one map from streams to histories.

use rocket_toolkit.Prelude.{
  ℕ, ◌+◌, ◌≡◌, refl, ap, ◌∙◌, String, Option, none, some, List, [], ◌∷◌, ◌++◌, length,
  length-append, arith,
}
use rocket_toolkit.ProcessManager.Effect.{normal}
use rocket_toolkit.ProcessManager.EventStore.{StreamData}
use rocket_toolkit.ProcessManager.EventStore.Memory.{World}
use rocket_toolkit.ProcessManager.EventStore.Sql.{
  Row, SqlWorld, Database, rows_of, parsed_rows, parsed_next,
}
use rocket_toolkit.ProcessManager.EventStore.Sql.Numbered.{IsNumbered}

-- what the in-memory store keeps of a history
abbrev pub stored : {X : Type 0} → List X → Option (StreamData X)
stored [] = none
stored (x ∷ xs) = some (record { events = x ∷ xs; version = length (x ∷ xs) })

pub stored-append :
    {X : Type 0} (xs : List X) (x : X)
    → stored (xs ++ x ∷ []) ≡ some (record { events = xs ++ x ∷ []; version = length xs + 1 })
stored-append [] x = refl
stored-append (y ∷ xs) x =
    ap (λ (n : ℕ). some (record { events = y ∷ xs ++ x ∷ []; version = n }))
      (omega (arith, length-append xs (x ∷ [])))

module _ {C O X : Type 0} (db : Database C O X) where
  -- the rows hold these events, in this order
  abbrev pub HasData : List X → List Row → Type 0
  HasData [] [] = Unit
  HasData [] (row ∷ rows) = ⊥
  HasData (x ∷ xs) [] = ⊥
  HasData (x ∷ xs) (row ∷ rows) = (row.event_data ≡ db.stringify x) × HasData xs rows

  pub length-HasData : (xs : List X) (rows : List Row) → HasData xs rows → length rows ≡ length xs
  length-HasData [] [] h = refl
  length-HasData [] (row ∷ rows) h = absurd h
  length-HasData (x ∷ xs) [] h = absurd h
  length-HasData (x ∷ xs) (row ∷ rows) (e, h) = omega (arith, length-HasData xs rows h)

  pub HasData-append :
      (xs : List X) (rows : List Row) (x : X) (row : Row)
      → HasData xs rows
      → row.event_data ≡ db.stringify x
      → HasData (xs ++ x ∷ []) (rows ++ row ∷ [])
  HasData-append [] [] x row h e = (e, tt)
  HasData-append [] (r ∷ rows) x row h e = absurd h
  HasData-append (y ∷ xs) [] x row h e = absurd h
  HasData-append (y ∷ xs) (r ∷ rows) x row (d, h) e = (d, HasData-append xs rows x row h e)

  -- JSON reads back what it wrote
  abbrev pub IsFaithful : Type 0
  IsFaithful = (x : X) → db.parse (db.stringify x) ≡ normal x

  pub parsed_rows-HasData :
      IsFaithful
      → (xs : List X) (rows : List Row) → HasData xs rows
      → parsed_rows db.parse rows ≡ normal xs
  parsed_rows-HasData faithful [] [] h = refl
  parsed_rows-HasData faithful [] (row ∷ rows) h = absurd h
  parsed_rows-HasData faithful (x ∷ xs) [] h = absurd h
  parsed_rows-HasData faithful (x ∷ xs) (row ∷ rows) (e, h) =
      ap (λ c. parsed_next db.parse c (parsed_rows db.parse rows)) (ap db.parse e ∙ faithful x)
      ∙ ap (parsed_next db.parse (normal x)) (parsed_rows-HasData faithful xs rows h)

  pub record Holds (xs : List X) (rows : List Row) : Type 0 where
    pub numbered : IsNumbered 1 rows
    pub contents : HasData xs rows

  -- Both stores keep the histories of `f`.
  pub record Mirrors (f : String → List X) (w : SqlWorld C O) (v : World X O) : Type 0 where
    pub in_rows : (stream : String) → Holds (f stream) (rows_of stream w.table)
    pub in_memory : (stream : String) → v.memory.store stream ≡ stored (f stream)
