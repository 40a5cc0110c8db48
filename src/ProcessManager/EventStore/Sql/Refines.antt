-- ===== src/ProcessManager/EventStore/Sql/Refines.antt =====
-- The two event stores of packages/process-manager side by side.
use mathlib.Core.Path.{subst}
use rocket_toolkit.Prelude.{
  ℕ, suc, ◌+◌, ◌<◌, ◌≤◌, ◌≡◌, ◌≢◌, refl, sym, ap, ◌∙◌, String, true, false, Bool-cases, inl, inr,
  some, List, [], ◌∷◌, ◌++◌, append-nil, str_eq, eq_iff, eq_refl, if◌then◌else◌, length, arith,
}
use rocket_toolkit.ProcessManager.Effect.{concurrency_error}
use rocket_toolkit.ProcessManager.Effect.Run.{execute, returned, threw}
use rocket_toolkit.ProcessManager.EventStore.Memory
use rocket_toolkit.ProcessManager.EventStore.Memory.{
  World, set_memory, put, save, is_stored, loaded,
}
use rocket_toolkit.ProcessManager.EventStore.Memory.Laws
use rocket_toolkit.ProcessManager.EventStore.Memory.Laws.{IsFree}
use rocket_toolkit.ProcessManager.EventStore.Sql
use rocket_toolkit.ProcessManager.EventStore.Sql.{
  Row, SqlWorld, Database, rows_of, rows_but, by_version, parsed_rows, is_empty, rows_for, new_rows,
}
use rocket_toolkit.ProcessManager.EventStore.Sql.Index.{IsUniqueIndex, has_key, append_event-free}
use rocket_toolkit.ProcessManager.EventStore.Sql.Mirrored.{
  stored, stored-append, length-HasData, HasData-append, Holds, Mirrors,
}
use rocket_toolkit.ProcessManager.EventStore.Sql.Numbered.{
  IsNumbered-append, has_key-rows_of, has_version_before, has_version_behind, rows_of-append,
}

module _ {O X : Type 0} (stream : String) (x : X) (v : World X O) (free : IsFree stream v) where
  -- the in-memory store with one more event in the stream
  abbrev pub remembered : List X → World X O
  remembered xs =
      set_memory (save stream (record { events = xs ++ x ∷ []; version = length xs + 1 }) v.memory)
        v

  memory_appends :
      (xs : List X)
      → v.memory.store stream ≡ stored xs
      → execute (Memory.append_event stream (x ∷ []) (length xs)) v ≡ (returned tt, remembered xs)
  memory_appends [] e = Laws.append_event-creates stream (x ∷ []) 0 v free e
  memory_appends (y ∷ xs) e =
      Laws.append_event-succeeds stream (x ∷ [])
        (record { events = y ∷ xs; version = length (y ∷ xs) }) v free e

  pub memory_conflicts :
      (expected : ℕ) (xs : List X)
      → v.memory.store stream ≡ stored xs
      → xs ≢ []
      → length xs ≢ expected
      → execute (Memory.append_event stream (x ∷ []) expected) v
        ≡ (threw (concurrency_error expected (length xs)), v)
  memory_conflicts expected [] e some_event other = absurd (some_event refl)
  memory_conflicts expected (y ∷ xs) e some_event other =
      Laws.append_event-conflict stream (x ∷ []) expected
        (record { events = y ∷ xs; version = length (y ∷ xs) }) v free e other

module _ {C O X : Type 0} (db : Database C O X) (index : IsUniqueIndex db.refuses)
    (f : String → List X) (w : SqlWorld C O) (v : World X O) (m : Mirrors db f w v) (c : C)
    (connected : w.pool ≡ some c) (stream : String) where
  pub taken :
      (expected : ℕ) → expected < length (f stream) → has_key stream (expected + 1) w.table ≡ true
  taken expected less =
      let h = m.in_rows stream in
      has_key-rows_of stream (expected + 1) w.table
      ∙ has_version_before 1 (expected + 1) (rows_of stream w.table) h.numbered (omega arith)
          (omega (arith, less, length-HasData db (f stream) (rows_of stream w.table) h.contents))

  pub not_taken :
      (expected : ℕ) → length (f stream) ≤ expected → has_key stream (expected + 1) w.table ≡ false
  not_taken expected less =
      let h = m.in_rows stream in
      has_key-rows_of stream (expected + 1) w.table
      ∙ has_version_behind 1 (expected + 1) (rows_of stream w.table) h.numbered
          (omega (arith, less, length-HasData db (f stream) (rows_of stream w.table) h.contents))

  module _ (x : X) where
    -- the database with one more row
    abbrev pub recorded : SqlWorld C O
    recorded = record w {
      table = w.table ++ rows_for db stream (x ∷ []) (length (f stream)) w;
      ids = suc w.ids;
    }

    abbrev pub extended : String → List X
    extended = put f stream (f stream ++ x ∷ [])

    recorded_self : Holds db (f stream ++ x ∷ []) (rows_of stream recorded.table)
    unfolding new_rows
    recorded_self =
        let h = m.in_rows stream in
        let rows = rows_of stream w.table in
        let more = rows_for db stream (x ∷ []) (length (f stream)) w in
        subst (λ rows. Holds db (f stream ++ x ∷ []) rows)
          (sym (
            rows_of-append stream w.table more
            ∙ ap (λ b. rows ++ (if b then more else [])) (eq_refl stream)))
          (record {
            numbered =
                IsNumbered-append 1 rows _ h.numbered
                  (omega (arith, length-HasData db (f stream) rows h.contents));
            contents = HasData-append db (f stream) rows x _ h.contents refl;
          })

    recorded_ne :
        (other : String)
        → str_eq stream other ≡ false
        → Holds db (f other) (rows_of other recorded.table)
    unfolding new_rows
    recorded_ne other ne =
        let more = rows_for db stream (x ∷ []) (length (f stream)) w in
        subst (λ rows. Holds db (f other) rows)
          (sym (
            rows_of-append other w.table more
            ∙ ap (λ b. rows_of other w.table ++ (if b then more else [])) ne
            ∙ append-nil (rows_of other w.table)))
          (m.in_rows other)

    recorded_rows : (s : String) → Holds db (extended s) (rows_of s recorded.table)
    recorded_rows s = elim (Bool-cases (str_eq stream s)) [
      | inl e ↦
          let same = (eq_iff stream s).0 e in
          rw e (
            subst (λ s. Holds db (f stream ++ x ∷ []) (rows_of s recorded.table)) same
              recorded_self)
      | inr e ↦ rw e (recorded_ne s e)
    ]

    remembered_memory :
        (free : IsFree stream v) (s : String)
        → (remembered stream x v free (f stream)).memory.store s ≡ stored (extended s)
    unfolding save
    remembered_memory free s = elim (Bool-cases (str_eq stream s)) [
      | inl e ↦ rw e (sym (stored-append (f stream) x))
      | inr e ↦ rw e (m.in_memory s)
    ]

    -- When both stores keep the histories of `f`, with a connection, the unique index and a free
    -- lock, an append of one event at the length of the history of the stream succeeds in both, and
    -- both then keep the histories in which that event is added to the stream.
    pub append_event-mirrored :
        (free : IsFree stream v)
        → (execute (Sql.append_event db stream (x ∷ []) (length (f stream))) w
            ≡ (returned tt, recorded))
          × (execute (Memory.append_event stream (x ∷ []) (length (f stream))) v
              ≡ (returned tt, remembered stream x v free (f stream)))
          × Mirrors db extended recorded (remembered stream x v free (f stream))
    append_event-mirrored free = (
      append_event-free db index stream (length (f stream)) c w connected x
          (not_taken (length (f stream)) (omega arith)),
      memory_appends stream x v free (f stream) (m.in_memory stream),
      record { in_rows = recorded_rows; in_memory = remembered_memory free },
    )
