-- ===== src/ProcessManager/EventStore/Sql/Compare.antt =====
-- The answers of the two event stores of packages/process-manager, where both keep the same
-- histories.
use mathlib.Core.Path.{subst}
use rocket_toolkit.Prelude.{
  ℕ, suc, ◌+◌, ◌<◌, ◌≡◌, ◌≢◌, refl, sym, ap, ◌∙◌, String, Bool, true, false, Bool-cases, inl, inr,
  none, some, List, [], ◌∷◌, ◌++◌, str_eq, eq_iff, if◌then◌else◌, length, arith,
}
use rocket_toolkit.ProcessManager.Effect.{concurrency_error}
use rocket_toolkit.ProcessManager.Effect.Run.{execute, returned, threw, outcome}
use rocket_toolkit.ProcessManager.EventStore.Memory
use rocket_toolkit.ProcessManager.EventStore.Memory.{
  World, set_memory, put, is_stored, loaded, remove,
}
use rocket_toolkit.ProcessManager.EventStore.Memory.Laws.{IsFree}
use rocket_toolkit.ProcessManager.EventStore.Sql
use rocket_toolkit.ProcessManager.EventStore.Sql.{
  Row, SqlWorld, Database, rows_of, rows_but, by_version, parsed_rows, is_empty, rows_for,
}
use rocket_toolkit.ProcessManager.EventStore.Sql.Connections
use rocket_toolkit.ProcessManager.EventStore.Sql.Index.{
  IsUniqueIndex, append_event-free, append_event-taken,
}
use rocket_toolkit.ProcessManager.EventStore.Sql.Mirrored.{
  stored, HasData, IsFaithful, parsed_rows-HasData, Holds, Mirrors,
}
use rocket_toolkit.ProcessManager.EventStore.Sql.Numbered.{
  by_version_numbered, rows_of-rows_but_self, rows_of-rows_but_ne,
}
use rocket_toolkit.ProcessManager.EventStore.Sql.Refines.{memory_conflicts, taken, not_taken}

abbrev has_events : {X : Type 0} → List X → Bool
has_events [] = false
has_events (x ∷ xs) = true

loaded-stored : {X : Type 0} (xs : List X) → loaded none (stored xs) ≡ xs
loaded-stored [] = refl
loaded-stored (x ∷ xs) = refl

is_stored-stored : {X : Type 0} (xs : List X) → is_stored (stored xs) ≡ has_events xs
is_stored-stored [] = refl
is_stored-stored (x ∷ xs) = refl

is_empty-HasData :
    {C O X : Type 0} (db : Database C O X) (xs : List X) (rows : List Row)
    → HasData db xs rows
    → (if is_empty rows then false else true) ≡ has_events xs
is_empty-HasData db [] [] h = refl
is_empty-HasData db [] (row ∷ rows) h = absurd h
is_empty-HasData db (x ∷ xs) [] h = absurd h
is_empty-HasData db (x ∷ xs) (row ∷ rows) h = refl

ne_nil_of_length : {X : Type 0} (xs : List X) (n : ℕ) → n < length xs → xs ≢ []
ne_nil_of_length xs n less e = omega (arith, less, ap (λ xs. length xs) e)

module _ {C O X : Type 0} (db : Database C O X) (index : IsUniqueIndex db.refuses)
    (f : String → List X) (w : SqlWorld C O) (v : World X O) (m : Mirrors db f w v) (c : C)
    (connected : w.pool ≡ some c) (stream : String) where
  module _ (free : IsFree stream v) (x : X) (expected : ℕ) where
    -- When both stores keep the histories of `f`, with a connection, the unique index and a free
    -- lock, an append of one event at a version before the end of the history of the stream throws a
    -- `ConcurrencyError` in both; nothing is written, but that the database has used up an id.
    pub append_event-conflicts :
        expected < length (f stream)
        → (execute (Sql.append_event db stream (x ∷ []) expected) w
            ≡ (threw (concurrency_error expected (expected + 1)), record w { ids = suc w.ids }))
          × (execute (Memory.append_event stream (x ∷ []) expected) v
              ≡ (threw (concurrency_error expected (length (f stream))), v))
    append_event-conflicts less = (
      append_event-taken db index stream expected c w connected x
          (taken db index f w v m c connected stream expected less),
      memory_conflicts stream x v free expected (f stream) (m.in_memory stream)
          (ne_nil_of_length (f stream) expected less) (λ e. omega (arith, less, e)),
    )

    -- Past the end of a history that is not empty they differ: the in-memory store throws a
    -- `ConcurrencyError`, while the database inserts the event and leaves a gap in the versions.
    pub append_event-past_end :
        f stream ≢ []
        → length (f stream) < expected
        → (execute (Sql.append_event db stream (x ∷ []) expected) w ≡ (
          returned tt,
          record w { table = w.table ++ rows_for db stream (x ∷ []) expected w; ids = suc w.ids },
        ))
          × (execute (Memory.append_event stream (x ∷ []) expected) v
              ≡ (threw (concurrency_error expected (length (f stream))), v))
    append_event-past_end some_event more = (
      append_event-free db index stream expected c w connected x
          (not_taken db index f w v m c connected stream expected (omega (arith, more))),
      memory_conflicts stream x v free expected (f stream) (m.in_memory stream) some_event
          (λ e. omega (arith, more, e)),
    )

  -- When both stores keep the histories of `f`, with a connection, and JSON reads back what it wrote,
  -- both load the history of the stream, and both say of it that it exists exactly when it is not
  -- empty; neither call changes anything.
  pub answers_mirrored :
      IsFaithful db
      → (execute (Sql.load_events db stream none) w ≡ (returned (f stream), w))
        × (execute (Memory.load_events stream none) v ≡ (returned (f stream), v))
        × (execute (Sql.stream_exists db stream) w ≡ (returned (has_events (f stream)), w))
        × (execute (Memory.stream_exists stream) v ≡ (returned (has_events (f stream)), v))
  unfolding Memory.load_events Memory.stream_exists execute
  answers_mirrored faithful =
      let h = m.in_rows stream in
      let rows = rows_of stream w.table in
      (
        Connections.execute-load_events db stream c w connected
            ∙ ap (λ rows. (outcome (parsed_rows db.parse rows), w))
                (by_version_numbered 1 rows h.numbered)
            ∙ ap (λ read. (outcome read, w))
                (parsed_rows-HasData db faithful (f stream) rows h.contents),
        ap (λ found. (returned (loaded none found), v)) (m.in_memory stream)
            ∙ ap (λ events. (returned events, v)) (loaded-stored (f stream)),
        Connections.execute-stream_exists db stream c w connected
            ∙ ap (λ b. (returned b, w)) (is_empty-HasData db (f stream) rows h.contents),
        ap (λ found. (returned (is_stored found), v)) (m.in_memory stream)
            ∙ ap (λ b. (returned b, v)) (is_stored-stored (f stream)),
      )

  -- the stores without the stream
  abbrev pub emptied : SqlWorld C O
  emptied = record w { table = rows_but stream w.table }

  abbrev pub forgotten : World X O
  forgotten = set_memory (remove stream v.memory) v

  emptied_rows : (s : String) → Holds db (put f stream [] s) (rows_of s emptied.table)
  emptied_rows s = elim (Bool-cases (str_eq stream s)) [
    | inl e ↦
        let same = (eq_iff stream s).0 e in
        rw e (
          subst (λ s. Holds db [] (rows_of s emptied.table)) same
            (subst (λ rows. Holds db [] rows) (sym (rows_of-rows_but_self stream w.table))
              (record { numbered = tt; contents = tt })))
    | inr e ↦ rw e (
        subst (λ rows. Holds db (f s) rows)
          (sym (
            rows_of-rows_but_ne stream s w.table
              (λ same. elim_false (sym e ∙ (eq_iff stream s).1 (sym same)))))
          (m.in_rows s))
  ]
    where
      elim_false : false ≡ true → ⊥
      elim_false p = cc

  forgotten_memory : (s : String) → forgotten.memory.store s ≡ stored (put f stream [] s)
  unfolding remove
  forgotten_memory s = elim (Bool-cases (str_eq stream s)) [
    | inl e ↦ rw e refl
    | inr e ↦ rw e (m.in_memory s)
  ]

  -- When both stores keep the histories of `f`, with a connection, deleting the stream succeeds in
  -- both, and both then keep the histories of `f` with none for the stream.
  pub delete_stream-mirrored :
      (execute (Sql.delete_stream db stream) w ≡ (returned tt, emptied))
      × (execute (Memory.delete_stream stream) v ≡ (returned tt, forgotten))
      × Mirrors db (put f stream []) emptied forgotten
  unfolding Memory.delete_stream execute
  delete_stream-mirrored = (
    Connections.execute-delete_stream db stream c w connected,
    refl,
    record { in_rows = emptied_rows; in_memory = forgotten_memory },
  )
