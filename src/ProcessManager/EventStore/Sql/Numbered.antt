-- ===== src/ProcessManager/EventStore/Sql/Numbered.antt =====
-- Rows of one stream whose versions count up by one.
use rocket_toolkit.Prelude.{
  ℕ, suc, ◌+◌, ◌≤◌, ◌<◌, ◌≡◌, ◌≢◌, refl, sym, ap, ◌∙◌, String, Bool, true, false, ◌||◌, Bool-cases,
  inl, inr, List, [], ◌∷◌, ◌++◌, str_eq, eq_iff, ◌==◌, ltb, if◌then◌else◌, length, arith,
}
use rocket_toolkit.ProcessManager.EventStore.Sql.{
  Row, rows_of, rows_but, by_version, insert_by_version,
}
use rocket_toolkit.ProcessManager.EventStore.Sql.Index.{has_key}

abbrev pub IsNumbered : ℕ → List Row → Type 0
IsNumbered k [] = Unit
IsNumbered k (row ∷ rows) = (row.stream_version ≡ k) × IsNumbered (suc k) rows

pub IsNumbered-append :
    (k : ℕ) (rows : List Row) (row : Row)
    → IsNumbered k rows
    → row.stream_version ≡ k + length rows
    → IsNumbered k (rows ++ row ∷ [])
IsNumbered-append k [] row h e = (omega (arith, e), tt)
IsNumbered-append k (first ∷ rows) row (e, h) last =
    (e, IsNumbered-append (suc k) rows row h (omega (arith, last)))

insert_first :
    (k : ℕ) (row : Row) (rows : List Row)
    → row.stream_version ≡ k
    → IsNumbered (suc k) rows
    → insert_by_version row rows ≡ row ∷ rows
insert_first k row [] e h = refl
insert_first k row (first ∷ rows) e (f, h) =
    let less : ltb first.stream_version row.stream_version ≡ false = ground arith in
    ap (λ b. if b then first ∷ insert_by_version row rows else row ∷ first ∷ rows) less

-- `ORDER BY` leaves them as they are.
pub by_version_numbered : (k : ℕ) (rows : List Row) → IsNumbered k rows → by_version rows ≡ rows
by_version_numbered k [] h = refl
by_version_numbered k (row ∷ rows) (e, h) =
    ap (insert_by_version row) (by_version_numbered (suc k) rows h) ∙ insert_first k row rows e h

abbrev pub has_version : ℕ → List Row → Bool
has_version version [] = false
has_version version (row ∷ rows) = (row.stream_version == version) || has_version version rows

pub has_key-rows_of :
    (stream : String) (version : ℕ) (table : List Row)
    → has_key stream version table ≡ has_version version (rows_of stream table)
has_key-rows_of stream version [] = refl
has_key-rows_of stream version (row ∷ rows) = elim (Bool-cases (str_eq row.stream_id stream)) [
  | inl e ↦
      rw e (ap (λ b. (row.stream_version == version) || b) (has_key-rows_of stream version rows))
  | inr e ↦ rw e (has_key-rows_of stream version rows)
]

pub has_version_before :
    (k version : ℕ) (rows : List Row)
    → IsNumbered k rows
    → k ≤ version
    → version < k + length rows
    → has_version version rows ≡ true
has_version_before k version [] h from to = absurd (omega (arith, from, to))
has_version_before k version (row ∷ rows) (e, h) from to =
    ground (arith, has_version_before (suc k) version rows h)

pub has_version_behind :
    (k version : ℕ) (rows : List Row)
    → IsNumbered k rows
    → k + length rows ≤ version
    → has_version version rows ≡ false
has_version_behind k version [] h from = refl
has_version_behind k version (row ∷ rows) (e, h) from =
    ground (arith, has_version_behind (suc k) version rows h)

pub rows_of-append :
    (stream : String) (s t : List Row)
    → rows_of stream (s ++ t) ≡ rows_of stream s ++ rows_of stream t
rows_of-append stream [] t = refl
rows_of-append stream (row ∷ s) t = elim (Bool-cases (str_eq row.stream_id stream)) [
  | inl e ↦ rw e (ap (λ (l : List Row). row ∷ l) (rows_of-append stream s t))
  | inr e ↦ rw e (rows_of-append stream s t)
]

-- `DELETE` takes the rows of one stream, and leaves those of every other.
pub rows_of-rows_but_self :
    (stream : String) (t : List Row) → rows_of stream (rows_but stream t) ≡ []
rows_of-rows_but_self stream [] = refl
rows_of-rows_but_self stream (row ∷ t) = elim (Bool-cases (str_eq row.stream_id stream)) [
  | inl e ↦ rw e (rows_of-rows_but_self stream t)
  | inr e ↦ rw (e, e) (rows_of-rows_but_self stream t)
]

pub str_eq-ne : (a b : String) → a ≢ b → str_eq a b ≡ false
str_eq-ne a b ne = elim (Bool-cases (str_eq a b)) [
  | inl e ↦ absurd (ne ((eq_iff a b).0 e))
  | inr e ↦ e
]

pub rows_of-rows_but_ne :
    (stream other : String) (t : List Row)
    → other ≢ stream
    → rows_of other (rows_but stream t) ≡ rows_of other t
rows_of-rows_but_ne stream other [] ne = refl
rows_of-rows_but_ne stream other (row ∷ t) ne = elim (Bool-cases (str_eq row.stream_id stream)) [
  | inl e ↦
      let away : str_eq row.stream_id other ≡ false =
        str_eq-ne row.stream_id other (λ same. ne (sym same ∙ (eq_iff row.stream_id stream).0 e)) in
      rw (e, away) (rows_of-rows_but_ne stream other t ne)
  | inr e ↦ elim (Bool-cases (str_eq row.stream_id other)) [
    | inl f ↦ rw (e, f) (ap (λ (l : List Row). row ∷ l) (rows_of-rows_but_ne stream other t ne))
    | inr f ↦ rw (e, f) (rows_of-rows_but_ne stream other t ne)
  ]
]
