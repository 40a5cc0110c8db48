-- ===== src/ProcessManager/Runtime/Histories.antt =====
-- The invariant of the in-memory store that runtimes share, and how the store may change while one
-- of them waits.
use rocket_toolkit.Prelude.{
  ◌≡◌, sym, ap, ◌∙◌, String, Option, none, some, List, [], ◌++◌, append-nil, append_assoc, str_eq,
  eq_iff, Bool-cases, inl, inr,
}
use mathlib.Core.Path.{subst}
use rocket_toolkit.ProcessManager.Effect.Pool.{Growth}
use rocket_toolkit.ProcessManager.EventStore.{StreamData}
use rocket_toolkit.ProcessManager.EventStore.Memory.{World, put}
use rocket_toolkit.ProcessManager.Algebra.State.{ProcessState}
use rocket_toolkit.ProcessManager.Runtime.{RuntimeEvent}
use rocket_toolkit.ProcessManager.Runtime.Replay.{recorded}
use rocket_toolkit.ProcessManager.Runtime.Accepted.{Accepted}

abbrev pub Streams : Type 0 → Type 0
Streams E = String → Option (StreamData (RuntimeEvent E))

-- No event is taken back: a stream keeps its history, and may get more events behind it.
abbrev pub GrowsFrom : {E : Type 0} → Streams E → Streams E → Type 0
GrowsFrom {E} f g =
    (stream : String) (events : List E)
    → f stream ≡ some (recorded events)
    → (more : List E) × (g stream ≡ some (recorded (events ++ more)))

pub GrowsFrom-refl : {E : Type 0} (f : Streams E) → GrowsFrom f f
GrowsFrom-refl f stream events e = ([], e ∙ ap (λ l. some (recorded l)) (sym (append-nil events)))

pub GrowsFrom-trans :
    {E : Type 0} (f g h : Streams E) → GrowsFrom f g → GrowsFrom g h → GrowsFrom f h
GrowsFrom-trans f g h p q stream events e =
    let (more, e') = p stream events e in
    let (most, e'') = q stream (events ++ more) e' in
    (more ++ most, e'' ∙ ap (λ l. some (recorded l)) (append_assoc events more most))

pub GrowsFrom-put :
    {E : Type 0} (f : Streams E) (k : String) (o : Option (StreamData (RuntimeEvent E)))
    → ((events : List E)
        → f k ≡ some (recorded events)
        → (more : List E) × (o ≡ some (recorded (events ++ more))))
    → GrowsFrom f (put f k o)
GrowsFrom-put f k o h stream events e = elim (Bool-cases (str_eq k stream)) [
  | inl same ↦ rw same (h events (ap f ((eq_iff k stream).0 same) ∙ e))
  | inr other ↦ rw other (GrowsFrom-refl f stream events e)
]

-- `start` is the state in which the process of a stream begins.
module _ {E W S : Type 0} (start : String → ProcessState W S E (Unit {0})) where
  -- A stream is a start with accepted events behind it, at the version of that many events.
  abbrev pub IsValid : String → Option (StreamData (RuntimeEvent E)) → Type 0
  IsValid stream none = Unit
  IsValid stream (some d) =
      (events : List E) × (d ≡ recorded events) × Accepted (start stream) events

  abbrev pub AllValid : Streams E → Type 0
  AllValid f = (stream : String) → IsValid stream (f stream)

  pub AllValid-put :
      (f : Streams E) (k : String) (o : Option (StreamData (RuntimeEvent E)))
      → AllValid f
      → IsValid k o
      → AllValid (put f k o)
  AllValid-put f k o valid h stream = elim (Bool-cases (str_eq k stream)) [
    | inl same ↦ rw same (subst (λ j. IsValid j o) ((eq_iff k stream).0 same) h)
    | inr other ↦ rw other (valid stream)
  ]

abbrev pub growth :
    {O E W S : Type 0}
    → (String → ProcessState W S E (Unit {0}))
    → Growth (World (RuntimeEvent E) O)
growth start = record {
  Inv = λ w. AllValid start w.memory.store;
  Grows = λ u v. GrowsFrom u.memory.store v.memory.store;
  grows_refl = λ w. GrowsFrom-refl w.memory.store;
  grows_trans = λ u v w. GrowsFrom-trans u.memory.store v.memory.store w.memory.store;
}
