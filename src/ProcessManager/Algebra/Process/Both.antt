-- ===== src/ProcessManager/Algebra/Process/Both.antt =====
-- `Process.both`: two processes on one instance, whose states are merged.
use rocket_toolkit.Prelude.{◌≡◌, refl, ap, ◌∙◌, false, List}
use rocket_toolkit.ProcessManager.Algebra.State.{
  ProcessState, in_progress, succeeded, failed, replay, map_value, map_state, apply,
}
use rocket_toolkit.ProcessManager.Algebra.State.Laws.{replay-map_value, replay-map_state}
use rocket_toolkit.ProcessManager.Algebra.State.Apply.{has_failed, replay-apply}
use rocket_toolkit.ProcessManager.Algebra.Process.{Process, both}

-- What two processes that have both ended, or have not, make together.
abbrev pub pair_states :
    {W S E A B : Type 0}
    → (S → S → S)
    → ProcessState W S E A
    → ProcessState W S E B
    → ProcessState W S E (A × B)
pair_states {A} {B} merge p q =
    let pair : A → B → A × B = λ a b. (a, b) in
    map_state (λ (l, r). merge l r) (apply (map_value pair p) q)

has_failed-map_value :
    {W S E A B : Type 0} (f : A → B) (p : ProcessState W S E A)
    → has_failed (map_value f p) ≡ has_failed p
unfolding map_value
has_failed-map_value f (in_progress s n) = refl
has_failed-map_value f (succeeded s v) = refl
has_failed-map_value f (failed s e) = refl

module _ {W I S E A B : Type 0} (left : Process W I S E A) (right : Process W I S E B)
    (merge : S → S → S) (i : I) (s : S) (events : List E) where
  -- While neither side fails, `both` goes through the pairs of the states that the two sides reach
  -- alone on the same events.
  pub replay-both :
      has_failed (replay (left i s).1 events) ≡ false
      → has_failed (replay (right i s).1 events) ≡ false
      → replay (both left right merge i s).1 events
        ≡ pair_states merge (replay (left i s).1 events) (replay (right i s).1 events)
  unfolding both
  replay-both h k =
      let pair : A → B → A × B = λ a b. (a, b) in
      replay-map_state (λ (l, r). merge l r) (apply (map_value pair (left i s).1) (right i s).1)
        events
      ∙ ap (map_state (λ (l, r). merge l r)) (
          replay-apply (map_value pair (left i s).1) (right i s).1 events
            (rw replay-map_value (has_failed-map_value pair (replay (left i s).1 events) ∙ h)) k
          ∙ ap (λ p. apply p (replay (right i s).1 events))
              (replay-map_value pair (left i s).1 events))

  -- When both sides succeed on the events, in whatever order, `both` succeeds with the pair of their
  -- values and the merge of their states.
  pub replay-both_succeeded :
      (t u : S) (a : A) (b : B)
      → replay (left i s).1 events ≡ succeeded t a
      → replay (right i s).1 events ≡ succeeded u b
      → replay (both left right merge i s).1 events ≡ succeeded (merge t u) (a, b)
  unfolding apply map_value map_state
  replay-both_succeeded t u a b l r = replay-both (rw l) (rw r) ∙ rw (l, r)
