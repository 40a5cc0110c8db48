-- ===== src/ProcessManager/Algebra/Process/Delivery.antt =====
-- What a composed process makes of a sequence of events.
use rocket_toolkit.Prelude.{◌≡◌, refl, sym, ap, ◌∙◌, String, Bool, true, false, List, [], ◌∷◌, ◌++◌}
use rocket_toolkit.ProcessManager.Effect
use rocket_toolkit.ProcessManager.Effect.{Effect}
use rocket_toolkit.ProcessManager.Algebra.State.{
  ProcessState, Reply, in_progress, succeeded, failed, null, result, advance, settle, replay,
}
use rocket_toolkit.ProcessManager.Algebra.State.Laws.{
  replay-append, replay-failed, replay-succeeded,
}
use rocket_toolkit.ProcessManager.Algebra.Process.{Process, bind, bind_result, bind_reply}

abbrev pub is_in_progress : {W S E R : Type 0} → ProcessState W S E R → Bool
is_in_progress (in_progress s n) = true
is_in_progress (succeeded s v) = false
is_in_progress (failed s e) = false

module _ {W I S E A B : Type 0} (f : A → Process W I S E B) (i : I) where
  -- The state that a `bind` reaches does not depend on the effect in front.
  bind_state : ProcessState W S E A → ProcessState W S E B
  bind_state p = (bind_result f i Effect.unit p).1

  bind_result-state :
      (effect : Effect W (Unit {0})) (p : ProcessState W S E A)
      → (bind_result f i effect p).1 ≡ bind_state p
  unfolding bind_state bind_result
  bind_result-state effect (succeeded s v) = refl
  bind_result-state effect (failed s e) = refl
  bind_result-state effect (in_progress s n) = refl

  settle-bind_reply :
      (p : ProcessState W S E A) (r : Reply W S E A)
      → settle (bind_state p) (bind_reply f i r) ≡ bind_state (settle p r)
  unfolding bind_result
  settle-bind_reply p null = refl
  settle-bind_reply p (result effect q) = bind_result-state effect q

  advance-bind_state :
      (p : ProcessState W S E A) (event : E)
      → is_in_progress p ≡ true
      → advance (bind_state p) event ≡ bind_state (advance p event)
  unfolding bind_state bind_result
  advance-bind_state (in_progress s n) event h =
      unfold bind_state in settle-bind_reply (in_progress s n) (n event)
  advance-bind_state (succeeded s v) event h = cc
  advance-bind_state (failed s e) event h = cc

  in_progress_before :
      (p : ProcessState W S E A) (event : E) (events : List E)
      → is_in_progress (replay (advance p event) events) ≡ true
      → is_in_progress p ≡ true
  in_progress_before (in_progress s n) event events h = refl
  in_progress_before (succeeded s v) event events h = rw replay-succeeded at h
  in_progress_before (failed s e) event events h = rw replay-failed at h

  replay-bind_state :
      (p : ProcessState W S E A) (events : List E)
      → is_in_progress (replay p events) ≡ true
      → replay (bind_state p) events ≡ bind_state (replay p events)
  unfolding replay
  replay-bind_state p [] h = refl
  replay-bind_state p (event ∷ events) h =
      ap (λ q. replay q events) (advance-bind_state p event (in_progress_before p event events h))
      ∙ replay-bind_state (advance p event) events h

  replay-bind_state_end :
      (p : ProcessState W S E A) (before : List E) (last : E) (later : List E)
      → is_in_progress (replay p before) ≡ true
      → replay (bind_state p) (before ++ last ∷ later)
        ≡ replay (bind_state (replay p (before ++ last ∷ []))) later
  unfolding replay
  replay-bind_state_end p before last later h =
      replay-append (bind_state p) before (last ∷ later)
      ∙ (ap (λ q. replay (advance q last) later) (replay-bind_state p before h)
          ∙ (ap (λ q. replay q later) (advance-bind_state (replay p before) last h)
              ∙ ap (λ q. replay (bind_state q) later) (sym (replay-append p before (last ∷ [])))))

module _ {W I S E A B : Type 0} (p : Process W I S E A) (f : A → Process W I S E B) (i : I) (s : S)
    (before : List E) (last : E) (later : List E) where
  replay-bind :
      is_in_progress (replay (p i s).1 before) ≡ true
      → replay (bind p f i s).1 (before ++ last ∷ later)
        ≡ replay (bind_state f i (replay (p i s).1 (before ++ last ∷ []))) later
  unfolding bind
  replay-bind h =
      ap (λ q. replay q (before ++ last ∷ later)) (bind_result-state f i (p i s).0 (p i s).1)
      ∙ replay-bind_state_end f i (p i s).1 before last later h

  -- When the first process is still waiting after `before` and succeeds on `last`, the composite
  -- gives the events that come later to the second process, started on the same instance with the
  -- value and the state that the first one reached.
  pub replay-bind_succeeded :
      (t : S) (v : A)
      → is_in_progress (replay (p i s).1 before) ≡ true
      → replay (p i s).1 (before ++ last ∷ []) ≡ succeeded t v
      → replay (bind p f i s).1 (before ++ last ∷ later) ≡ replay (f v i t).1 later
  unfolding bind_state bind_result
  replay-bind_succeeded t v h e = replay-bind h ∙ ap (λ q. replay (bind_state f i q) later) e

  -- When the first process is still waiting after `before` and fails on `last`, the composite has
  -- failed with its error and its state, whatever comes later.
  pub replay-bind_failed :
      (t : S) (x : String)
      → is_in_progress (replay (p i s).1 before) ≡ true
      → replay (p i s).1 (before ++ last ∷ []) ≡ failed t x
      → replay (bind p f i s).1 (before ++ last ∷ later) ≡ failed t x
  unfolding bind_state bind_result
  replay-bind_failed t x h e =
      replay-bind h ∙ (ap (λ q. replay (bind_state f i q) later) e ∙ replay-failed t x later)
