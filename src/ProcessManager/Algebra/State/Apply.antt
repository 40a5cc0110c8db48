-- ===== src/ProcessManager/Algebra/State/Apply.antt =====
-- `ProcessState.apply`: two processes side by side, each of which takes the events that it accepts.
use rocket_toolkit.Prelude.{
  ◌≡◌, refl, sym, ap, ◌∙◌, fun_ext, Bool, true, false, ◌&&◌, ◌||◌, List, [], ◌∷◌,
}
use rocket_toolkit.ProcessManager.Effect.{bind}
use rocket_toolkit.ProcessManager.Algebra.State.{
  ProcessState, Reply, in_progress, succeeded, failed, null, result, advance, settle, replay,
  map_value, map_state, apply, apply_reply, apply_running, apply_to_reply, join,
}
use rocket_toolkit.ProcessManager.Algebra.State.Laws.{
  advance-map_value, advance-map_state, replay-failed,
}

abbrev pub has_failed : {W S E R : Type 0} → ProcessState W S E R → Bool
has_failed (failed s e) = true
has_failed (in_progress s next) = false
has_failed (succeeded s v) = false

abbrev pub has_succeeded : {W S E R : Type 0} → ProcessState W S E R → Bool
has_succeeded (succeeded s v) = true
has_succeeded (in_progress s next) = false
has_succeeded (failed s e) = false

failed_before :
    {W S E R : Type 0} (p : ProcessState W S E R) (event : E) (events : List E)
    → has_failed (replay (advance p event) events) ≡ false
    → has_failed p ≡ false
failed_before (in_progress s n) event events h = refl
failed_before (succeeded s v) event events h = refl
failed_before (failed s e) event events h = rw replay-failed at h

module _ {W S E A B : Type 0} where
  -- The four cases of the closure in `apply`, on what the two sides answer.
  abbrev pub replies :
      ProcessState W S E (A → B)
      → ProcessState W S E A
      → Reply W S E (A → B)
      → Reply W S E A
      → Reply W (S × S) E B
  replies f state null null = null
  replies f state (result eff_f next_f) null = result eff_f (apply next_f state)
  replies f state null (result eff_state next_state) = result eff_state (apply f next_state)
  replies f state (result eff_f next_f) (result eff_state next_state) =
      result (bind eff_f (λ _. eff_state)) (apply next_f next_state)

  module _ (s t : S) (n : E → Reply W S E (A → B)) (m : E → Reply W S E A) where
    pub apply-in_progress :
        apply (in_progress s n) (in_progress t m)
        ≡ in_progress
            (s, t)
            (λ event. replies (in_progress s n) (in_progress t m) (n event) (m event))
    unfolding apply join apply_running
    apply-in_progress = ap (in_progress (s, t)) (fun_ext λ event. cases (n event) (m event))
      where
        cases :
            (p : Reply W S E (A → B)) (q : Reply W S E A)
            → join
                (apply_reply p)
                (apply_to_reply s
                  (λ t' v. map_state (λ u. (u, t')) (map_value (λ f. f v) (in_progress s n)))
                  (λ event. apply_reply (n event))
                  q)
                (in_progress t m)
              ≡ replies (in_progress s n) (in_progress t m) p q
        cases null null = refl
        cases (result e p) null = refl
        cases null (result e q) = refl
        cases (result e p) (result d q) = refl

  apply-succeeded :
      (f : ProcessState W S E (A → B)) (t : S) (v : A)
      → apply f (succeeded t v) ≡ map_state (λ s. (s, t)) (map_value (λ g. g v) f)
  unfolding apply
  apply-succeeded (succeeded s g) t v = refl
  apply-succeeded (failed s e) t v = refl
  apply-succeeded (in_progress s n) t v = refl

  apply-succeeded_left :
      (s : S) (g : A → B) (p : ProcessState W S E A)
      → apply (succeeded s g) p ≡ map_state (λ t. (s, t)) (map_value g p)
  unfolding apply
  apply-succeeded_left s g p = refl

  settle-replies :
      (f : ProcessState W S E (A → B)) (p : ProcessState W S E A) (x : Reply W S E (A → B))
      (y : Reply W S E A)
      → settle (apply f p) (replies f p x y) ≡ apply (settle f x) (settle p y)
  settle-replies f p null null = refl
  settle-replies f p (result e q) null = refl
  settle-replies f p null (result d r) = refl
  settle-replies f p (result e q) (result d r) = refl

  -- An event goes to both sides, as long as neither has failed.
  pub advance-apply :
      (f : ProcessState W S E (A → B)) (p : ProcessState W S E A) (event : E)
      → has_failed f ≡ false
      → has_failed p ≡ false
      → advance (apply f p) event ≡ apply (advance f event) (advance p event)
  advance-apply (failed s e) p event h k = cc
  advance-apply (succeeded s g) p event h k =
      ap (λ x. advance x event) (apply-succeeded_left s g p)
      ∙ (advance-map_state _ (map_value g p) event
          ∙ (ap (map_state (λ t. (s, t))) (advance-map_value g p event)
              ∙ sym (apply-succeeded_left s g (advance p event))))
  advance-apply (in_progress s n) (succeeded t v) event h k =
      let f = in_progress s n in
      ap (λ x. advance x event) (apply-succeeded f t v)
      ∙ (advance-map_state _ (map_value (λ g. g v) f) event
          ∙ (ap (map_state (λ s. (s, t))) (advance-map_value (λ g. g v) f event)
              ∙ sym (apply-succeeded (advance f event) t v)))
  advance-apply (in_progress s n) (failed t e) event h k = cc
  advance-apply (in_progress s n) (in_progress t m) event h k =
      ap (λ x. advance x event) (apply-in_progress s t n m)
      ∙ (ap (λ x. settle x (replies (in_progress s n) (in_progress t m) (n event) (m event)))
            (sym (apply-in_progress s t n m))
          ∙ settle-replies (in_progress s n) (in_progress t m) (n event) (m event))

  -- Two processes side by side reach what they reach alone, if neither fails on the way: the
  -- events that one of them ignores do not disturb it.
  pub replay-apply :
      (f : ProcessState W S E (A → B)) (p : ProcessState W S E A) (events : List E)
      → has_failed (replay f events) ≡ false
      → has_failed (replay p events) ≡ false
      → replay (apply f p) events ≡ apply (replay f events) (replay p events)
  unfolding replay
  replay-apply f p [] h k = refl
  replay-apply f p (event ∷ events) h k =
      ap (λ x. replay x events)
        (advance-apply f p event (failed_before f event events h) (failed_before p event events k))
      ∙ replay-apply (advance f event) (advance p event) events h k

  -- The pair has failed exactly when one of the two has.
  pub has_failed-apply :
      (f : ProcessState W S E (A → B)) (p : ProcessState W S E A)
      → has_failed (apply f p) ≡ (has_failed f || has_failed p)
  unfolding apply apply_running map_value map_state
  has_failed-apply (failed s e) (failed t d) = refl
  has_failed-apply (failed s e) (in_progress t m) = refl
  has_failed-apply (failed s e) (succeeded t v) = refl
  has_failed-apply (succeeded s g) (failed t d) = refl
  has_failed-apply (succeeded s g) (in_progress t m) = refl
  has_failed-apply (succeeded s g) (succeeded t v) = refl
  has_failed-apply (in_progress s n) (failed t d) = refl
  has_failed-apply (in_progress s n) (in_progress t m) = refl
  has_failed-apply (in_progress s n) (succeeded t v) = refl

  -- The pair has succeeded exactly when both have.
  pub has_succeeded-apply :
      (f : ProcessState W S E (A → B)) (p : ProcessState W S E A)
      → has_succeeded (apply f p) ≡ (has_succeeded f && has_succeeded p)
  unfolding apply apply_running map_value map_state
  has_succeeded-apply (failed s e) (failed t d) = refl
  has_succeeded-apply (failed s e) (in_progress t m) = refl
  has_succeeded-apply (failed s e) (succeeded t v) = refl
  has_succeeded-apply (succeeded s g) (failed t d) = refl
  has_succeeded-apply (succeeded s g) (in_progress t m) = refl
  has_succeeded-apply (succeeded s g) (succeeded t v) = refl
  has_succeeded-apply (in_progress s n) (failed t d) = refl
  has_succeeded-apply (in_progress s n) (in_progress t m) = refl
  has_succeeded-apply (in_progress s n) (succeeded t v) = refl
