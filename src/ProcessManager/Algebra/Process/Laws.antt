-- ===== src/ProcessManager/Algebra/Process/Laws.antt =====
-- The laws of `bind`, `map`, `pipe` and `Do` of process-algebra.ts.
use mathlib.Core.List.{foldl-append}
use rocket_toolkit.Prelude.{◌≡◌, refl, sym, ap, ◌∙◌, fun_ext, List, ◌++◌}
use rocket_toolkit.ProcessManager.Effect
use rocket_toolkit.ProcessManager.Effect.{Effect}
use rocket_toolkit.ProcessManager.Effect.Monad
use rocket_toolkit.ProcessManager.Algebra.State.{
  ProcessState, Reply, in_progress, succeeded, failed, null, result, map_value, map_reply,
}
use rocket_toolkit.ProcessManager.Algebra.Process.{
  Process, ProcessResult, pure, bind, bind_result, bind_reply, map_process, pipe, Generator, done,
  yield_process, do_process, step,
}

-- A result with an effect put in front of its own.
abbrev pub after :
    {W S E R : Type 0} → Effect W (Unit {0}) → ProcessResult W S E R → ProcessResult W S E R
after effect (next_effect, state) = (Effect.bind effect (λ _. next_effect), state)

module _ {W I S E A B C : Type 0} (f : A → Process W I S E B) (g : B → Process W I S E C)
    (i : I) where
  abbrev then : A → Process W I S E C
  then a = bind (f a) g

  bind-after :
      (effect : Effect W (Unit {0})) (next_effect : Effect W (Unit {0})) (p : ProcessState W S E B)
      → bind_result g i (Effect.bind effect (λ _. next_effect)) p
        ≡ after effect (bind_result g i next_effect p)
  unfolding bind_result
  bind-after effect next_effect (succeeded s v) =
      λ k. (Monad.bind_assoc effect (λ _. next_effect) (λ _. (g v i s).0) k, (g v i s).1)
  bind-after effect next_effect (failed s e) = refl
  bind-after effect next_effect (in_progress s n) = refl

  mutual
    unfolding bind bind_result

    bind_result_assoc :
        (effect : Effect W (Unit {0})) (p : ProcessState W S E A)
        → (let (e, q) = bind_result f i effect p in bind_result g i e q)
          ≡ bind_result then i effect p
    bind_result_assoc effect (succeeded s v) = bind-after effect (f v i s).0 (f v i s).1
    bind_result_assoc effect (failed s e) = refl
    bind_result_assoc effect (in_progress s n) =
        ap (λ next. (effect, in_progress s next)) (fun_ext λ event. bind_reply_assoc (n event))

    bind_reply_assoc : (r : Reply W S E A) → bind_reply g i (bind_reply f i r) ≡ bind_reply then i r
    bind_reply_assoc null = refl
    bind_reply_assoc (result effect p) = ap (λ (e, q). result e q) (bind_result_assoc effect p)

-- Sequencing is associative: the same effects in the same order, the same states, and the same
-- answers to every event.
pub bind-bind :
    {W I S E A B C : Type 0} (p : Process W I S E A) (f : A → Process W I S E B)
    (g : B → Process W I S E C)
    → bind (bind p f) g ≡ bind p (λ a. bind (f a) g)
unfolding bind
bind-bind p f g = fun_ext λ i. fun_ext λ s. bind_result_assoc f g i (p i s).0 (p i s).1

-- A process that only returns a value adds nothing in front of a process.
pub pure-bind : {W I S E A B : Type 0} (a : A) (f : A → Process W I S E B) → bind (pure a) f ≡ f a
unfolding bind bind_result pure Effect.bind
pure-bind a f = refl

module _ {W I S E A B : Type 0} (f : A → B) (i : I) where
  mutual
    unfolding bind_result pure map_value

    bind_pure_result :
        (effect : Effect W (Unit {0})) (p : ProcessState W S E A)
        → bind_result (λ a. pure {W = W} {I = I} (f a)) i effect p ≡ (effect, map_value f p)
    bind_pure_result effect (succeeded s v) =
        ap (λ (e : Effect W (Unit {0})). (e, succeeded s (f v))) (Monad.bind-pure effect)
    bind_pure_result effect (failed s e) = refl
    bind_pure_result effect (in_progress s n) =
        ap (λ next. (effect, in_progress s next)) (fun_ext λ event. bind_pure_reply (n event))

    bind_pure_reply :
        (r : Reply W S E A) → bind_reply (λ a. pure {W = W} {I = I} (f a)) i r ≡ map_reply f r
    bind_pure_reply null = refl
    bind_pure_reply (result effect p) = ap (λ (e, q). result e q) (bind_pure_result effect p)

-- `map` is `bind` to a process that returns the mapped value.
pub map_process-bind :
    {W I S E A B : Type 0} (f : A → B) (p : Process W I S E A)
    → map_process f p ≡ bind p (λ a. pure (f a))
unfolding bind map_process
map_process-bind f p = fun_ext λ i. fun_ext λ s. sym (bind_pure_result f i (p i s).0 (p i s).1)

-- A pipe of two stretches of functions is the pipe of the second after the first.
pub pipe-append :
    {W I S E A : Type 0} (p : Process W I S E A) (fs gs : List (A → Process W I S E A))
    → pipe p (fs ++ gs) ≡ pipe (pipe p fs) gs
unfolding pipe
pipe-append p fs gs = rw foldl-append

-- JavaScript's `yield* inner`, and then `rest` on what `inner` returned.
pub delegate :
    {W I S E V A B : Type 0}
    → Generator W I S E V A
    → (A → Generator W I S E V B)
    → Generator W I S E V B
delegate (done value) rest = rest value
delegate (yield_process yielded resume) rest = yield_process yielded (λ v. delegate (resume v) rest)

step-delegate :
    {W I S E V A B : Type 0} (inner : Generator W I S E V A) (rest : A → Generator W I S E V B)
    → step (delegate inner rest) ≡ bind (step inner) (λ a. step (rest a))
unfolding step delegate bind bind_result pure Effect.bind
step-delegate (done value) rest = refl
step-delegate (yield_process yielded resume) rest =
    ap (bind yielded) (fun_ext λ v. step-delegate (resume v) rest)
    ∙ sym (bind-bind yielded (λ v. step (resume v)) (λ a. step (rest a)))

module _ {W I S E A B : Type 0} (f g : A → Process W I S E B) (i : I)
    (same : (a : A) (s : S) → f a i s ≡ g a i s) where
  mutual
    unfolding bind_result

    bind_result_congr :
        (effect : Effect W (Unit {0})) (p : ProcessState W S E A)
        → bind_result f i effect p ≡ bind_result g i effect p
    bind_result_congr effect (succeeded s v) =
        ap (λ (e, q). (Effect.bind effect (λ _. e), q)) (same v s)
    bind_result_congr effect (failed s e) = refl
    bind_result_congr effect (in_progress s n) =
        ap (λ next. (effect, in_progress s next)) (fun_ext λ event. bind_reply_congr (n event))

    bind_reply_congr : (r : Reply W S E A) → bind_reply f i r ≡ bind_reply g i r
    bind_reply_congr null = refl
    bind_reply_congr (result effect p) = ap (λ (e, q). result e q) (bind_result_congr effect p)

-- A stretch of a `Do` block can be taken out into a `Do` block of its own: the process is the same.
pub do_process-delegate :
    {W I S E V A B : Type 0} (inner : I → Generator W I S E V A)
    (rest : I → A → Generator W I S E V B) (i : I) (s : S)
    → do_process (λ j. delegate (inner j) (rest j)) i s
      ≡ bind (do_process inner) (λ a. do_process (λ j. rest j a)) i s
unfolding do_process bind
do_process-delegate inner rest i s =
    ap (λ p. p i s) (step-delegate (inner i) (rest i))
    ∙ bind_result_congr (λ a. step (rest i a)) (λ a. do_process (λ j. rest j a)) i (λ a t. refl)
        (step (inner i) i s).0 (step (inner i) i s).1
