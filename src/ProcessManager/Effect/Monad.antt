-- ===== src/ProcessManager/Effect/Monad.antt =====
-- The laws of the combinators in effects.ts, as equations between effects.
use mathlib.Core.List.{foldl-append}
use rocket_toolkit.Prelude.{
  ◌≡◌, refl, sym, ap, ◌∙◌, fun_ext, List, [], ◌∷◌, ◌++◌, append-nil, append_assoc,
}
use rocket_toolkit.ProcessManager.Effect.{
  Error, Effect, pure, throw, chunk, bind, catch_error, pipe, sequence, sequence_loop,
}

module _ {W : Type 0} where
  pub bind-pure {ℓ} : {A : Type ℓ} (e : Effect W A) → bind e pure ≡ e
  unfolding bind
  bind-pure (pure a) = refl
  bind-pure (throw x) = refl
  bind-pure (chunk r u k) = ap (chunk r u) (fun_ext λ w. bind-pure (k w))

  pub bind_assoc {ℓ κ μ} :
      {A : Type ℓ} {B : Type κ} {C : Type μ} (e : Effect W A) (f : A → Effect W B)
      (g : B → Effect W C)
      → bind (bind e f) g ≡ bind e (λ a. bind (f a) g)
  unfolding bind
  bind_assoc (pure a) f g = refl
  bind_assoc (throw x) f g = refl
  bind_assoc (chunk r u k) f g = ap (chunk r u) (fun_ext λ w. bind_assoc (k w) f g)

  -- A pipe of two stretches of functions is the pipe of the second after the first.
  pub pipe-append {ℓ} :
      {A : Type ℓ} (e : Effect W A) (fs gs : List (A → Effect W A))
      → pipe e (fs ++ gs) ≡ pipe (pipe e fs) gs
  unfolding pipe
  pipe-append e fs gs = rw foldl-append

  -- An effect that throws makes the whole pipe throw the same error.
  pub pipe-throw {ℓ} :
      {A : Type ℓ} (x : Error) (fs : List (A → Effect W A)) → pipe (throw x) fs ≡ throw x
  unfolding pipe bind
  pipe-throw x [] = refl
  pipe-throw x (f ∷ fs) = pipe-throw x fs

  -- A handler that throws every error again changes nothing.
  pub catch_error-throw {ℓ} : {A : Type ℓ} (e : Effect W A) → catch_error e throw ≡ e
  unfolding catch_error
  catch_error-throw (pure a) = refl
  catch_error-throw (throw x) = refl
  catch_error-throw (chunk r u k) = ap (chunk r u) (fun_ext λ w. catch_error-throw (k w))

  sequence_loop-eq {ℓ} :
      {A : Type ℓ} (results : List A) (es : List (Effect W A))
      → sequence_loop results es ≡ bind (sequence_loop [] es) (λ more. pure (results ++ more))
  unfolding sequence_loop bind
  sequence_loop-eq results [] = rw append-nil
  sequence_loop-eq results (e ∷ es) =
      ap (bind e) (
        fun_ext λ a.
          sequence_loop-eq (results ++ a ∷ []) es
          ∙ (ap (bind (sequence_loop [] es))
                (fun_ext λ more. ap pure (append_assoc results (a ∷ []) more))
              ∙ (sym (bind_assoc (sequence_loop [] es) _ _)
                  ∙ ap (λ m. bind m (λ more. pure (results ++ more)))
                      (sym (sequence_loop-eq (a ∷ []) es)))))
      ∙ sym (bind_assoc e _ _)

  -- The accumulating loop runs the first effect, then the others, and puts its result first.
  pub sequence-cons {ℓ} :
      {A : Type ℓ} (e : Effect W A) (es : List (Effect W A))
      → sequence (e ∷ es) ≡ bind e (λ a. bind (sequence es) (λ more. pure (a ∷ more)))
  unfolding sequence sequence_loop
  sequence-cons e es = ap (bind e) (fun_ext λ a. sequence_loop-eq (a ∷ []) es)

  pub pure-bind_const {ℓ κ μ} :
      {A : Type ℓ} {B : Type κ} {C : Type μ} (e : Effect W A) (g : A → B) (n : Effect W C)
      → bind (bind e (λ a. pure (g a))) (λ _. n) ≡ bind e (λ _. n)
  unfolding bind
  pure-bind_const e g n = bind_assoc e _ _

  -- The loop stops at the first effect that throws: those behind it are not run.
  pub sequence-append_throw {ℓ} :
      {A : Type ℓ} (es : List (Effect W A)) (x : Error) (later : List (Effect W A))
      → sequence (es ++ throw x ∷ later) ≡ bind (sequence es) (λ _. throw x)
  unfolding bind
  sequence-append_throw [] x later = rw sequence-cons (unfold sequence sequence_loop in refl)
  sequence-append_throw (e ∷ es) x later =
      sequence-cons e (es ++ throw x ∷ later)
      ∙ (ap (bind e) (
            fun_ext λ a.
              ap (λ m. bind m (λ more. pure (a ∷ more))) (sequence-append_throw es x later)
              ∙ (bind_assoc (sequence es) _ _
                  ∙ sym (pure-bind_const (sequence es) (λ more. a ∷ more) (throw x))))
          ∙ (sym (bind_assoc e _ _) ∙ ap (λ m. bind m (λ _. throw x)) (sym (sequence-cons e es))))
