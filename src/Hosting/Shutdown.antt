-- ===== src/Hosting/Shutdown.antt =====
-- packages/graceful-shutdown/src/gracefulShutdown.ts. `process.exit` is recorded; the logger is left
-- out.
use rocket_toolkit.Prelude.{
  ℕ, zero, suc, ◌≡◌, refl, ap, ◌∙◌, String, Bool, true, false, List, [], ◌∷◌, ◌++◌, foldl,
  if◌then◌else◌,
}

-- The flag of the module, the timers that were armed, the reasons that `onShutdown` was called with,
-- and the codes that `exit` was called with.
pub record Process : Type 0 where
  pub is_shutting_down : Bool
  pub timers : ℕ
  pub calls : List String
  pub exits : List ℕ

abbrev pub running : Process
running = record { is_shutting_down = false; timers = 0; calls = []; exits = [] }

-- the chunk of `shutDown` up to the `await`
unfoldable pub shut_down : String → Process → Process
shut_down reason p = if p.is_shutting_down then p else record {
  is_shutting_down = true;
  timers = suc p.timers;
  calls = p.calls ++ reason ∷ [];
  exits = p.exits;
}

abbrev pub exit_with_failure : Process → Process
exit_with_failure p = record p { exits = p.exits ++ 1 ∷ [] }

-- what reaches the process: a signal, an unrecoverable event or a manual call, each with its reason,
-- and then how the one call of `onShutdown` ends, or that its time is over
pub data Happening : Type 0 where
  trigger : String → Happening
  completed : Happening
  failed : Happening
  timed_out : Happening

-- the handlers; the timer has one only when it was armed
unfoldable pub happen : Process → Happening → Process
unfolding shut_down
happen p (trigger reason) = shut_down reason p
happen p completed = p
happen p failed = exit_with_failure p
happen p timed_out = elim p.timers [ zero ↦ p | suc n ↦ exit_with_failure p ]

abbrev pub first_trigger : List Happening → List String
first_trigger [] = []
first_trigger (trigger reason ∷ later) = reason ∷ []
first_trigger (completed ∷ later) = first_trigger later
first_trigger (failed ∷ later) = first_trigger later
first_trigger (timed_out ∷ later) = first_trigger later

abbrev pub happen_all : Process → List Happening → Process
happen_all p happenings = foldl happen p happenings

kept :
    (p : Process) (later : List Happening)
    → p.is_shutting_down ≡ true
    → (happen_all p later).calls ≡ p.calls
unfolding happen shut_down
kept p [] h = refl
kept p (trigger reason ∷ later) h =
    ap
      (λ (b : Bool).
        (happen_all
          (if b then p else record {
            is_shutting_down = true;
            timers = suc p.timers;
            calls = p.calls ++ reason ∷ [];
            exits = p.exits;
          })
          later).calls)
      h
    ∙ kept p later h
kept p (completed ∷ later) h = kept p later h
kept p (failed ∷ later) h = kept (exit_with_failure p) later h
kept p (timed_out ∷ later) h =
    elapsed p.timers (kept p later h) (kept (exit_with_failure p) later h)
  where
    elapsed :
        (n : ℕ)
        → (happen_all p later).calls ≡ p.calls
        → (happen_all (exit_with_failure p) later).calls ≡ p.calls
        → (happen_all (elim n [ zero ↦ p | suc m ↦ exit_with_failure p ]) later).calls ≡ p.calls
    elapsed zero a b = a
    elapsed (suc m) a b = b

idle : (exits : List ℕ) → Process
idle exits = record { is_shutting_down = false; timers = 0; calls = []; exits = exits }

once :
    (exits : List ℕ) (happenings : List Happening)
    → (happen_all (idle exits) happenings).calls ≡ first_trigger happenings
unfolding happen shut_down idle
once exits [] = refl
once exits (trigger reason ∷ later) = kept _ later refl
once exits (completed ∷ later) = once exits later
once exits (failed ∷ later) = once (exits ++ 1 ∷ []) later
once exits (timed_out ∷ later) = once exits later

-- Whatever reaches the process and in whatever order, `onShutdown` is called at most once, with the
-- reason of the first trigger.
pub happen_all-calls :
    (happenings : List Happening) → (happen_all running happenings).calls ≡ first_trigger happenings
unfolding idle
happen_all-calls happenings = once [] happenings
