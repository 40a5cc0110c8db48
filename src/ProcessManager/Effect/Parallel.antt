-- ===== src/ProcessManager/Effect/Parallel.antt =====
-- `Effect.all` and `Effect.race` of packages/process-manager/src/effects.ts: effects that run side by
-- side over one world. A schedule says which of them takes its next chunk each time.
pub mod All
pub mod Turns
use rocket_toolkit.Prelude.{
  ℕ, zero, suc, ◌≡◌, ◌↔◌, refl, sym, ap, ◌∙◌, Option, none, some, List, [], ◌∷◌, length, arith,
}
use rocket_toolkit.ProcessManager.Effect.{
  Effect, Error, pure, throw, chunk, Completion, normal, abrupt,
}
use rocket_toolkit.ProcessManager.Effect.Run.{run_chunk}

-- `settled` is what the promise was settled with first, none while it is pending.
pub record Parallel (W A R : Type 0) : Type 0 where
  pub world : W
  pub branches : List (Effect W A)
  pub settled : Option (Completion R)

module _ {R : Type 0} where
  -- a promise is settled once
  abbrev pub first : Option (Completion R) → Option (Completion R) → Option (Completion R)
  first none now = now
  first (some c) now = some c

module _ {A : Type 0} where
  -- what `Promise.all` has when one more result stands before the others
  abbrev pub with_result : A → Option (Completion (List A)) → Option (Completion (List A))
  with_result a none = none
  with_result a (some (normal results)) = some (normal (a ∷ results))
  with_result a (some (abrupt e)) = some (abrupt e)

  abbrev pub pending_or_error : Option (Completion (List A)) → Option (Completion (List A))
  pending_or_error none = none
  pending_or_error (some (normal results)) = none
  pending_or_error (some (abrupt e)) = some (abrupt e)

module _ {W A : Type 0} where
  -- `Promise.all` on the branches as they are: an error of one of them, or the results of all
  unfoldable pub all_settled : List (Effect W A) → Option (Completion (List A))
  all_settled [] = some (normal [])
  all_settled (pure a ∷ branches) = with_result a (all_settled branches)
  all_settled (throw e ∷ branches) = some (abrupt e)
  all_settled (chunk ready update next ∷ branches) = pending_or_error (all_settled branches)

  -- `Promise.race`: the first of the branches that has ended
  unfoldable pub race_settled : List (Effect W A) → Option (Completion A)
  race_settled [] = none
  race_settled (pure a ∷ branches) = some (normal a)
  race_settled (throw e ∷ branches) = some (abrupt e)
  race_settled (chunk ready update next ∷ branches) = race_settled branches

  -- One chunk of one branch, if it is there and ready. A branch goes on when the promise is settled.
  unfoldable pub step_branch : ℕ → List (Effect W A) → W → List (Effect W A) × W
  unfolding run_chunk
  step_branch n [] w = ([], w)
  step_branch zero (e ∷ branches) w = let (e', w') = run_chunk e w in (e' ∷ branches, w')
  step_branch (suc n) (e ∷ branches) w =
      let (branches', w') = step_branch n branches w in (e ∷ branches', w')

  module _ {R : Type 0} (settle : List (Effect W A) → Option (Completion R)) where
    unfoldable pub begun : List (Effect W A) → W → Parallel W A R
    begun effects w = record { world = w; branches = effects; settled = settle effects }

    unfoldable pub step : ℕ → Parallel W A R → Parallel W A R
    unfolding step_branch
    step n p =
        let (branches, w) = step_branch n p.branches p.world in
        record { world = w; branches = branches; settled = first p.settled (settle branches) }

    unfoldable pub run : List ℕ → Parallel W A R → Parallel W A R
    unfolding step
    run [] p = p
    run (n ∷ schedule) p = run schedule (step n p)

  unfoldable pub all : List (Effect W A) → List ℕ → W → Parallel W A (List A)
  unfolding begun run all_settled
  all effects schedule w = run all_settled schedule (begun all_settled effects w)

  unfoldable pub race : List (Effect W A) → List ℕ → W → Parallel W A A
  unfolding begun run race_settled
  race effects schedule w = run race_settled schedule (begun race_settled effects w)

  abbrev pub pures : List A → List (Effect W A)
  pures [] = []
  pures (a ∷ results) = pure a ∷ pures results
