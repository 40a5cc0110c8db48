-- ===== src/ProcessManager/Effect/Parallel/Turns.antt =====
-- What a schedule makes of the effects of `Effect.all`, and the results that they then have.
use rocket_toolkit.Prelude.{
  Bool, true, false, ℕ, zero, suc, ◌≡◌, ◌↔◌, refl, ap, ◌∙◌, Option, none, some, List, [], ◌∷◌,
  length,
}
use rocket_toolkit.ProcessManager.Effect.{Effect, pure, throw, chunk, normal}
use rocket_toolkit.ProcessManager.Effect.Run.{run_chunk}
use rocket_toolkit.ProcessManager.Effect.Parallel.{
  Parallel, all_settled, step_branch, begun, step, run, all, pures,
}
use rocket_toolkit.ProcessManager.Effect.Parallel.All.{
  all-IsRight, settled_normal, ended_normal, length-run,
}

module _ {E : Type 0} where
  -- the element at a position, none behind the end
  abbrev pub nth : ℕ → List E → Option E
  nth n [] = none
  nth zero (e ∷ es) = some e
  nth (suc n) (e ∷ es) = nth n es

  abbrev pub put : ℕ → E → List E → List E
  put n d [] = []
  put zero d (e ∷ es) = d ∷ es
  put (suc n) d (e ∷ es) = e ∷ put n d es

module _ {W A : Type 0} where
  -- what may be left of an effect, when each of its chunks found some world in which it was ready
  pub data Remains : Effect W A → Effect W A → Type 0 where
    untouched : {e : Effect W A} → Remains e e
    chunk_taken :
        {e : Effect W A} {ready : W → Bool} {update : W → W} {next : W → Effect W A} (w : W)
        → ready w ≡ true
        → Remains e (chunk ready update next)
        → Remains e (next w)

  -- each effect, with what is left of it at its own position
  abbrev pub AllRemain : List (Effect W A) → List (Effect W A) → Type 0
  AllRemain [] [] = Unit
  AllRemain [] (b ∷ branches) = ⊥
  AllRemain (e ∷ effects) [] = ⊥
  AllRemain (e ∷ effects) (b ∷ branches) = Remains e b × AllRemain effects branches

  untouched-AllRemain : (effects : List (Effect W A)) → AllRemain effects effects
  untouched-AllRemain [] = tt
  untouched-AllRemain (e ∷ effects) = (untouched, untouched-AllRemain effects)

  run_chunk-Remains : (e b : Effect W A) (w : W) → Remains e b → Remains e (run_chunk b w).0
  unfolding run_chunk
  run_chunk-Remains e (pure a) w r = r
  run_chunk-Remains e (throw x) w r = r
  run_chunk-Remains e (chunk ready update next) w r = taken (ready w) refl
    where
      taken :
          (b : Bool)
          → ready w ≡ b
          → Remains e
              (elim b as (λ x. Effect W A × W) [
                | false ↦ (chunk ready update next, w)
                | true ↦ (next w, update w)
              ]).0
      taken true is_ready = chunk_taken w is_ready r
      taken false waits = r

  step_branch-AllRemain :
      (n : ℕ) (effects branches : List (Effect W A)) (w : W)
      → AllRemain effects branches
      → AllRemain effects (step_branch n branches w).0
  unfolding step_branch
  step_branch-AllRemain n [] [] w h = h
  step_branch-AllRemain n [] (b ∷ branches) w h = absurd h
  step_branch-AllRemain n (e ∷ effects) [] w h = absurd h
  step_branch-AllRemain zero (e ∷ effects) (b ∷ branches) w (r, h) = (run_chunk-Remains e b w r, h)
  step_branch-AllRemain (suc n) (e ∷ effects) (b ∷ branches) w (r, h) =
      (r, step_branch-AllRemain n effects branches w h)

  run-AllRemain :
      (schedule : List ℕ) (effects : List (Effect W A)) (p : Parallel W A (List A))
      → AllRemain effects p.branches
      → AllRemain effects (run all_settled schedule p).branches
  unfolding run step
  run-AllRemain [] effects p h = h
  run-AllRemain (n ∷ schedule) effects p h =
      run-AllRemain schedule effects (step all_settled n p)
        (step_branch-AllRemain n effects p.branches p.world h)

  -- the effect at a position takes its next chunk
  abbrev turned_at : ℕ → Option (Effect W A) → List (Effect W A) → W → List (Effect W A) × W
  turned_at n none effects w = (effects, w)
  turned_at n (some e) effects w = (put n (run_chunk e w).0 effects, (run_chunk e w).1)

  -- What is left of the effects, and the world, when the effects at these positions take a chunk each, one
  -- behind the other.
  abbrev pub turns : List ℕ → List (Effect W A) → W → List (Effect W A) × W
  turns [] effects w = (effects, w)
  turns (n ∷ schedule) effects w =
      let (effects', w') = turned_at n (nth n effects) effects w in turns schedule effects' w'

  behind : Effect W A → List (Effect W A) × W → List (Effect W A) × W
  behind e (effects, w) = (e ∷ effects, w)

  behind-turned_at :
      (n : ℕ) (e : Effect W A) (o : Option (Effect W A)) (effects : List (Effect W A)) (w : W)
      → behind e (turned_at n o effects w) ≡ turned_at (suc n) o (e ∷ effects) w
  unfolding behind
  behind-turned_at n e none effects w = refl
  behind-turned_at n e (some d) effects w = refl

  step_branch-turned_at :
      (n : ℕ) (effects : List (Effect W A)) (w : W)
      → step_branch n effects w ≡ turned_at n (nth n effects) effects w
  unfolding step_branch behind
  step_branch-turned_at n [] w = refl
  step_branch-turned_at zero (e ∷ effects) w = refl
  step_branch-turned_at (suc n) (e ∷ effects) w =
      ap (behind e) (step_branch-turned_at n effects w)
      ∙ behind-turned_at n e (nth n effects) effects w

  run-turns :
      (schedule : List ℕ) (p : Parallel W A (List A))
      → ((run all_settled schedule p).branches, (run all_settled schedule p).world)
        ≡ turns schedule p.branches p.world
  unfolding run step
  run-turns [] p = refl
  run-turns (n ∷ schedule) p =
      run-turns schedule (step all_settled n p)
      ∙ ap (λ (effects, w). turns schedule effects w) (step_branch-turned_at n p.branches p.world)

  -- However the chunks of the effects interleave: the effects at the positions that the schedule names take
  -- a chunk each, one behind the other, over one world; each effect is run to what is left of it at its own
  -- position; and `all` has results exactly when each effect has ended with one, which are then the results
  -- in the order of the effects. There are as many effects under way or ended as were given.
  pub all-pures :
      (effects : List (Effect W A)) (schedule : List ℕ) (w : W) (results : List A)
      → (((all effects schedule w).branches, (all effects schedule w).world)
          ≡ turns schedule effects w)
        × AllRemain effects (all effects schedule w).branches
        × (((all effects schedule w).settled ≡ some (normal results))
            ↔ ((all effects schedule w).branches ≡ pures results))
        × (length (all effects schedule w).branches ≡ length effects)
  unfolding all begun
  all-pures effects schedule w results =
      let p = all effects schedule w in
      let right = all-IsRight effects schedule w in
      let start = begun all_settled effects w in
      (
        run-turns schedule start,
        run-AllRemain schedule effects start (untouched-AllRemain effects),
        (
          ended_normal p.settled p.branches results right,
          settled_normal p.settled p.branches results right,
        ),
        length-run schedule start,
      )
