-- ===== src/ProcessManager/Effect/Parallel/All.antt =====
-- What the promise of `Effect.all` was settled with, and how its effects have ended.
use rocket_toolkit.Prelude.{
  ℕ, zero, suc, ◌≡◌, refl, sym, ap, ◌∙◌, Option, none, some, List, [], ◌∷◌, length, arith,
}
use rocket_toolkit.ProcessManager.Effect.{
  Effect, Error, pure, throw, chunk, Completion, normal, abrupt,
}
use rocket_toolkit.ProcessManager.Effect.Run.{run_chunk}
use rocket_toolkit.ProcessManager.Effect.Parallel.{
  Parallel, first, with_result, pending_or_error, all_settled, step_branch, begun, step, run, all,
  pures,
}

module _ {A : Type 0} where
  abrupt_of_pending :
      (o : Option (Completion (List A))) (x : Error)
      → pending_or_error o ≡ some (abrupt x)
      → o ≡ some (abrupt x)
  abrupt_of_pending none x e = cc
  abrupt_of_pending (some (normal rs)) x e = cc
  abrupt_of_pending (some (abrupt y)) x e = e

  abrupt_of_result :
      (a : A) (o : Option (Completion (List A))) (x : Error)
      → with_result a o ≡ some (abrupt x)
      → o ≡ some (abrupt x)
  abrupt_of_result a none x e = cc
  abrupt_of_result a (some (normal rs)) x e = cc
  abrupt_of_result a (some (abrupt y)) x e = e

module _ {W A : Type 0} where
  -- with results for all, every branch has ended with its own
  all_settled-pures :
      (branches : List (Effect W A)) (results : List A)
      → all_settled branches ≡ some (normal results)
      → branches ≡ pures results
  unfolding all_settled
  all_settled-pures [] [] e = refl
  all_settled-pures [] (a ∷ results) e = cc
  all_settled-pures (pure a ∷ branches) results e =
      ended (all_settled branches) results e (all_settled-pures branches)
    where
      ended :
          (o : Option (Completion (List A))) (results : List A)
          → with_result a o ≡ some (normal results)
          → ((rs : List A) → o ≡ some (normal rs) → branches ≡ pures rs)
          → pure a ∷ branches ≡ pures results
      ended none results e ih = cc
      ended (some (abrupt x)) results e ih = cc
      ended (some (normal rs)) [] e ih = cc
      ended (some (normal rs)) (b ∷ results) e ih =
          let heads : a ≡ b = cc in
          let tails : rs ≡ results = cc in
          ap (λ (x : A). pure x ∷ branches) heads
          ∙ ap (λ (bs : List (Effect W A)). pure b ∷ bs) (ih rs refl ∙ ap pures tails)
  all_settled-pures (throw x ∷ branches) results e = cc
  all_settled-pures (chunk ready update next ∷ branches) results e =
      absurd (pending (all_settled branches) e)
    where
      pending : (o : Option (Completion (List A))) → pending_or_error o ≡ some (normal results) → ⊥
      pending none e = ground arith
      pending (some (normal rs)) e = ground arith
      pending (some (abrupt x)) e = ground arith

  -- an ended branch does not change
  step_branch-pures :
      (n : ℕ) (results : List A) (w : W) → step_branch n (pures results) w ≡ (pures results, w)
  unfolding step_branch run_chunk
  step_branch-pures n [] w = refl
  step_branch-pures zero (a ∷ results) w = refl
  step_branch-pures (suc n) (a ∷ results) w =
      ap (λ (bs, v). (pure a ∷ bs, v)) (step_branch-pures n results w)

  -- an error of one of the branches is there for good
  abbrev HasThrown : List (Effect W A) → Type 0
  HasThrown branches = (x : Error) × (all_settled branches ≡ some (abrupt x))

  HasThrown-tail :
      (e : Effect W A) (branches : List (Effect W A))
      → HasThrown branches
      → HasThrown (e ∷ branches)
  unfolding all_settled
  HasThrown-tail (pure a) branches (x, h) = (x, ap (with_result a) h)
  HasThrown-tail (throw y) branches h = (y, refl)
  HasThrown-tail (chunk ready update next) branches (x, h) = (x, ap pending_or_error h)

  HasThrown-step :
      (n : ℕ) (branches : List (Effect W A)) (w : W)
      → HasThrown branches
      → HasThrown (step_branch n branches w).0
  unfolding step_branch run_chunk all_settled
  HasThrown-step n [] w h = h
  HasThrown-step zero (pure a ∷ branches) w h = h
  HasThrown-step zero (throw y ∷ branches) w h = h
  HasThrown-step zero (chunk ready update next ∷ branches) w (x, h) =
      HasThrown-tail (run_chunk (chunk ready update next) w).0 branches
        (x, abrupt_of_pending (all_settled branches) x h)
  HasThrown-step (suc n) (pure a ∷ branches) w (x, h) =
      HasThrown-tail (pure a) (step_branch n branches w).0
        (HasThrown-step n branches w (x, abrupt_of_result a (all_settled branches) x h))
  HasThrown-step (suc n) (throw y ∷ branches) w h = (y, refl)
  HasThrown-step (suc n) (chunk ready update next ∷ branches) w (x, h) =
      HasThrown-tail (chunk ready update next) (step_branch n branches w).0
        (HasThrown-step n branches w (x, abrupt_of_pending (all_settled branches) x h))

  length-step_branch :
      (n : ℕ) (branches : List (Effect W A)) (w : W)
      → length (step_branch n branches w).0 ≡ length branches
  unfolding step_branch
  length-step_branch n [] w = refl
  length-step_branch zero (e ∷ branches) w = refl
  length-step_branch (suc n) (e ∷ branches) w = omega (arith, length-step_branch n branches w)

module _ (W : Type 0) {A : Type 0} where
  length-pures : (results : List A) → length (pures {W = W} results) ≡ length results
  length-pures [] = refl
  length-pures (a ∷ results) = omega (arith, length-pures results)

  all_settled-of_pures :
      (results : List A) → all_settled (pures {W = W} results) ≡ some (normal results)
  unfolding all_settled
  all_settled-of_pures [] = refl
  all_settled-of_pures (a ∷ results) = ap (with_result a) (all_settled-of_pures results)

module _ {W A : Type 0} where
  -- What the promise was settled with says of the branches how they have ended.
  abbrev pub IsRight : Option (Completion (List A)) → List (Effect W A) → Type 0
  IsRight none branches = (results : List A) → branches ≡ pures results → ⊥
  IsRight (some (normal results)) branches = branches ≡ pures results
  IsRight (some (abrupt x)) branches = HasThrown branches

  all_settled-IsRight : (branches : List (Effect W A)) → IsRight (all_settled branches) branches
  all_settled-IsRight branches = right (all_settled branches) refl
    where
      right : (o : Option (Completion (List A))) → all_settled branches ≡ o → IsRight o branches
      right none e = λ results ended.
          let now = ap (λ bs. all_settled bs) ended ∙ all_settled-of_pures W results in cc
      right (some (normal results)) e = all_settled-pures branches results e
      right (some (abrupt x)) e = (x, e)

  step-IsRight :
      (n : ℕ) (p : Parallel W A (List A))
      → IsRight p.settled p.branches
      → IsRight (step all_settled n p).settled (step all_settled n p).branches
  unfolding step
  step-IsRight n p right = kept p.settled right
    where
      kept :
          (o : Option (Completion (List A)))
          → IsRight o p.branches
          → IsRight
              (first o (all_settled (step_branch n p.branches p.world).0))
              (step_branch n p.branches p.world).0
      kept none right = all_settled-IsRight (step_branch n p.branches p.world).0
      kept (some (normal results)) right =
          ap (λ bs. (step_branch n bs p.world).0) right
          ∙ ap (λ (bs, v). bs) (step_branch-pures n results p.world)
      kept (some (abrupt x)) right = HasThrown-step n p.branches p.world right

  run-IsRight :
      (schedule : List ℕ) (p : Parallel W A (List A))
      → IsRight p.settled p.branches
      → IsRight (run all_settled schedule p).settled (run all_settled schedule p).branches
  unfolding run
  run-IsRight [] p right = right
  run-IsRight (n ∷ schedule) p right =
      run-IsRight schedule (step all_settled n p) (step-IsRight n p right)

  pub length-run :
      (schedule : List ℕ) (p : Parallel W A (List A))
      → length (run all_settled schedule p).branches ≡ length p.branches
  unfolding run step
  length-run [] p = refl
  length-run (n ∷ schedule) p =
      length-run schedule (step all_settled n p) ∙ length-step_branch n p.branches p.world

  pub settled_normal :
      (o : Option (Completion (List A))) (branches : List (Effect W A)) (results : List A)
      → IsRight o branches
      → branches ≡ pures results
      → o ≡ some (normal results)
  settled_normal none branches results right ended = absurd (right results ended)
  settled_normal (some (abrupt x)) branches results (y, thrown) ended =
      let now = ap (λ bs. all_settled bs) ended ∙ all_settled-of_pures W results in cc
  settled_normal (some (normal rs)) branches results right ended =
      sym (all_settled-of_pures W rs)
      ∙ ap (λ bs. all_settled bs) (sym right ∙ ended)
      ∙ all_settled-of_pures W results

  pub ended_normal :
      (o : Option (Completion (List A))) (branches : List (Effect W A)) (results : List A)
      → IsRight o branches
      → o ≡ some (normal results)
      → branches ≡ pures results
  ended_normal none branches results right e = cc
  ended_normal (some (abrupt x)) branches results right e = cc
  ended_normal (some (normal rs)) branches results right e =
      let same : rs ≡ results = cc in right ∙ ap pures same

  pub all-IsRight :
      (effects : List (Effect W A)) (schedule : List ℕ) (w : W)
      → IsRight (all effects schedule w).settled (all effects schedule w).branches
  unfolding all begun
  all-IsRight effects schedule w =
      run-IsRight schedule (begun all_settled effects w) (all_settled-IsRight effects)
