-- ===== src/MessageBus/Connection/Exclusive.antt =====
-- Any number of `connect` and `disconnect` calls at once, with their chunks in any order.
use mathlib.Core.Path.{subst}
use rocket_toolkit.Prelude.{
  ◌≡◌, refl, sym, ◌∙◌, ◌⊎◌, inl, inr, Bool, true, false, not, List, [], ◌∷◌, ◌++◌,
}
use rocket_toolkit.ProcessManager.Effect
use rocket_toolkit.ProcessManager.Effect.{Effect, Error, throw, chunk, pure}
use rocket_toolkit.ProcessManager.Effect.Pool.{System, take, begin, Reach, here, later}
use rocket_toolkit.MessageBus.Connection.{Shared, set_held, locked}

module _ {C O : Type 0} where
  -- an effect that never touches the mutex
  abbrev pub LeavesMutex : {A : Type 0} → Effect (Shared C O) A → Type 0
  LeavesMutex (pure a) = Unit
  LeavesMutex (throw e) = Unit
  LeavesMutex (chunk ready update next) =
      (w : Shared C O) → ((update w).held ≡ w.held) × LeavesMutex (next w)

-- `watch` is what is looked at of the rest of the world, such as how many connections were made.
module _ {C O D : Type 0} (watch : O → D) where
  -- the client and what is watched are the same
  abbrev pub Same : Shared C O → Shared C O → Type 0
  Same u w = (u.client ≡ w.client) × (watch u.outside ≡ watch w.outside)

  -- an effect that leaves alone the mutex, the client and what is watched
  abbrev pub LeavesClient : {A : Type 0} → Effect (Shared C O) A → Type 0
  LeavesClient (pure a) = Unit
  LeavesClient (throw e) = Unit
  LeavesClient (chunk ready update next) =
      (w : Shared C O) → ((update w).held ≡ w.held) × Same (update w) w × LeavesClient (next w)

  unfoldable mutual
    -- A task that does not hold the mutex: it takes it only when it is free, and until then it leaves the
    -- client and what is watched as they are.
    pub IsOutside : Effect (Shared C O) (Unit {0}) → Type 0
    IsOutside (pure a) = Unit
    IsOutside (throw e) = Unit
    IsOutside (chunk ready update next) =
        (w : Shared C O)
        → ready w ≡ true
        → Same (update w) w
          × ((((update w).held ≡ w.held) × IsOutside (next w))
              ⊎ ((w.held ≡ false) × ((update w).held ≡ true) × IsInside (next w)))

    -- A task that holds the mutex: it does not end before it has given it back.
    pub IsInside : Effect (Shared C O) (Unit {0}) → Type 0
    IsInside (pure a) = ⊥
    IsInside (throw e) = ⊥
    IsInside (chunk ready update next) =
        (w : Shared C O)
        → ready w ≡ true
        → (((update w).held ≡ w.held) × IsInside (next w))
          ⊎ (((update w).held ≡ false) × IsOutside (next w))

  abbrev pub AllOutside : List (Effect (Shared C O) (Unit {0})) → Type 0
  AllOutside [] = Unit
  AllOutside (e ∷ tasks) = IsOutside e × AllOutside tasks

  abbrev pub OneInside : List (Effect (Shared C O) (Unit {0})) → Type 0
  OneInside [] = ⊥
  OneInside (e ∷ tasks) = (IsInside e × AllOutside tasks) ⊎ (IsOutside e × OneInside tasks)

  -- With the mutex free no task is inside, and with the mutex taken exactly one is. So only that task may
  -- change the client and what is watched.
  abbrev pub IsExclusive : System (Shared C O) → Type 0
  IsExclusive s =
      ((s.world.held ≡ false) × AllOutside s.tasks) ⊎ ((s.world.held ≡ true) × OneInside s.tasks)

  finish-IsInside :
      {A : Type 0} (body : Effect (Shared C O) A) (k : A → Effect (Shared C O) (Unit {0}))
      → LeavesMutex body
      → ((a : A) → IsOutside (k a))
      → IsInside (
          Effect.bind
            (Effect.bind
              (Effect.catch_error body (λ e. chunk (λ _. true) (set_held false) (λ _. throw e)))
              (λ a. chunk (λ _. true) (set_held false) (λ _. pure a)))
            k)
  unfolding IsOutside Effect.bind Effect.catch_error
  finish-IsInside (pure a) k safe out = λ w r. inr (refl, out a)
  finish-IsInside (throw e) k safe out = λ w r. inr (refl, tt)
  finish-IsInside (chunk ready update next) k safe out =
      λ w r. inl ((safe w).0, finish-IsInside (next w) k (safe w).1 out)

  pub locked-IsOutside :
      {A : Type 0} (body : Effect (Shared C O) A) (k : A → Effect (Shared C O) (Unit {0}))
      → LeavesMutex body
      → ((a : A) → IsOutside (k a))
      → IsOutside (Effect.bind (locked body) k)
  unfolding IsOutside locked Effect.bind
  locked-IsOutside body k safe out =
      λ w r. ((refl, refl), inr (free w.held r, refl, finish-IsInside body k safe out))
    where
      free : (b : Bool) → not b ≡ true → b ≡ false
      free true e = sym e
      free false e = refl

  AllOutside-front :
      (before : List (Effect (Shared C O) (Unit {0}))) (e : Effect (Shared C O) (Unit {0}))
      (after : List (Effect (Shared C O) (Unit {0})))
      → AllOutside (before ++ e ∷ after)
      → IsOutside e × AllOutside (before ++ after)
  AllOutside-front [] e after h = h
  AllOutside-front (d ∷ before) e after (hd, h) =
      let (he, rest) = AllOutside-front before e after h in (he, (hd, rest))

  AllOutside-back :
      (before : List (Effect (Shared C O) (Unit {0}))) (e : Effect (Shared C O) (Unit {0}))
      (after : List (Effect (Shared C O) (Unit {0})))
      → IsOutside e
      → AllOutside (before ++ after)
      → AllOutside (before ++ e ∷ after)
  AllOutside-back [] e after he h = (he, h)
  AllOutside-back (d ∷ before) e after he (hd, h) = (hd, AllOutside-back before e after he h)

  OneInside-front :
      (before : List (Effect (Shared C O) (Unit {0}))) (e : Effect (Shared C O) (Unit {0}))
      (after : List (Effect (Shared C O) (Unit {0})))
      → OneInside (before ++ e ∷ after)
      → OneInside (e ∷ before ++ after)
  OneInside-front [] e after h = h
  OneInside-front (d ∷ before) e after (inl (hd, all)) =
      let (he, rest) = AllOutside-front before e after all in inr (he, inl (hd, rest))
  OneInside-front (d ∷ before) e after (inr (hd, one)) = elim (OneInside-front before e after one) [
    | inl (he, all) ↦ inl (he, (hd, all))
    | inr (he, rest) ↦ inr (he, inr (hd, rest))
  ]

  OneInside-back :
      (before : List (Effect (Shared C O) (Unit {0}))) (e : Effect (Shared C O) (Unit {0}))
      (after : List (Effect (Shared C O) (Unit {0})))
      → OneInside (e ∷ before ++ after)
      → OneInside (before ++ e ∷ after)
  OneInside-back [] e after h = h
  OneInside-back (d ∷ before) e after (inl (he, (hd, all))) =
      inr (hd, OneInside-back before e after (inl (he, all)))
  OneInside-back (d ∷ before) e after (inr (he, inl (hd, all))) =
      inl (hd, AllOutside-back before e after he all)
  OneInside-back (d ∷ before) e after (inr (he, inr (hd, one))) =
      inr (hd, OneInside-back before e after (inr (he, one)))

  -- the invariant, with one task looked at and the others
  abbrev WithRest :
      Shared C O → Effect (Shared C O) (Unit {0}) → List (Effect (Shared C O) (Unit {0})) → Type 0
  WithRest w e rest =
      ((w.held ≡ false) × IsOutside e × AllOutside rest) ⊎ ((w.held ≡ true) × OneInside (e ∷ rest))

  exclusive_chunk :
      (ready : Shared C O → Bool) (update : Shared C O → Shared C O)
      (next : Shared C O → Effect (Shared C O) (Unit {0}))
      (rest : List (Effect (Shared C O) (Unit {0}))) (w : Shared C O)
      → ready w ≡ true
      → WithRest w (chunk ready update next) rest
      → WithRest (update w) (next w) rest
  unfolding IsOutside
  exclusive_chunk ready update next rest w r (inl (free, out, all)) = elim (out w r).1 [
    | inl (same, o) ↦ inl (same ∙ free, o, all)
    | inr (was, took, i) ↦ inr (took, inl (i, all))
  ]
  exclusive_chunk ready update next rest w r (inr (held, inl (i, all))) = elim (i w r) [
    | inl (same, j) ↦ inr (same ∙ held, inl (j, all))
    | inr (freed, o) ↦ inl (freed, o, all)
  ]
  exclusive_chunk ready update next rest w r (inr (held, inr (out, one))) = elim (out w r).1 [
    | inl (same, o) ↦ inr (same ∙ held, inr (o, one))
    | inr (was, took, i) ↦ absurd (cc)
  ]

  look :
      (s : System (Shared C O)) (before : List (Effect (Shared C O) (Unit {0})))
      (e : Effect (Shared C O) (Unit {0})) (after : List (Effect (Shared C O) (Unit {0})))
      → s.tasks ≡ before ++ e ∷ after
      → IsExclusive s
      → WithRest s.world e (before ++ after)
  look s before e after same (inl (free, all)) =
      let (he, rest) = AllOutside-front before e after (subst AllOutside same all) in
      inl (free, he, rest)
  look s before e after same (inr (held, one)) =
      inr (held, OneInside-front before e after (subst OneInside same one))

  put_back :
      (w : Shared C O) (before : List (Effect (Shared C O) (Unit {0})))
      (e : Effect (Shared C O) (Unit {0})) (after : List (Effect (Shared C O) (Unit {0})))
      → WithRest w e (before ++ after)
      → IsExclusive (record { world = w; tasks = before ++ e ∷ after })
  put_back w before e after (inl (free, he, rest)) =
      inl (free, AllOutside-back before e after he rest)
  put_back w before e after (inr (held, one)) = inr (held, OneInside-back before e after one)

  begun :
      (s : System (Shared C O)) (e : Effect (Shared C O) (Unit {0}))
      → IsOutside e
      → IsExclusive s
      → IsExclusive (record { world = s.world; tasks = e ∷ s.tasks })
  begun s e out (inl (free, all)) = inl (free, (out, all))
  begun s e out (inr (held, one)) = inr (held, inr (out, one))

  -- From a free mutex and no task, however tasks that begin outside interleave: with the mutex free
  -- no task is inside, and with the mutex taken exactly one is.
  pub Reach-IsExclusive :
      {w : Shared C O} {s : System (Shared C O)}
      → w.held ≡ false
      → Reach IsOutside (record { world = w; tasks = [] }) s
      → IsExclusive s
  Reach-IsExclusive free here = inl (free, tt)
  Reach-IsExclusive free (later {t = s} r (take before ready update next after same runs e)) =
      subst IsExclusive (sym e) (
        put_back (update s.world) before (next s.world) after (
          exclusive_chunk ready update next (before ++ after) s.world runs
            (look s before (chunk ready update next) after same (Reach-IsExclusive free r))))
  Reach-IsExclusive free (later {t = s} r (begin task out e)) =
      subst IsExclusive (sym e) (begun s task out (Reach-IsExclusive free r))
