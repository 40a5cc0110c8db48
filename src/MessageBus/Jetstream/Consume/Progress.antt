-- ===== src/MessageBus/Jetstream/Consume/Progress.antt =====
-- That a message which waits for a slot is started.
use mathlib.Core.Path.{subst}
use rocket_toolkit.Prelude.{
  ℕ, zero, suc, ◌<◌, ◌≡◌, ◌≢◌, refl, sym, ap, ◌∙◌, ◌⊎◌, inl, inr, Bool, true, false, Bool-cases,
  none, some, List, [], ◌∷◌, ◌++◌, length, arith,
}
use rocket_toolkit.ProcessManager.Effect.{Effect, Completion, pure, throw, chunk}
use rocket_toolkit.ProcessManager.Effect.Run.{execute, blocked}
use rocket_toolkit.MessageBus.Jetstream.Consume.{
  Consumer, Step, Reach, start, finish, subscribed, starts, runs, returns, throws, here, later,
}
use rocket_toolkit.MessageBus.Jetstream.Consume.Bounds.{
  IsConsumer, Reach-IsConsumer, subscribed-IsConsumer,
}

-- The handler, left to run alone, comes to an end.
abbrev pub Settles : {W : Type 0} → Effect W (Unit {0}) → W → Type 0
Settles e w = (execute e w).0 ≢ blocked

module _ {W : Type 0} (ready : W → Bool) (update : W → W) (next : W → Effect W (Unit {0}))
    (w : W) where
  execute-chunk : ready w ≡ true → execute (chunk ready update next) w ≡ execute (next w) (update w)
  unfolding execute
  execute-chunk r = rw r refl

  execute-unready : ready w ≡ false → execute (chunk ready update next) w ≡ (blocked, w)
  unfolding execute
  execute-unready r = rw r refl

zero-or_suc : (n : ℕ) → (n ≡ 0) ⊎ ((k : ℕ) × (n ≡ suc k))
zero-or_suc zero = inl refl
zero-or_suc (suc k) = inr (k, refl)

module _ {W T Raw : Type 0} (de_serialize : Raw → Completion T) (handler : T → Effect W (Unit {0}))
    (ack : Raw → Effect W (Unit {0})) (manual_ack : Bool) where
  -- the loop with these handlers under way in this world
  abbrev pub with_tasks : Consumer W Raw → List (Effect W (Unit {0})) → W → Consumer W Raw
  with_tasks c running w = record c { running = running; world = w }

  Reach-first :
      {c d e : Consumer W Raw}
      → Step de_serialize handler ack manual_ack c d
      → Reach de_serialize handler ack manual_ack d e
      → Reach de_serialize handler ack manual_ack c e
  Reach-first st here = later here st
  Reach-first st (later r last) = later (Reach-first st r) last

  -- The first of the handlers runs to its end and gives its slot back.
  run_out :
      (c : Consumer W Raw) (e : Effect W (Unit {0})) (rest : List (Effect W (Unit {0}))) (w : W)
      → Settles e w
      → (v : W) × Reach de_serialize handler ack manual_ack
          (with_tasks c (e ∷ rest) w)
          (finish de_serialize handler ack manual_ack rest (with_tasks c rest v))
  unfolding execute
  run_out c (pure a) rest w h = (w, later here (returns [] rest refl refl))
  run_out c (throw x) rest w h = (w, later here (throws [] rest x refl refl))
  run_out c (chunk ready update next) rest w h = elim (Bool-cases (ready w)) [
    | inl r ↦
        let (v, reach) =
          run_out c (next w) rest (update w)
            (λ z. h (ap (λ o. o.0) (execute-chunk ready update next w r) ∙ z)) in
        (v, Reach-first (runs [] ready update next rest refl r refl) reach)
    | inr r ↦ absurd (h (ap (λ o. o.0) (execute-unready ready update next w r)))
  ]

  abbrev pub AllSettle : List (Effect W (Unit {0})) → W → Type 0
  AllSettle [] w = Unit
  AllSettle (e ∷ running) w = Settles e w × AllSettle running w

  -- what is reached when the message that waits is started
  abbrev pub Starts : Consumer W Raw → Raw → Type 0
  Starts c m =
      (d : Consumer W Raw) × Reach de_serialize handler ack manual_ack c d
      × (d.waiting ≡ none)
      × (d.started ≡ c.started ++ m ∷ [])

  start_when_full :
      (c : Consumer W Raw) (m : Raw) (running : List (Effect W (Unit {0})))
      → c.waiting ≡ some m
      → c.running ≡ running
      → AllSettle running c.world
      → length running ≢ 0
      → Starts c m
  start_when_full c m [] wait e all some_run = absurd (some_run refl)
  start_when_full c m (t ∷ rest) wait e (settles, _) some_run =
      let (v, reach) = run_out c t rest c.world settles in
      let freed = finish de_serialize handler ack manual_ack rest (with_tasks c rest v) in
      (
        start de_serialize handler ack manual_ack m c.slots freed,
        later
            (subst
              (λ running.
                Reach de_serialize handler ack manual_ack (with_tasks c running c.world) freed)
              (sym e) reach)
            (starts m c.slots wait refl refl),
        refl,
        refl,
      )

  -- With at least one slot, from any state reached in which a message waits and each handler under
  -- way would come to an end if left to run alone, there are steps to a state in which nothing waits
  -- and the handler of that message is the next one started: the loop is never stuck.
  pub waiting-Starts :
      (max_concurrent : ℕ) (messages : List Raw) (w : W) (c : Consumer W Raw) (m : Raw)
      → 0 < max_concurrent
      → Reach de_serialize handler ack manual_ack
          (subscribed de_serialize handler ack manual_ack max_concurrent messages w)
          c
      → c.waiting ≡ some m
      → AllSettle c.running c.world
      → Starts c m
  waiting-Starts max_concurrent messages w c m positive r wait all =
      let h : IsConsumer de_serialize handler ack manual_ack max_concurrent messages c =
        Reach-IsConsumer de_serialize handler ack manual_ack max_concurrent messages r
          (subscribed-IsConsumer de_serialize handler ack manual_ack max_concurrent messages w) in
      elim (zero-or_suc c.slots) [
        | inl e ↦
            start_when_full c m c.running wait refl all
              (λ z. omega (arith, h.all_slots, z, e, positive))
        | inr (k, e) ↦ (
          start de_serialize handler ack manual_ack m k c,
          later here (starts m k wait e refl),
          refl,
          refl,
        )
      ]
