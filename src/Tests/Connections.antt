-- ===== src/Tests/Connections.antt =====
-- Two calls of `connect` at once.
use rocket_toolkit.Prelude.{ℕ, suc, refl, Bool, true, false, none, [], ◌∷◌}
use rocket_toolkit.ProcessManager.Effect
use rocket_toolkit.ProcessManager.Effect.{Effect, chunk, pure}
use rocket_toolkit.ProcessManager.Effect.Run.{run_chunk}
use rocket_toolkit.ProcessManager.Effect.Pool.{System, Reach, here, later, begin, take}
use rocket_toolkit.MessageBus.Connection.{Shared, connect, locked}
use rocket_toolkit.MessageBus.Connection.Exclusive.{IsExclusive}
use rocket_toolkit.MessageBus.Connection.Calls.{IsCall, connecting, calls-IsExclusive}

abbrev World : Type 0
World = Shared ℕ ℕ

abbrev dial : Effect World ℕ
dial = chunk (λ _. true) (λ w. record w { outside = suc w.outside }) (λ w. pure 7)

-- the number of connections that were made is watched
abbrev watch : ℕ → ℕ
watch o = o

abbrev usable : ℕ → ℕ → Bool
usable c o = true

abbrev close : ℕ → Effect World (Unit {0})
close c = Effect.unit

abbrev offline : World
offline = record { client = none; held = false; outside = 0 }

abbrev call : Effect World (Unit {0})
call = Effect.bind (connect usable dial) (λ _. Effect.unit)

abbrev looked : Effect World (Unit {0})
looked = (run_chunk call offline).0

-- the second call has taken the mutex
abbrev taken : System World
taken = record {
  world = record offline { held = true };
  tasks = (run_chunk looked offline).0 ∷ call ∷ [];
}

reached :
    Reach
      (IsCall watch usable dial close (λ w. (refl, tt)) (λ c. tt))
      (record { world = offline; tasks = [] })
      taken
unfolding connect locked Effect.bind Effect.catch_error run_chunk
reached =
    later {t = record { world = offline; tasks = looked ∷ call ∷ [] }}
      (later {t = record { world = offline; tasks = call ∷ call ∷ [] }}
        (later {t = record { world = offline; tasks = call ∷ [] }}
          (later here (begin call (connecting refl) refl)) (begin call (connecting refl) refl))
        (take [] _ _ _ _ refl refl refl))
      (take [] _ _ _ _ refl refl refl)

calls-IsExclusive_example : IsExclusive watch taken
calls-IsExclusive_example =
    calls-IsExclusive watch usable dial close (λ w. (refl, tt)) (λ c. tt) refl reached
