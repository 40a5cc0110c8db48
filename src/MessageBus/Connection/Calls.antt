-- ===== src/MessageBus/Connection/Calls.antt =====
-- The calls of `connect` and `disconnect`, as tasks outside or inside the mutex.
use mathlib.Core.Path.{subst}
use rocket_toolkit.Prelude.{
  ◌≡◌, refl, sym, Bool, true, false, inl, Option, none, some, [], if◌then◌else◌,
}
use rocket_toolkit.ProcessManager.Effect
use rocket_toolkit.ProcessManager.Effect.{Effect, throw, chunk, pure}
use rocket_toolkit.ProcessManager.Effect.Monad
use rocket_toolkit.ProcessManager.Effect.Pool.{System, take, begin, Reach, here, later}
use rocket_toolkit.MessageBus.Connection.{
  Shared, locked, found, connect_locked, connect, close_open, closing, disconnect,
}
use rocket_toolkit.MessageBus.Connection.Exclusive.{
  LeavesMutex, LeavesClient, IsOutside, locked-IsOutside, IsExclusive, Reach-IsExclusive,
}

module _ {C O : Type 0} where
  LeavesMutex-bind :
      {A B : Type 0} (e : Effect (Shared C O) A) (f : A → Effect (Shared C O) B)
      → LeavesMutex e
      → ((a : A) → LeavesMutex (f a))
      → LeavesMutex (Effect.bind e f)
  unfolding Effect.bind
  LeavesMutex-bind (pure a) f h k = k a
  LeavesMutex-bind (throw x) f h k = tt
  LeavesMutex-bind (chunk ready update next) f h k =
      λ w. ((h w).0, LeavesMutex-bind (next w) f (h w).1 k)

module _ {C O D : Type 0} (watch : O → D) where
  leaves-IsOutside : (e : Effect (Shared C O) (Unit {0})) → LeavesClient watch e → IsOutside watch e
  unfolding IsOutside
  leaves-IsOutside (pure a) h = tt
  leaves-IsOutside (throw x) h = tt
  leaves-IsOutside (chunk ready update next) h =
      λ w r. let (held, same, rest) = h w in (same, inl (held, leaves-IsOutside (next w) rest))

module _ {C O D : Type 0} (watch : O → D) (usable : C → O → Bool) (dial : Effect (Shared C O) C)
    (close : C → Effect (Shared C O) (Unit {0})) (dial_leaves : LeavesMutex dial)
    (close_leaves : (c : C) → LeavesMutex (close c)) where
  found_leaves :
      (o : Option C) (out : O) (otherwise : Effect (Shared C O) C)
      → LeavesMutex otherwise
      → LeavesMutex (found usable dial o out otherwise)
  found_leaves none out otherwise h = h
  found_leaves (some c) out otherwise h = ready (usable c out)
    where
      ready : (b : Bool) → LeavesMutex (if b then pure c else otherwise)
      ready true = tt
      ready false = h

  connect_locked-LeavesMutex : LeavesMutex (connect_locked usable dial)
  connect_locked-LeavesMutex w = (
    refl,
    found_leaves w.client w.outside _ (
        LeavesMutex-bind dial
          (λ c. chunk (λ _. true) (λ w. record w { client = some c }) (λ _. pure c)) dial_leaves
          (λ c w. (refl, tt))),
  )

  -- a call of `connect` whose connection is used in `k`
  connect-IsOutside :
      (k : C → Effect (Shared C O) (Unit {0}))
      → ((c : C) → IsOutside watch (k c))
      → IsOutside watch (Effect.bind (connect usable dial) k)
  unfolding connect IsOutside Effect.bind
  connect-IsOutside k out = λ w r. ((refl, refl), inl (refl, from w.client w.outside))
    where
      from :
          (o : Option C) (out' : O)
          → IsOutside watch
              (Effect.bind (found usable dial o out' (locked (connect_locked usable dial))) k)
      from none out' =
          locked-IsOutside watch (connect_locked usable dial) k connect_locked-LeavesMutex out
      from (some c) out' = ready (usable c out')
        where
          ready :
              (b : Bool)
              → IsOutside watch
                  (Effect.bind (if b then pure c else locked (connect_locked usable dial)) k)
          ready true = out c
          ready false =
              locked-IsOutside watch (connect_locked usable dial) k connect_locked-LeavesMutex out

  disconnect-IsOutside : IsOutside watch (disconnect close)
  unfolding disconnect IsOutside Effect.bind
  disconnect-IsOutside = λ w r. ((refl, refl), inl (refl, from w.client))
    where
      closing_leaves : (o : Option C) → LeavesMutex (closing close o)
      closing_leaves none = tt
      closing_leaves (some c) =
          LeavesMutex-bind (close c)
            (λ _. chunk (λ _. true) (λ w. record w { client = none }) (λ _. Effect.unit))
            (close_leaves c) (λ u w. (refl, tt))

      from : (o : Option C) → IsOutside watch (close_open close o)
      from none = tt
      from (some c) =
          let body : Effect (Shared C O) (Unit {0}) =
            chunk (λ _. true) (λ w. w) (λ w. closing close w.client) in
          subst (IsOutside watch) (Monad.bind-pure (locked body))
            (locked-IsOutside watch body pure (λ w. (refl, closing_leaves w.client)) (λ u. tt))

  -- The tasks that may begin: a call of `connect`, one of `disconnect`, or an effect that leaves alone the
  -- mutex, the client and what is watched.
  pub data IsCall (e : Effect (Shared C O) (Unit {0})) : Type 0 where
    connecting : e ≡ Effect.bind (connect usable dial) (λ _. Effect.unit) → IsCall e
    disconnecting : e ≡ disconnect close → IsCall e
    other : LeavesClient watch e → IsCall e

  call-IsOutside : (e : Effect (Shared C O) (Unit {0})) → IsCall e → IsOutside watch e
  unfolding IsOutside
  call-IsOutside e (connecting same) =
      subst (IsOutside watch) (sym same) (connect-IsOutside (λ _. Effect.unit) (λ c. tt))
  call-IsOutside e (disconnecting same) = subst (IsOutside watch) (sym same) disconnect-IsOutside
  call-IsOutside e (other h) = leaves-IsOutside watch e h

  calls_reach : {s t : System (Shared C O)} → Reach IsCall s t → Reach (IsOutside watch) s t
  calls_reach here = here
  calls_reach (later {t = u} {u = t} r (take before ready update next after same runs e)) =
      later {t = u} (calls_reach r) (take before ready update next after same runs e)
  calls_reach (later {t = u} r (begin task call e)) =
      later {t = u} (calls_reach r) (begin task (call-IsOutside task call) e)

  -- From a free mutex and no task, however many calls of `connect` and `disconnect` begin and however
  -- their chunks interleave: while the mutex is free no call is inside it, and while it is taken exactly
  -- one call is, which gives it back before it ends; and each chunk of a call that is not inside, the one
  -- that takes the mutex too, changes neither the client nor what is watched of the rest of the world,
  -- whatever that is. Making and closing a connection must leave the mutex alone, and all other tasks
  -- leave alone the mutex, the client and what is watched.
  pub calls-IsExclusive :
      {w : Shared C O} {s : System (Shared C O)}
      → w.held ≡ false
      → Reach IsCall (record { world = w; tasks = [] }) s
      → IsExclusive watch s
  calls-IsExclusive free r = Reach-IsExclusive watch free (calls_reach r)
