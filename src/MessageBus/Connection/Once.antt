-- ===== src/MessageBus/Connection/Once.antt =====
-- Calls of `connect` that do not overlap.
use rocket_toolkit.Prelude.{◌≡◌, refl, ap, ◌∙◌, Bool, true, false, none, some, if◌then◌else◌}
use rocket_toolkit.ProcessManager.Effect
use rocket_toolkit.ProcessManager.Effect.{Effect, Error, throw, chunk, pure}
use rocket_toolkit.ProcessManager.Effect.Run.{
  Outcome, returned, threw, blocked, execute, continue, handle, execute-bind, execute-catch_error,
}
use rocket_toolkit.MessageBus.Connection.{Shared, set_held, locked, found, connect_locked, connect}

module _ {C O : Type 0} where
  -- Whatever the body does, the mutex is free when it has returned or thrown.
  abbrev pub released : {A : Type 0} → Outcome A × Shared C O → Outcome A × Shared C O
  released (returned a, w) = (returned a, set_held false w)
  released (threw e, w) = (threw e, set_held false w)
  released (blocked, w) = (blocked, w)

  released-lem :
      {A : Type 0} (o : Outcome A × Shared C O)
      → continue
          (λ a. chunk (λ _. true) (set_held false) (λ _. pure a))
          (handle (λ e. chunk (λ _. true) (set_held false) (λ _. throw e)) o)
        ≡ released o
  unfolding execute
  released-lem (returned a, w) = refl
  released-lem (threw e, w) = refl
  released-lem (blocked, w) = refl

  execute-locked :
      {A : Type 0} (body : Effect (Shared C O) A) (w : Shared C O)
      → w.held ≡ false
      → execute (locked body) w ≡ released (execute body (set_held true w))
  unfolding locked execute
  execute-locked body w free =
      rw (free, execute)
        (execute-bind
            (Effect.catch_error body (λ e. chunk (λ _. true) (set_held false) (λ _. throw e))) _
            (set_held true w)
          ∙ (ap (continue (λ a. chunk (λ _. true) (set_held false) (λ _. pure a)))
                (execute-catch_error body _ (set_held true w))
              ∙ released-lem (execute body (set_held true w))))

module _ {C O : Type 0} (usable : C → O → Bool) (dial : Effect (Shared C O) C) where
  -- what the new connection is kept in
  abbrev pub kept : Outcome C × Shared C O → Outcome C × Shared C O
  kept (returned c, w) = (returned c, record w { client = some c })
  kept (threw e, w) = (threw e, w)
  kept (blocked, w) = (blocked, w)

  abbrev keep : C → Effect (Shared C O) C
  keep c = chunk (λ _. true) (λ w. record w { client = some c }) (λ _. pure c)

  continue-keep : (o : Outcome C × Shared C O) → continue keep o ≡ kept o
  unfolding execute
  continue-keep (returned c, w) = refl
  continue-keep (threw e, w) = refl
  continue-keep (blocked, w) = refl

  -- A call that finds a usable connection returns it and changes nothing, whoever holds the mutex.
  pub connect-usable :
      (c : C) (w : Shared C O)
      → w.client ≡ some c
      → usable c w.outside ≡ true
      → execute (connect usable dial) w ≡ (returned c, w)
  unfolding connect execute
  connect-usable c w e u =
      let otherwise = locked (connect_locked usable dial) in
      ap (λ o. execute (found usable dial o w.outside otherwise) w) e
      ∙ ap (λ (b : Bool). execute (if b then pure c else otherwise) w) u

  -- With no connection and the mutex free, the call makes one and keeps it; when that throws, no
  -- connection is kept and the error is thrown on. The mutex is free again in both cases.
  pub connect-new :
      (w : Shared C O)
      → w.held ≡ false
      → w.client ≡ none
      → execute (connect usable dial) w ≡ released (kept (execute dial (set_held true w)))
  unfolding connect execute
  connect-new w free e =
      let otherwise = locked (connect_locked usable dial) in
      ap (λ o. execute (found usable dial o w.outside otherwise) w) e
      ∙ (execute-locked (connect_locked usable dial) w free
          ∙ ap released (
              ap
                (λ o.
                  execute (found usable dial o w.outside (Effect.bind dial keep)) (set_held true w))
                e
              ∙ (execute-bind dial keep (set_held true w)
                  ∙ continue-keep (execute dial (set_held true w)))))

  -- With no connection and the mutex free, when making a connection succeeds with a usable one,
  -- the second of two calls in a row gets the connection that the first one made, and makes
  -- none.
  pub connect-connect :
      (c : C) (w w' : Shared C O)
      → w.held ≡ false
      → w.client ≡ none
      → execute dial (set_held true w) ≡ (returned c, w')
      → usable c w'.outside ≡ true
      → execute (Effect.bind (connect usable dial) (λ _. connect usable dial)) w
        ≡ execute (connect usable dial) w
  connect-connect c w w' free e d u =
      let first : execute (connect usable dial) w
          ≡ (returned c, record { client = some c; held = false; outside = w'.outside }) =
        connect-new w free e ∙ ap (λ o. released (kept o)) d in
      execute-bind (connect usable dial) (λ _. connect usable dial) w
      ∙ rw first (connect-usable c _ refl u)
