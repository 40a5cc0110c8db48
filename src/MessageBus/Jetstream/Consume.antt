-- ===== src/MessageBus/Jetstream/Consume.antt =====
-- The consumer loop of `subscribe` in packages/message-bus/src/transport/jetstream/index.ts: messages
-- come from the iterator, each waits for a slot of the semaphore, and its handler runs beside those
-- of the others. The event loop chooses what happens next.
pub mod Bounds
pub mod Progress
use rocket_toolkit.Prelude.{ℕ, suc, ◌≡◌, Bool, true, Option, none, some, List, [], ◌∷◌, ◌++◌}
use rocket_toolkit.ProcessManager.Effect.{Effect, Error, Completion, pure, throw, chunk}
use rocket_toolkit.MessageBus.Subscriptions.{on_message}

-- `waiting` is the message that the loop holds while it waits for a slot, `slots` is the value of the
-- semaphore, and `running` are the handlers under way. `started` are the messages whose handler was
-- started, in that order, and `incoming` are those that the iterator has not given yet.
pub record Consumer (W Raw : Type 0) : Type 0 where
  pub incoming : List Raw
  pub waiting : Option Raw
  pub started : List Raw
  pub slots : ℕ
  pub running : List (Effect W (Unit {0}))
  pub world : W

module _ {W T Raw : Type 0} (de_serialize : Raw → Completion T) (handler : T → Effect W (Unit {0}))
    (ack : Raw → Effect W (Unit {0})) (manual_ack : Bool) where
  -- the `try` block of a message
  abbrev pub task : Raw → Effect W (Unit {0})
  task = on_message de_serialize handler ack manual_ack

  -- before the loop, with a new semaphore
  abbrev pub subscribed : ℕ → List Raw → W → Consumer W Raw
  subscribed max_concurrent messages w = record {
    incoming = messages;
    waiting = none;
    started = [];
    slots = max_concurrent;
    running = [];
    world = w;
  }

  -- the iterator gives the next message
  abbrev pub receive : Raw → List Raw → Consumer W Raw → Consumer W Raw
  receive m rest c = record c { incoming = rest; waiting = some m }

  -- `semaphore.acquire()` ends, and the handler is started and not awaited
  abbrev pub start : Raw → ℕ → Consumer W Raw → Consumer W Raw
  start m slots c = record c {
    waiting = none;
    started = c.started ++ m ∷ [];
    slots = slots;
    running = task m ∷ c.running;
  }

  -- the `finally` block: a handler that has ended, either way, gives its slot back
  abbrev pub finish : List (Effect W (Unit {0})) → Consumer W Raw → Consumer W Raw
  finish running c = record c { slots = suc c.slots; running = running }

  pub data Step (c d : Consumer W Raw) : Type 0 where
    receives :
        (m : Raw) (rest : List Raw)
        → c.waiting ≡ none
        → c.incoming ≡ m ∷ rest
        → d ≡ receive m rest c
        → Step c d
    starts :
        (m : Raw) (slots : ℕ)
        → c.waiting ≡ some m
        → c.slots ≡ suc slots
        → d ≡ start m slots c
        → Step c d
    runs :
        (before : List (Effect W (Unit {0}))) (ready : W → Bool) (update : W → W)
        (next : W → Effect W (Unit {0})) (after : List (Effect W (Unit {0})))
        → c.running ≡ before ++ chunk ready update next ∷ after
        → ready c.world ≡ true
        → d ≡ record c { running = before ++ next c.world ∷ after; world = update c.world }
        → Step c d
    returns :
        (before after : List (Effect W (Unit {0})))
        → c.running ≡ before ++ pure tt ∷ after
        → d ≡ finish (before ++ after) c
        → Step c d
    throws :
        (before after : List (Effect W (Unit {0}))) (e : Error)
        → c.running ≡ before ++ throw e ∷ after
        → d ≡ finish (before ++ after) c
        → Step c d

  pub data Reach (c : Consumer W Raw) : Consumer W Raw → Type 0 where
    here : Reach c c
    later : {d e : Consumer W Raw} → Reach c d → Step d e → Reach c e
