-- ===== src/PinoMssqlserver/Queue.antt =====
-- packages/pino-mssqlserver/src/batchQueueProcessor.ts. The queue is one array, which `enqueue` and
-- every `flush` share; `given` are the entries that have been handed to the batch handler, in order.
-- A batch is taken in one chunk, so what interleaves is whole batches.
pub mod Order
use rocket_toolkit.Prelude.{
  ℕ, zero, suc, Bool, true, false, Option, none, some, List, [], ◌∷◌, ◌++◌, length,
}

module _ {A : Type 0} where
  -- what `splice(0, n)` takes out, and what it leaves
  abbrev pub taken : ℕ → List A → List A
  taken zero queue = []
  taken (suc n) [] = []
  taken (suc n) (x ∷ queue) = x ∷ taken n queue

  abbrev pub left : ℕ → List A → List A
  left zero queue = queue
  left (suc n) [] = []
  left (suc n) (x ∷ queue) = left n queue

  -- One `flush` with nothing else running: the batches, in order, for at most `turns` turns of its
  -- loop; the loop ends at the first empty batch.
  unfoldable pub flush : ℕ → ℕ → List A → List (List A)
  flush zero batch_limit queue = []
  flush (suc turns) batch_limit queue =
      let rest = flush turns batch_limit (left batch_limit queue) in
      elim (taken batch_limit queue) [ [] ↦ [] | x ∷ batch ↦ (x ∷ batch) ∷ rest ]

pub record Processor (A : Type 0) : Type 0 where
  pub queue : List A
  pub given : List A
  -- whether the timer has been aborted
  pub aborted : Bool

module _ {A : Type 0} where
  abbrev pub empty_processor : Processor A
  empty_processor = record { queue = []; given = []; aborted = false }

  unfoldable pub enqueue : A → Processor A → Processor A
  enqueue obj p = record p { queue = p.queue ++ obj ∷ [] }

  -- one turn of the loop of a `flush`
  unfoldable pub take_batch : ℕ → Processor A → Processor A
  take_batch batch_limit p = record p {
    queue = left batch_limit p.queue;
    given = p.given ++ taken batch_limit p.queue;
  }

  unfoldable pub abort : Processor A → Processor A
  abort p = record p { aborted = true }

  -- The states that are reached, with the entries that have been enqueued since the start.
  pub data Reach (batch_limit : ℕ) : List A → Processor A → Type 0 where
    start : Reach batch_limit [] empty_processor
    logged :
        {entries : List A} {p : Processor A} (obj : A)
        → Reach batch_limit entries p
        → Reach batch_limit (entries ++ obj ∷ []) (enqueue obj p)
    flushed :
        {entries : List A} {p : Processor A}
        → Reach batch_limit entries p
        → Reach batch_limit entries (take_batch batch_limit p)
    closed :
        {entries : List A} {p : Processor A}
        → Reach batch_limit entries p
        → Reach batch_limit entries (abort p)
