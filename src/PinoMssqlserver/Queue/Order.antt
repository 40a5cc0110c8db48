-- ===== src/PinoMssqlserver/Queue/Order.antt =====
-- The order in which the entries are handed over.
use rocket_toolkit.Prelude.{
  ℕ, zero, suc, ◌≤◌, ◌<◌, ◌≡◌, refl, sym, ap, ◌∙◌, List, [], ◌∷◌, ◌++◌, append_assoc, length, arith,
}
use rocket_toolkit.PinoMssqlserver.Queue.{
  taken, left, flush, Processor, enqueue, take_batch, abort, Reach, start, logged, flushed, closed,
}

module _ {A : Type 0} where
  taken-left : (n : ℕ) (queue : List A) → taken n queue ++ left n queue ≡ queue
  taken-left zero queue = refl
  taken-left (suc n) [] = refl
  taken-left (suc n) (x ∷ queue) = ap (λ l. x ∷ l) (taken-left n queue)

  -- However logging, batches of any number of flushes and closing interleave: what has been handed
  -- to the batch handler, with what is still in the queue behind it, is every entry that was
  -- enqueued, each once, in the order of the calls.
  pub given-queue :
      {batch_limit : ℕ} {entries : List A} {p : Processor A}
      → Reach batch_limit entries p
      → p.given ++ p.queue ≡ entries
  unfolding enqueue take_batch abort
  given-queue start = refl
  given-queue (logged {p} obj r) =
      sym (append_assoc p.given p.queue (obj ∷ [])) ∙ ap (λ l. l ++ obj ∷ []) (given-queue r)
  given-queue {batch_limit} (flushed {p} r) =
      append_assoc p.given (taken batch_limit p.queue) (left batch_limit p.queue)
      ∙ (ap (λ l. p.given ++ l) (taken-left batch_limit p.queue) ∙ given-queue r)
  given-queue (closed r) = given-queue r

  pub concat_all : List (List A) → List A
  concat_all [] = []
  concat_all (batch ∷ batches) = batch ++ concat_all batches

  -- every batch has an entry, and no more than the limit
  abbrev pub AllWithin : ℕ → List (List A) → Type 0
  AllWithin batch_limit [] = Unit
  AllWithin batch_limit (batch ∷ batches) =
      (0 < length batch) × (length batch ≤ batch_limit) × AllWithin batch_limit batches

  length-taken : (n : ℕ) (queue : List A) → length (taken n queue) ≤ n
  length-taken zero queue = omega arith
  length-taken (suc n) [] = omega arith
  length-taken (suc n) (x ∷ queue) = omega (arith, length-taken n queue)

  length-left : (n : ℕ) (queue : List A) → length (left n queue) ≤ length queue
  length-left zero queue = omega arith
  length-left (suc n) [] = omega arith
  length-left (suc n) (x ∷ queue) = omega (arith, length-left n queue)

  -- A `flush` alone empties the queue within as many turns as the queue has entries: its batches are
  -- the queue, in order, and each has at least one entry and at most the limit, which is not 0.
  pub concat_all-flush :
      (limit turns : ℕ) (queue : List A)
      → length queue ≤ turns
      → (concat_all (flush turns (suc limit) queue) ≡ queue)
        × AllWithin (suc limit) (flush turns (suc limit) queue)
  unfolding flush concat_all
  concat_all-flush limit zero [] h = (refl, tt)
  concat_all-flush limit zero (x ∷ queue) h = absurd (omega arith)
  concat_all-flush limit (suc turns) [] h = (refl, tt)
  concat_all-flush limit (suc turns) (x ∷ queue) h =
      let shorter = length-left limit queue in
      let (all, within) = concat_all-flush limit turns (left limit queue) (omega arith) in
      (
        ap (λ l. (x ∷ taken limit queue) ++ l) all ∙ ap (λ l. x ∷ l) (taken-left limit queue),
        (omega arith, omega (arith, length-taken limit queue), within),
      )
