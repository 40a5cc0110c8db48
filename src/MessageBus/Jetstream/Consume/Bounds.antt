-- ===== src/MessageBus/Jetstream/Consume/Bounds.antt =====
-- How many handlers run at once, and in which order they are started.
use mathlib.Core.Path.{subst}
use rocket_toolkit.Prelude.{
  ℕ, suc, ◌+◌, ◌≤◌, ◌≡◌, refl, sym, ap, ◌∙◌, Bool, Option, none, some, List, [], ◌∷◌, ◌++◌,
  append_assoc, length, arith,
}
use rocket_toolkit.ProcessManager.Effect.{Effect, Completion, throw}
use rocket_toolkit.MessageBus.Jetstream.Consume.{
  Consumer, Step, Reach, subscribed, receives, starts, runs, returns, throws, here, later,
}

-- the message that the loop holds
abbrev pub held {ℓ} : {A : Type ℓ} → Option A → List A
held none = []
held (some m) = m ∷ []

length_replaced {ℓ} :
    {A : Type ℓ} (before : List A) (a b : A) (after : List A)
    → length (before ++ a ∷ after) ≡ length (before ++ b ∷ after)
length_replaced [] a b after = refl
length_replaced (x ∷ before) a b after = omega (arith, length_replaced before a b after)

length_removed {ℓ} :
    {A : Type ℓ} (before : List A) (a : A) (after : List A)
    → length (before ++ a ∷ after) ≡ suc (length (before ++ after))
length_removed [] a after = refl
length_removed (x ∷ before) a after = omega (arith, length_removed before a after)

module _ {W T Raw : Type 0} (de_serialize : Raw → Completion T) (handler : T → Effect W (Unit {0}))
    (ack : Raw → Effect W (Unit {0})) (manual_ack : Bool) (max_concurrent : ℕ)
    (messages : List Raw) where
  pub record IsConsumer (c : Consumer W Raw) : Type 0 where
    pub all_slots : length c.running + c.slots ≡ max_concurrent
    pub in_order : c.started ++ (held c.waiting ++ c.incoming) ≡ messages

  pub subscribed-IsConsumer :
      (w : W)
      → IsConsumer (subscribed de_serialize handler ack manual_ack max_concurrent messages w)
  subscribed-IsConsumer w = record { all_slots = omega arith; in_order = refl }

  Step-IsConsumer :
      {c d : Consumer W Raw}
      → Step de_serialize handler ack manual_ack c d
      → IsConsumer c
      → IsConsumer d
  Step-IsConsumer {c} (receives m rest e f ed) h = subst IsConsumer (sym ed) (record {
    all_slots = h.all_slots;
    in_order =
        ap (λ (t : List Raw). c.started ++ t) (sym (ap (λ o. held o ++ c.incoming) e ∙ f))
        ∙ h.in_order;
  })
  Step-IsConsumer {c} (starts m slots e f ed) h = subst IsConsumer (sym ed) (record {
    all_slots = omega (arith, h.all_slots, f);
    in_order =
        append_assoc c.started (m ∷ []) c.incoming
        ∙ ap (λ o. c.started ++ (held o ++ c.incoming)) (sym e)
        ∙ h.in_order;
  })
  Step-IsConsumer {c} (runs before ready update next after e r ed) h =
      subst IsConsumer (sym ed) (record {
        all_slots = omega (
          arith,
          h.all_slots,
          ap (λ t. length t) e,
          length_replaced before (chunk' c) (next c.world) after,
        );
        in_order = h.in_order;
      })
    where
      chunk' : Consumer W Raw → Effect W (Unit {0})
      chunk' c = Effect.chunk ready update next
  Step-IsConsumer {c} (returns before after e ed) h = subst IsConsumer (sym ed) (record {
    all_slots =
        omega
          (arith, h.all_slots, ap (λ t. length t) e, length_removed before (Effect.pure tt) after);
    in_order = h.in_order;
  })
  Step-IsConsumer {c} (throws before after x e ed) h = subst IsConsumer (sym ed) (record {
    all_slots =
        omega (arith, h.all_slots, ap (λ t. length t) e, length_removed before (throw x) after);
    in_order = h.in_order;
  })

  pub Reach-IsConsumer :
      {c d : Consumer W Raw}
      → Reach de_serialize handler ack manual_ack c d
      → IsConsumer c
      → IsConsumer d
  Reach-IsConsumer here h = h
  Reach-IsConsumer (later r st) h = Step-IsConsumer st (Reach-IsConsumer r h)

  -- In every state that the loop reaches from its subscription, whatever the handlers do and however
  -- their steps are interleaved, at most `max_concurrent` handlers run; and the messages whose
  -- handlers were started, the message that waits, and those that have not come are together the
  -- messages of the stream, each of them once and in its order.
  pub concurrency_bounded :
      (w : W) (c : Consumer W Raw)
      → Reach de_serialize handler ack manual_ack
          (subscribed de_serialize handler ack manual_ack max_concurrent messages w)
          c
      → (length c.running ≤ max_concurrent)
        × (c.started ++ (held c.waiting ++ c.incoming) ≡ messages)
  concurrency_bounded w c r =
      let h = Reach-IsConsumer r (subscribed-IsConsumer w) in
      (omega (arith, h.all_slots), h.in_order)
