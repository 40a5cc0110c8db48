-- ===== src/MessageBus/Emitters.antt =====
-- The emitters in packages/message-bus/src/transport that pass their listeners on: a subscription or a
-- connection of the bus is an `EventEmitter` whose 'newListener' and 'removeListener' events add the
-- listener to the object of the client library, and remove it there. A listener is taken with its event.
use rocket_toolkit.Prelude.{
  ◌≡◌, refl, sym, ap, ◌∙◌, Bool, true, false, ◌||◌, Bool-cases, inl, inr, List, [], ◌∷◌, ◌++◌,
  append-nil, append_assoc, if◌then◌else◌,
}

module _ {L : Type 0} (same : L → L → Bool) where
  abbrev pub has : L → List L → Bool
  has l [] = false
  has l (x ∷ listeners) = same x l || has l listeners

  -- `removeListener` of node: the one that was added last is removed
  abbrev pub remove_last : L → List L → List L
  remove_last l [] = []
  remove_last l (x ∷ listeners) =
      let rest = remove_last l listeners in
      if has l listeners then x ∷ rest else if same x l then listeners else x ∷ listeners

  -- `listeners` are those of the emitter, and `client` those of the object behind it.
  pub record Emitter : Type 0 where
    pub listeners : List L
    pub client : List L

  -- `on`: 'newListener' comes before the listener is added
  unfoldable pub on : L → Emitter → Emitter
  on l e = record { listeners = e.listeners ++ l ∷ []; client = e.client ++ l ∷ [] }

  -- 'removeListener' comes behind a listener that was removed: one that is not there is none
  unfoldable pub remove_listener : L → Emitter → Emitter
  remove_listener l e =
      if has l e.listeners
      then record { listeners = remove_last l e.listeners; client = remove_last l e.client }
      else e

  -- the states of an emitter over an object that has listeners of its own
  pub data Reach (own : List L) : Emitter → Type 0 where
    wrapped : Reach own (record { listeners = []; client = own })
    added : {e : Emitter} (l : L) → Reach own e → Reach own (on l e)
    removed : {e : Emitter} (l : L) → Reach own e → Reach own (remove_listener l e)

  has-append :
      (l : L) (own listeners : List L) → has l listeners ≡ true → has l (own ++ listeners) ≡ true
  has-append l [] listeners h = h
  has-append l (x ∷ own) listeners h = or_right (same x l) (has-append l own listeners h)
    where
      or_right : (b : Bool) {c : Bool} → c ≡ true → b || c ≡ true
      or_right true e = refl
      or_right false e = e

  remove_last-append :
      (l : L) (own listeners : List L)
      → has l listeners ≡ true
      → remove_last l (own ++ listeners) ≡ own ++ remove_last l listeners
  remove_last-append l [] listeners h = refl
  remove_last-append l (x ∷ own) listeners h =
      let there = has-append l own listeners h in
      rw there (ap (λ rest. x ∷ rest) (remove_last-append l own listeners h))

  removed_below :
      (own : List L) (l : L) (e : Emitter)
      → e.client ≡ own ++ e.listeners
      → (remove_listener l e).client ≡ own ++ (remove_listener l e).listeners
  unfolding remove_listener
  removed_below own l e mirrored = elim (Bool-cases (has l e.listeners)) [
    | inl there ↦
        rw there (ap (remove_last l) mirrored ∙ remove_last-append l own e.listeners there)
    | inr missing ↦ rw missing mirrored
  ]

  -- Whatever listeners are added to the emitter and removed from it, the object behind it has its own
  -- listeners, each of which is kept, and behind them those of the emitter, in the same order.
  pub client_lem : {own : List L} {e : Emitter} → Reach own e → e.client ≡ own ++ e.listeners
  unfolding on
  client_lem {own} wrapped = sym (append-nil own)
  client_lem {own} (added {e} l r) =
      ap (λ ls. ls ++ l ∷ []) (client_lem r) ∙ append_assoc own e.listeners (l ∷ [])
  client_lem {own} (removed {e} l r) = removed_below own l e (client_lem r)
