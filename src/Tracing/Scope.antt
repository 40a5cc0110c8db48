-- ===== src/Tracing/Scope.antt =====
-- packages/opentracing/src/spanManager.ts. The store of an async context is one array of spans, the
-- active one last; none is where there is no store. `A` is what else the action works on.
use rocket_toolkit.Prelude.{◌≡◌, refl, ap, ◌∙◌, Option, none, some, List, [], ◌∷◌, ◌++◌}

module _ {S : Type 0} where
  abbrev pub last : List S → Option S
  last [] = none
  last (s ∷ spans) = elim spans [ [] ↦ some s | t ∷ more ↦ last spans ]

  abbrev pub without_last : List S → List S
  without_last [] = []
  without_last (s ∷ spans) = elim spans [ [] ↦ [] | t ∷ more ↦ s ∷ without_last spans ]

  unfoldable pub get_active_span : Option (List S) → Option S
  get_active_span none = none
  get_active_span (some context) = last context

  unfoldable pub begin_scope : S → Option (List S) → Option (List S)
  begin_scope span none = none
  begin_scope span (some context) = some (context ++ span ∷ [])

  unfoldable pub end_scope : Option (List S) → Option (List S)
  end_scope none = none
  end_scope (some context) = some (without_last context)

module _ {S : Type 0} where
  last-snoc : (context : List S) (span : S) → last (context ++ span ∷ []) ≡ some span
  last-snoc [] span = refl
  last-snoc (s ∷ []) span = refl
  last-snoc (s ∷ t ∷ spans) span = last-snoc (t ∷ spans) span

  without_last-snoc : (context : List S) (span : S) → without_last (context ++ span ∷ []) ≡ context
  without_last-snoc [] span = refl
  without_last-snoc (s ∷ []) span = refl
  without_last-snoc (s ∷ t ∷ spans) span = ap (λ l. s ∷ l) (without_last-snoc (t ∷ spans) span)

-- how an action ends: what it returns or throws, with the store that it leaves
pub data Ending (X : Type 0) : Type 0 where
  returned : Ending X
  threw : X → Ending X

module _ {S X : Type 0} where
  -- `withScope`: the `finally` block runs on both endings
  unfoldable pub with_scope :
      S
      → (Option (List S) → Ending X × Option (List S))
      → Option (List S)
      → Ending X × Option (List S)
  unfolding begin_scope end_scope
  with_scope span action context =
      let (ending, after) = action (begin_scope span context) in (ending, end_scope after)

  -- `useSpanManager`: the action has a store of its own, and the one around it is left alone
  unfoldable pub use_span_manager :
      S
      → (Option (List S) → Ending X × Option (List S))
      → Option (List S)
      → Ending X × Option (List S)
  use_span_manager root_span scope_action context =
      let (ending, after) = scope_action (some (root_span ∷ [])) in (ending, context)

  -- Inside a scope the span of the scope is active, and behind the scope the spans are what they
  -- were, also when the action throws, when the action leaves the store as it found it.
  pub with_scope_lem :
      (span : S) (action : Option (List S) → Ending X × Option (List S)) (context : List S)
      → (action (some (context ++ span ∷ []))).1 ≡ some (context ++ span ∷ [])
      → (get_active_span (begin_scope span (some context)) ≡ some span)
        × (with_scope span action (some context)
            ≡ ((action (some (context ++ span ∷ []))).0, some context))
  unfolding get_active_span begin_scope with_scope end_scope
  with_scope_lem span action context balanced = (
    last-snoc context span,
    ap (λ (after : Option (List S)). ((action (some (context ++ span ∷ []))).0, end_scope after))
          balanced
        ∙ ap (λ l. ((action (some (context ++ span ∷ []))).0, some l))
            (without_last-snoc context span),
  )
