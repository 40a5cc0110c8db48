-- ===== src/ProcessManager/Result/Laws.antt =====
-- Laws of the combinators in result.ts.
use rocket_toolkit.Prelude.{◌≡◌, refl, true, false, not}
use rocket_toolkit.ProcessManager.Result.{
  Result, ok, err, is_ok, is_err, map_result, map_err, bind, flat_map, match, to_option,
  from_option,
}

module _ {ℓ κ} {T : Type ℓ} {E : Type κ} where
  -- `bind` runs its function on a value alone, and every combinator is a case of `match`: `map` and
  -- `mapErr` change the side that they are named for, and leave the other as it is.
  pub combinators-match {μ ν} :
      {U : Type μ} {F : Type ν} (r : Result T E) (f : T → Result U E) (g : T → U) (h : E → F)
      → (bind r f ≡ match r f err)
        × (flat_map r f ≡ match r f err)
        × (map_result r g ≡ match r (λ value. ok (g value)) err)
        × (map_err r h ≡ match r ok (λ e. err (h e)))
        × (is_ok r ≡ match r (λ _. true) (λ _. false))
        × (is_err r ≡ not (is_ok r))
  unfolding bind flat_map map_result map_err match is_ok is_err
  combinators-match (ok value) f g h = (refl, refl, refl, refl, refl, refl)
  combinators-match (err e) f g h = (refl, refl, refl, refl, refl, refl)

  -- `flatMap` is associative, and `map` is a `bind` that wraps its result.
  pub bind_assoc {μ ν} :
      {U : Type μ} {V : Type ν} (r : Result T E) (f : T → Result U E) (g : U → Result V E)
      → bind (bind r f) g ≡ bind r (λ value. bind (f value) g)
  unfolding bind
  bind_assoc (ok value) f g = refl
  bind_assoc (err e) f g = refl

  -- Through an option and back, a result keeps its value, and a failure takes the error given.
  pub from_option-to_option :
      (r : Result T E) (e : E) → from_option (to_option r) e ≡ map_err r (λ _. e)
  unfolding from_option to_option map_err
  from_option-to_option (ok value) e = refl
  from_option-to_option (err x) e = refl
