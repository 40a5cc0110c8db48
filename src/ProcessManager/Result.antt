-- ===== src/ProcessManager/Result.antt =====
-- packages/process-manager/src/result.ts: a value or an error, as data. `T | null` is `Option T`,
-- for a `T` that has no null of its own.
pub mod Laws
use rocket_toolkit.Prelude.{Bool, true, false, Option, none, some}

pub data Result {ℓ κ} (T : Type ℓ) (E : Type κ) : Type (ℓ ⊔ κ) where
  ok : T → Result T E
  err : E → Result T E

module _ {ℓ κ} {T : Type ℓ} {E : Type κ} where
  pub is_ok : Result T E → Bool
  is_ok (ok value) = true
  is_ok (err e) = false

  pub is_err : Result T E → Bool
  is_err (ok value) = false
  is_err (err e) = true

  pub map_result {μ} : {U : Type μ} → Result T E → (T → U) → Result U E
  map_result (ok value) f = ok (f value)
  map_result (err e) f = err e

  pub map_err {μ} : {F : Type μ} → Result T E → (E → F) → Result T F
  map_err (ok value) f = ok value
  map_err (err e) f = err (f e)

  pub bind {μ} : {U : Type μ} → Result T E → (T → Result U E) → Result U E
  bind (ok value) f = f value
  bind (err e) f = err e

  pub flat_map {μ} : {U : Type μ} → Result T E → (T → Result U E) → Result U E
  unfolding bind
  flat_map r f = bind r f

  unfoldable pub match {μ} : {R : Type μ} → Result T E → (T → R) → (E → R) → R
  match (ok value) on_ok on_err = on_ok value
  match (err e) on_ok on_err = on_err e

  pub to_option : Result T E → Option T
  to_option (ok value) = some value
  to_option (err e) = none

  pub from_option : Option T → E → Result T E
  from_option (some value) e = ok value
  from_option none e = err e

  pub from_nullable : Option T → E → Result T E
  unfolding from_option
  from_nullable value e = from_option value e
