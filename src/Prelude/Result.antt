-- ===== src/Prelude/Result.antt =====
-- The codes of app/aris3/core/error_catalog.py that the modelled code raises, and a request's
-- outcome. A handler that raises has its transaction rolled back, so an error carries no state.
use mathlib.Core.Path.{◌≡◌, refl, subst}
use aris_cloud.Prelude.Tests.{if◌then◌else◌}
use mathlib.Core.Bool.{Bool, true, false}
use mathlib.Core.Option.{Option, none, some}

pub data AppError : Type 0 where
  validation_error business_conflict resource_not_found permission_denied : AppError
  tenant_scope_required cross_tenant_access_denied : AppError
  store_scope_required store_scope_mismatch : AppError
  idempotency_key_required idempotency_request_in_progress : AppError
  idempotency_key_reused_with_different_payload : AppError

pub data Result {ℓ} (A : Type ℓ) : Type ℓ where
  ok : A → Result A
  err : AppError → Result A

-- The call that follows is made only when this one raised nothing.
module _ {ℓ κ} {A : Type ℓ} {B : Type κ} where
  infixl 5 ◌>>=◌ ◌>>◌
  abbrev pub ◌>>=◌ : Result A → (A → Result B) → Result B
  err raised >>= rest = err raised
  ok value >>= rest = rest value

  abbrev pub ◌>>◌ : Result A → Result B → Result B
  check >> rest = check >>= (λ _. rest)

-- `if b: raise e`
abbrev pub raise_if : Bool → AppError → Result (Unit {0})
raise_if true e = err e
raise_if false e = ok tt

-- `if x is None: raise e`
abbrev pub or_raise {ℓ} : {A : Type ℓ} → Option A → AppError → Result A
or_raise none e = err e
or_raise (some a) e = ok a

-- What holds of a result that is no error.
abbrev pub Ensures {ℓ κ} : {A : Type ℓ} → (A → Type κ) → Result A → Type κ
Ensures P (ok a) = P a
Ensures P (err e) = Unit

module _ {ℓ κ} {A : Type ℓ} (P : A → Type κ) where
  pub Ensures-bind {μ} :
      {B : Type μ} (m : Result B) (f : B → Result A)
      → ((b : B) → m ≡ ok b → Ensures P (f b))
      → Ensures P (m >>= f)
  Ensures-bind (ok b) f h = h b refl
  Ensures-bind (err e) f h = tt

  pub Ensures-raise_if :
      (b : Bool) (e : AppError) (k : Result A)
      → (b ≡ false → Ensures P k)
      → Ensures P (raise_if b e >> k)
  Ensures-raise_if true e k h = tt
  Ensures-raise_if false e k h = h refl

  pub Ensures-if :
      (b : Bool) (k k' : Result A)
      → (b ≡ true → Ensures P k)
      → (b ≡ false → Ensures P k')
      → Ensures P (if b then k else k')
  Ensures-if true k k' h h' = h refl
  Ensures-if false k k' h h' = h' refl

  pub Ensures-ok : (r : Result A) {a : A} → Ensures P r → r ≡ ok a → P a
  Ensures-ok (ok b) {a} h e = subst (Ensures P) e h
  Ensures-ok (err x) h e = cc

pub Ensures-map {ℓ κ μ} :
    {A : Type ℓ} (P : A → Type κ) (Q : A → Type μ) (r : Result A)
    → ((a : A) → P a → Q a)
    → Ensures P r
    → Ensures Q r
Ensures-map P Q (ok a) f h = f a h
Ensures-map P Q (err e) f h = tt

pub or_raise-some {ℓ} :
    {A : Type ℓ} (o : Option A) (e : AppError) {a : A} → or_raise o e ≡ ok a → o ≡ some a
or_raise-some none e h = cc
or_raise-some (some b) e {a} h = Ensures-ok (λ x. some b ≡ some x) (ok b) {a = a} refl h
