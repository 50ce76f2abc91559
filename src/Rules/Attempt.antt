-- ===== src/Rules/Attempt.antt =====
-- What Resolve and its steps return: a value, or the error that ends the call.
use vtt_platform.Prelude.{Bool, true, false}
use vtt_platform.Rules.Eval.{EvalError}

-- One constructor for each message of resolve.go.
pub data ResolveError : Type 0 where
  unknown_ability unknown_caster no_targets too_many_targets : ResolveError
  duplicate_target unknown_target : ResolveError
  missing_attribute missing_defense : ResolveError
  no_usage_resource insufficient_resource : ResolveError
  no_caster_token no_target_token out_of_range : ResolveError
  no_such_resource outside_int32 : ResolveError
  evaluation : EvalError → ResolveError

pub data Attempt {ℓ} (A : Type ℓ) : Type ℓ where
  done : A → Attempt A
  failed : ResolveError → Attempt A

module _ {ℓ κ} {A : Type ℓ} {B : Type κ} where
  infixl 1 ◌>>=◌
  abbrev pub ◌>>=◌ : Attempt A → (A → Attempt B) → Attempt B
  done a >>= next = next a
  failed e >>= next = failed e

infixl 1 ◌>>◌
abbrev pub ◌>>◌ {ℓ} : {B : Type ℓ} → Attempt (Unit {0}) → Attempt B → Attempt B
m >> next = m >>= (λ _. next)

-- if bad { return nil, err }
abbrev pub refuse_if : Bool → ResolveError → Attempt (Unit {0})
refuse_if true e = failed e
refuse_if false e = done tt
