-- ===== src/Rules/Soundness.antt =====
-- Steps of a resolution whose events the engine accepts.
use vtt_platform.Prelude.{
  ◌-◌, ◌^◌, ◌≡◌, subst, refl, String, Bool, true, false, not, ◌||◌, Option, none, some, List, [],
  ◌∷◌, is_some, arith, All, All-append, Bool-cases, inl, inr,
}
use vtt_platform.Prelude.Int.{ℤ, pos, negsuc, eq_ℤ, ltb_ℤ, IsInt32}
use vtt_platform.Go.GoMap.{Map, get}
use vtt_platform.Contract.Event.{Resource}
use vtt_platform.Engine.State.{State}
use vtt_platform.Engine.Apply.Outcome.{empty_or_over, max_id_bytes}
use vtt_platform.Rules.Eval.{Roller, EvalContext, Outcome, value, error, eval}
use vtt_platform.Rules.Ruleset.{
  Threshold, ResourceDef, OutcomeDef, ResourceChangeOutcome, resource_change, apply_condition,
  remove_condition,
}
use vtt_platform.Rules.Attempt.{
  Attempt, done, failed, ◌>>=◌, ResolveError, refuse_if, no_such_resource,
}
use vtt_platform.Rules.Running.{
  ResKey, ResolveState, resource_of, apply_delta, holds_condition, set_condition, find_running,
  context_of,
}
use vtt_platform.Rules.Outcomes.{
  Progress, idle, after, int32_checked, eval_recording_scoped, change_resource, change_existing,
  apply_if_absent, remove_if_present, apply_outcome, apply_outcomes, after_when, eval_thresholds_of,
  eval_thresholds_at, eval_thresholds,
}
use vtt_platform.Rules.Accepted.{Accepts, Accepts-append, InStep}
use vtt_platform.Rules.Stepping.{changed-Accepts}
use vtt_platform.Rules.Marking.{applied-Accepts, removed-Accepts}

-- What an attempt returns, if anything, satisfies `P`.
pub data Returns {ℓ κ} {A : Type ℓ} (P : A → Type κ) : Attempt A → Type (ℓ ⊔ κ) where
  returns : {a : A} → P a → Returns P (done a)
  fails : {e : ResolveError} → Returns P (failed e)

module _ {ℓ κ} {A : Type ℓ} {P : A → Type κ} where
  pub Returns-done : {m : Attempt A} (a : A) → m ≡ done a → Returns P m → P a
  Returns-done a e (returns p) = subst P (cc) p
  Returns-done a e fails = cc

  pub Returns-then {ℓ' κ'} :
      {B : Type ℓ'} {Q : B → Type κ'} {m : Attempt A} {next : A → Attempt B}
      → ((a : A) → P a → Returns Q (next a))
      → Returns P m
      → Returns Q (m >>= next)
  Returns-then k (returns {a} p) = k a p
  Returns-then k fails = fails

  pub Returns-map {κ'} :
      {Q : A → Type κ'} {m : Attempt A} → ((a : A) → P a → Q a) → Returns P m → Returns Q m
  Returns-map f (returns {a} p) = returns (f a p)
  Returns-map f fails = fails

-- A condition id that the engine takes.
abbrev pub FitsId : String → Type 0
FitsId id = empty_or_over max_id_bytes id ≡ false

abbrev pub FitsOutcome : OutcomeDef → Type 0
FitsOutcome (apply_condition id) = FitsId id
FitsOutcome _ = Unit

abbrev pub FitsThreshold : Threshold → Type 0
FitsThreshold th = FitsId th.apply_condition

pub Returns-any {ℓ} : {A : Type ℓ} (m : Attempt A) → Returns (λ _. Unit {0}) m
Returns-any (done a) = returns tt
Returns-any (failed e) = fails

pub refuse_if-false : (b : Bool) (e : ResolveError) → Returns (λ _. b ≡ false) (refuse_if b e)
refuse_if-false true e = fails
refuse_if-false false e = returns refl

is_some-some {ℓ} : {A : Type ℓ} (o : Option A) → is_some o ≡ true → (a : A) × (o ≡ some a)
is_some-some none h = absurd (cc)
is_some-some (some a) h = (a, refl)

int32_checked-IsInt32 : (n : ℤ) → Returns (λ v. IsInt32 n) (int32_checked n)
unfolding int32_checked
int32_checked-IsInt32 n =
    elim (Bool-cases (ltb_ℤ n (negsuc (2 ^ 31 - 1)) || ltb_ℤ (pos (2 ^ 31 - 1)) n)) [
      | inl e ↦ rw e fails
      | inr e ↦ rw e (returns (ground arith))
    ]

-- Every threshold of a definition, if there is one, names a condition that the engine takes.
abbrev pub FitsDef : Option ResourceDef → Type 0
FitsDef none = Unit
FitsDef (some def) = All FitsThreshold def.thresholds

module _ (st : State) where
  abbrev pub IsHeld : ResKey → Type 0
  IsHeld key = is_some (get st.actors key.actor) ≡ true

  pub apply_delta-changed :
      (r : ResolveState) (a n : String) (d : ℤ)
      → is_some (get st.actors a) ≡ true
      → All IsHeld r.changed_order
      → All IsHeld (apply_delta st r a n d).1.changed_order
  unfolding apply_delta
  apply_delta-changed r a n d k h =
      elim (Bool-cases (is_some (find_running (record { actor = a; resource = n }) r.running))) [
        | inl e ↦ rw e h
        | inr e ↦ rw e (All-append IsHeld r.changed_order _ h (k, tt))
      ]

  pub resource_of-held :
      (a n : String) (res : Resource)
      → resource_of st a n ≡ some res
      → is_some (get st.actors a) ≡ true
  unfolding resource_of
  resource_of-held a n res h = ground arith

module _ (st : State) {Gen : Type 0} where
  -- From a resolution in step with the engine, the events of a step are accepted and leave them in
  -- step, and only resources of actors in the state are marked as changed.
  pub record IsGood (r : ResolveState) (p : Progress Gen) : Type 0 where
    pub accepted : (s : State) → InStep st r s → Accepts p.events (InStep st p.state) s
    pub changed : All (IsHeld st) r.changed_order → All (IsHeld st) p.state.changed_order

  pub idle-IsGood : (r : ResolveState) (g : Gen) → IsGood r (idle r g)
  idle-IsGood r g = record { accepted = λ s h. h; changed = λ h. h }

  pub after-IsGood :
      (r : ResolveState) (a b : Progress Gen) → IsGood r a → IsGood a.state b → IsGood r (after a b)
  after-IsGood r a b h k = record {
    accepted = λ s i.
        Accepts-append a.events b.events (InStep st a.state) (InStep st b.state) s (h.accepted s i)
          k.accepted;
    changed = λ i. k.changed (h.changed i);
  }

  apply_if_absent-IsGood :
      (r : ResolveState) (g : Gen) (a c reason : String)
      → FitsId c
      → is_some (get st.actors a) ≡ true
      → IsGood r (apply_if_absent st r g a c reason)
  unfolding apply_if_absent set_condition
  apply_if_absent-IsGood r g a c reason f k = elim (Bool-cases (holds_condition st r a c)) [
    | inl e ↦ rw (e, apply_if_absent) (idle-IsGood r g)
    | inr e ↦
        rw (e, apply_if_absent)
          (record { accepted = λ s i. applied-Accepts st r s i a c reason f k e; changed = λ h. h })
  ]

  remove_if_present-IsGood :
      (r : ResolveState) (g : Gen) (a c reason : String)
      → is_some (get st.actors a) ≡ true
      → IsGood r (remove_if_present st r g a c reason)
  unfolding remove_if_present set_condition
  remove_if_present-IsGood r g a c reason k = elim (Bool-cases (holds_condition st r a c)) [
    | inr e ↦ rw (e, remove_if_present) (idle-IsGood r g)
    | inl e ↦
        rw (e, remove_if_present)
          (record { accepted = λ s i. removed-Accepts st r s i a c reason k e; changed = λ h. h })
  ]

  module _ (rng : Option (Roller Gen)) where
    change_existing-IsGood :
        (r : ResolveState) (g : Gen) (caster actor reason : String) (rc : ResourceChangeOutcome)
        → (res : Resource) → resource_of st actor rc.resource ≡ some res
        → Returns (IsGood r) (change_existing st rng r g caster actor reason rc)
    unfolding change_existing
    change_existing-IsGood r g caster actor reason rc res known =
        Returns-then
          (λ e _.
            Returns-then
              (λ d small.
                Returns-then
                  (λ v fits. returns (record {
                    accepted = λ s i.
                        changed-Accepts st r s i actor rc.resource e.total res known small fits
                          reason;
                    changed =
                        apply_delta-changed st r actor rc.resource e.total
                          (resource_of-held st actor rc.resource res known);
                  }))
                  (int32_checked-IsInt32 (apply_delta st r actor rc.resource e.total).0))
              (int32_checked-IsInt32 e.total))
          (Returns-any (
            eval_recording_scoped rng rc.delta_expr (context_of st r caster) (context_of st r actor)
              g))

    change_resource-IsGood :
        (r : ResolveState) (g : Gen) (caster actor reason : String) (rc : ResourceChangeOutcome)
        → Returns (IsGood r) (change_resource st rng r g caster actor reason rc)
    unfolding change_resource
    change_resource-IsGood r g caster actor reason rc =
        Returns-then
          (λ _ there.
            let (res, known) = is_some-some (resource_of st actor rc.resource) (ground arith) in
            change_existing-IsGood r g caster actor reason rc res known)
          (refuse_if-false (not (is_some (resource_of st actor rc.resource))) no_such_resource)

    apply_outcome-IsGood :
        (r : ResolveState) (g : Gen) (caster actor reason : String) (o : OutcomeDef)
        → FitsOutcome o
        → is_some (get st.actors actor) ≡ true
        → Returns (IsGood r) (apply_outcome st rng r g caster actor reason o)
    unfolding apply_outcome
    apply_outcome-IsGood r g caster actor reason (resource_change rc) f k =
        change_resource-IsGood r g caster actor reason rc
    apply_outcome-IsGood r g caster actor reason (apply_condition c) f k =
        returns (apply_if_absent-IsGood r g actor c reason f k)
    apply_outcome-IsGood r g caster actor reason (remove_condition c) f k =
        returns (remove_if_present-IsGood r g actor c reason k)

    pub apply_outcomes-IsGood :
        (r : ResolveState) (g : Gen) (caster actor reason : String) (os : List OutcomeDef)
        → All FitsOutcome os
        → is_some (get st.actors actor) ≡ true
        → Returns (IsGood r) (apply_outcomes st rng r g caster actor reason os)
    unfolding apply_outcomes
    apply_outcomes-IsGood r g caster actor reason [] f k = returns (idle-IsGood r g)
    apply_outcomes-IsGood r g caster actor reason (o ∷ os) f k =
        Returns-then
          (λ a good.
            Returns-then (λ b more. returns (after-IsGood r a b good more))
              (apply_outcomes-IsGood a.state a.gen caster actor reason os f.1 k))
          (apply_outcome-IsGood r g caster actor reason o f.0 k)

    after_when-IsGood :
        (r : ResolveState) (actor reason : String) (th : Threshold) (o : Outcome ℤ × Gen)
        → FitsThreshold th
        → is_some (get st.actors actor) ≡ true
        → Returns (IsGood r) (after_when st rng r actor reason th o)
    unfolding after_when
    after_when-IsGood r actor reason th (error e, g) f k = fails
    after_when-IsGood r actor reason th (value v, g) f k =
        elim (Bool-cases (not (eq_ℤ v (pos 0)))) [
          | inl e ↦ rw e (returns (apply_if_absent-IsGood r g actor th.apply_condition reason f k))
          | inr e ↦ rw e (elim (Bool-cases th.remove_when_false) [
            | inl w ↦
                rw w (returns (remove_if_present-IsGood r g actor th.apply_condition reason k))
            | inr w ↦ rw w (returns (idle-IsGood r g))
          ])
        ]

    eval_thresholds_of-IsGood :
        (r : ResolveState) (g : Gen) (actor reason : String) (ctx : EvalContext)
        (ths : List Threshold)
        → All FitsThreshold ths
        → is_some (get st.actors actor) ≡ true
        → Returns (IsGood r) (eval_thresholds_of st rng r g actor reason ctx ths)
    unfolding eval_thresholds_of
    eval_thresholds_of-IsGood r g actor reason ctx [] f k = returns (idle-IsGood r g)
    eval_thresholds_of-IsGood r g actor reason ctx (th ∷ ths) f k =
        Returns-then
          (λ a good.
            Returns-then (λ b more. returns (after-IsGood r a b good more))
              (eval_thresholds_of-IsGood a.state a.gen actor reason ctx ths f.1 k))
          (after_when-IsGood r actor reason th (eval th.when_expr ctx rng g) f.0 k)

    eval_thresholds_at-IsGood :
        (r : ResolveState) (g : Gen) (key : ResKey) (def : Option ResourceDef)
        → FitsDef def
        → IsHeld st key
        → Returns (IsGood r) (eval_thresholds_at st rng r g key def)
    unfolding eval_thresholds_at
    eval_thresholds_at-IsGood r g key none f k = returns (idle-IsGood r g)
    eval_thresholds_at-IsGood r g key (some def) f k =
        eval_thresholds_of-IsGood r g key.actor _ _ def.thresholds f k

    pub eval_thresholds-IsGood :
        (defs : Map ResourceDef) (r : ResolveState) (g : Gen) (keys : List ResKey)
        → ((name : String) → FitsDef (get defs name))
        → All (IsHeld st) keys
        → Returns (IsGood r) (eval_thresholds st rng defs r g keys)
    unfolding eval_thresholds
    eval_thresholds-IsGood defs r g [] f k = returns (idle-IsGood r g)
    eval_thresholds-IsGood defs r g (key ∷ keys) f k =
        Returns-then
          (λ a good.
            Returns-then (λ b more. returns (after-IsGood r a b good more))
              (eval_thresholds-IsGood defs a.state a.gen keys f k.1))
          (eval_thresholds_at-IsGood r g key (get defs key.resource) (f key.resource) k.0)
