-- ===== src/Rules/Stepping.antt =====
-- Each event of a resolution keeps the engine in step with it.
use vtt_platform.Prelude.{
  ◌≡◌, refl, sym, subst, ◌∙◌, String, ◌&&◌, none, some, [], ◌∷◌, ◌==◌, eq_iff, arith, Option-cases,
  Bool-cases, inl, inr, ap,
}
use vtt_platform.Prelude.Int.{ℤ, IsInt32, wrap32_id, ◌+ℤ◌, eq_ℤ_iff}
use vtt_platform.Go.GoMap.{Map, get, put, get-put}
use vtt_platform.Contract.Event.{Envelope, Payload, Actor, Resource}
use vtt_platform.Engine.State.{State, conditions_of}
use vtt_platform.Engine.Apply.Pools.{computed, with_resource, has_condition, apply_resource_changed}
use vtt_platform.Engine.Apply.Dispatch.{apply, apply_payload}
use vtt_platform.Engine.Invariant.Conditions.{AreDistinct}
use vtt_platform.Rules.Int64.{IsInt64}
use vtt_platform.Rules.Floor.{wrap64_id}
use vtt_platform.Rules.Running.{
  ResolveState, resource_of, current_of, max_of, current_resource, apply_delta, holds_condition,
}
use vtt_platform.Rules.Outcomes.{resource_changed_event}
use vtt_platform.Rules.Accepted.{Accepts, InStep, resource_of-put, current_resource-apply_delta}

-- The actor behind a resource.
pub apply-as :
    (s : State) (env : Envelope) (p : Payload)
    → env.payload ≡ p
    → apply s env ≡ apply_payload s env p
unfolding apply
apply-as s env p e = ap (apply_payload s env) e

-- The engine's part of a change, on a resource that is there and a value that fits.
apply_resource_changed-fits :
    (s : State) (a n reason : String) (d v : ℤ) (actor : Actor) (old : Resource)
    → get s.actors a ≡ some actor
    → get actor.resources n ≡ some old
    → computed old d ≡ v
    → apply_resource_changed s
        (record { actor_id = a; resource = n; delta = d; new_value = v; reason = reason })
      ≡ (none, record s { actors = put s.actors a (with_resource actor n old v) })
unfolding apply_resource_changed
apply_resource_changed-fits s a n reason d v actor old g h c =
    rw (g, h, apply_resource_changed) (rw (c, (eq_ℤ_iff v v).1 refl) refl)

resource_of-some :
    (s : State) (a n : String) (res : Resource)
    → resource_of s a n ≡ some res
    → (actor : Actor) × (get s.actors a ≡ some actor) × (get actor.resources n ≡ some res)
unfolding resource_of
resource_of-some s a n res h = elim (Option-cases (get s.actors a)) [
  | inl e ↦ let none_there : resource_of s a n ≡ none = rw (e, resource_of) refl in absurd (cc)
  | inr (actor, e) ↦ (actor, e, ground (arith, h))
]

wide : (a b : ℤ) → IsInt32 a → IsInt32 b → IsInt64 (a +ℤ b)
unfolding ◌+ℤ◌
wide a b h k = ground arith

apply_delta-computed :
    (st : State) (r : ResolveState) (a n : String) (res cur : Resource) (d : ℤ)
    → resource_of st a n ≡ some res
    → cur.current ≡ current_resource st r a n
    → cur.max ≡ res.max
    → IsInt32 cur.current
    → IsInt32 d
    → computed cur d ≡ (apply_delta st r a n d).0
unfolding apply_delta computed
apply_delta-computed st r a n res cur d h c m i j =
    ground
      (arith, wrap64_id (cur.current +ℤ d) (wide cur.current d i j), ap current_of h, ap max_of h)

conditions_of-actors :
    (s : State) (actors : Map Actor) (b : String)
    → conditions_of (record s { actors = actors }) b ≡ conditions_of s b
unfolding conditions_of
conditions_of-actors s actors b = refl

holds_condition-apply_delta :
    (st : State) (r : ResolveState) (a n : String) (d : ℤ) (b c : String)
    → holds_condition st (apply_delta st r a n d).1 b c ≡ holds_condition st r b c
unfolding holds_condition apply_delta
holds_condition-apply_delta st r a n d b c = refl

module _ (st : State) (r : ResolveState) (s : State) (step : InStep st r s) where
  module _ (a n : String) (d : ℤ) (res : Resource) (known : resource_of st a n ≡ some res)
      (small : IsInt32 d) (fits : IsInt32 (apply_delta st r a n d).0) where
    abbrev next : ResolveState
    next = (apply_delta st r a n d).1

    changed_resource :
        (actor : Actor) (old : Resource)
        → get s.actors a ≡ some actor
        → old.max ≡ res.max
        → (b k : String) (found : Resource) → resource_of st b k ≡ some found
        → (resource_of
              (record s {
                actors = put s.actors a (with_resource actor n old (apply_delta st r a n d).0);
              })
              b
              k
            ≡ some (record { current = current_resource st next b k; max = found.max }))
          × IsInt32 (current_resource st next b k)
    changed_resource actor old e m b k found h =
        rw
          (
            resource_of-put s a n actor old (apply_delta st r a n d).0 b k e,
            current_resource-apply_delta st r a n d b k,
          )
          (elim (Bool-cases (a == b && n == k)) [
            | inl same ↦ rw same (ground (arith, eq_iff a b, eq_iff n k), fits)
            | inr other ↦ rw other (step.resources b k found h)
          ])

    changed-InStep :
        (actor : Actor) (old : Resource)
        → get s.actors a ≡ some actor
        → old.max ≡ res.max
        → InStep st next (record s {
          actors = put s.actors a (with_resource actor n old (apply_delta st r a n d).0);
        })
    changed-InStep actor old e m = record {
      held = λ b h. ground (
        arith,
        step.held b,
        get-put s.actors a b (with_resource actor n old (apply_delta st r a n d).0),
      );
      resources = λ b k found h. changed_resource actor old e m b k found h;
      conditions = λ b c.
          ap (has_condition c) (conditions_of-actors s _ b)
          ∙ step.conditions b c
          ∙ sym (holds_condition-apply_delta st r a n d b c);
      distinct = λ b. subst AreDistinct (sym (conditions_of-actors s _ b)) (step.distinct b);
    }

    pub changed-Accepts :
        (reason : String)
        → Accepts
            (resource_changed_event a n d (apply_delta st r a n d).0 reason ∷ [])
            (InStep st next)
            s
    unfolding apply_payload
    changed-Accepts reason = λ env e.
        let now = step.resources a n res known in
        let (actor, g, h) = resource_of-some s a n _ now.0 in
        let value = apply_delta-computed st r a n res _ d known refl refl now.1 small in
        rw
          (
            apply-as s env _ e,
            wrap32_id d small,
            wrap32_id (apply_delta st r a n d).0 fits,
            apply_resource_changed-fits s a n reason d (apply_delta st r a n d).0 actor _ g h value,
          )
          (refl, changed-InStep actor _ g refl)
