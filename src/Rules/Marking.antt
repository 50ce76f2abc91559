-- ===== src/Rules/Marking.antt =====
-- The condition events of a resolution keep the engine in step with it.
use vtt_platform.Prelude.{
  ℕ, suc, ◌+◌, ◌≡◌, refl, ◌∙◌, String, Bool, true, false, ◌&&◌, not, none, some, List, [], ◌∷◌,
  ◌++◌, ◌==◌, eq_iff, is_some, arith, if◌then◌else◌, Bool-cases, inl, inr, ap,
}
use vtt_platform.Go.GoMap.{get, put}
use vtt_platform.Contract.Event.{Envelope}
use vtt_platform.Engine.State.{State, ActorCondition, conditions_of}
use vtt_platform.Engine.Apply.Outcome.{empty_or_over, max_id_bytes}
use vtt_platform.Engine.Apply.Pools.{
  has_condition, index_of, cut, apply_condition_applied, apply_condition_removed,
}
use vtt_platform.Engine.Apply.Dispatch.{apply_payload}
use vtt_platform.Engine.Effects.{conditions_of-put}
use vtt_platform.Engine.Invariant.Conditions.{
  AreDistinct, has_condition-append, append-AreDistinct, cut-AreDistinct,
}
use vtt_platform.Rules.Running.{
  ResolveState, holds_condition, set_condition, current_resource, resource_of,
}
use vtt_platform.Rules.Outcomes.{condition_applied_event, condition_removed_event}
use vtt_platform.Rules.Accepted.{Accepts, InStep, holds_condition-set_condition}
use vtt_platform.Rules.Stepping.{apply-as}

removed_at :
    (n : ℕ) (id : String) (l : List ActorCondition)
    → AreDistinct l
    → has_condition id l ≡ true
    → (i : ℕ) × (index_of n id l ≡ some (n + i))
      × ((d : String) → has_condition d (cut i l) ≡ (has_condition d l && not (id == d)))
unfolding has_condition index_of cut
removed_at n id [] u h = absurd (cc)
removed_at n id (x ∷ l) u h = elim (Bool-cases (x.id == id)) [
  | inl e ↦ (
    0,
    rw e (ap some (omega arith)),
    λ d. ground (arith, eq_iff x.id id, eq_iff id d, eq_iff x.id d),
  )
  | inr e ↦
      let (i, at_i, same) = removed_at (suc n) id l u.1 (ground arith) in
      (
        suc i,
        rw (e, at_i) (ap some (omega arith)),
        λ d. ground (arith, same d, eq_iff x.id id, eq_iff id d, eq_iff x.id d),
      )
]

but_not : (b t : Bool) → (b && not t) ≡ (if t then false else b)
but_not b t = ground arith

module _ (st : State) (r : ResolveState) (s : State) (step : InStep st r s) (a c : String) where
  -- The conditions of one actor replaced, and those of the resolution with them.
  marked-InStep :
      (v : Bool) (l : List ActorCondition)
      → ((d : String)
          → has_condition d l ≡ (if c == d then v else has_condition d (conditions_of s a)))
      → AreDistinct l
      → InStep st (set_condition r a c v) (record s { conditions = put s.conditions a l })
  unfolding set_condition current_resource resource_of
  marked-InStep v l h u = record {
    held = step.held;
    resources = step.resources;
    conditions = λ b d. elim (Bool-cases (a == b)) [
      | inl e ↦
          rw (conditions_of-put s a b l, holds_condition-set_condition st r a c v b d, e)
            (ground (arith, h d, step.conditions b d, eq_iff a b))
      | inr e ↦
          rw (conditions_of-put s a b l, holds_condition-set_condition st r a c v b d, e)
            (step.conditions b d)
    ];
    distinct = λ b. elim (Bool-cases (a == b)) [
      | inl e ↦ rw (conditions_of-put s a b l, e) u
      | inr e ↦ rw (conditions_of-put s a b l, e) (step.distinct b)
    ];
  }

  apply_condition_applied-fits :
      (env : Envelope) (source : String)
      → empty_or_over max_id_bytes c ≡ false
      → is_some (get s.actors a) ≡ true
      → has_condition c (conditions_of s a) ≡ false
      → apply_condition_applied s env (record { actor_id = a; condition_id = c; source = source })
        ≡ (
          none,
          record s {
            conditions = put s.conditions a (
                conditions_of s a
                ++ record { id = c; source = source; applied_seq = env.sequence } ∷ []);
          },
        )
  unfolding apply_condition_applied
  apply_condition_applied-fits env source f k h = rw (f, k, h) refl

  pub applied-Accepts :
      (reason : String)
      → empty_or_over max_id_bytes c ≡ false
      → is_some (get st.actors a) ≡ true
      → holds_condition st r a c ≡ false
      → Accepts (condition_applied_event a c reason ∷ []) (InStep st (set_condition r a c true)) s
  unfolding apply_payload
  applied-Accepts reason f k h = λ env e.
      let none_yet = step.conditions a c ∙ h in
      let mark : ActorCondition = record { id = c; source = reason; applied_seq = env.sequence } in
      rw (apply-as s env _ e, apply_condition_applied-fits env reason f (step.held a k) none_yet)
        (
          refl,
          marked-InStep true (conditions_of s a ++ mark ∷ [])
              (λ d. ground (arith, has_condition-append d (conditions_of s a) mark))
              (append-AreDistinct (conditions_of s a) mark (step.distinct a) none_yet),
        )

  pub removed-Accepts :
      (reason : String)
      → is_some (get st.actors a) ≡ true
      → holds_condition st r a c ≡ true
      → Accepts (condition_removed_event a c reason ∷ []) (InStep st (set_condition r a c false)) s
  unfolding apply_payload apply_condition_removed
  removed-Accepts reason k h = λ env e.
      let (i, at_i, same) =
        removed_at 0 c (conditions_of s a) (step.distinct a) (step.conditions a c ∙ h) in
      rw (apply-as s env _ e, step.held a k, at_i)
        (
          refl,
          marked-InStep false (cut (0 + i) (conditions_of s a))
              (λ d.
                ap (λ k. has_condition d (cut k (conditions_of s a))) (omega arith)
                ∙ (same d ∙ but_not (has_condition d (conditions_of s a)) (c == d)))
              (cut-AreDistinct (0 + i) (conditions_of s a) (step.distinct a)),
        )
