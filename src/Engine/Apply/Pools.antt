-- ===== src/Engine/Apply/Pools.antt =====
-- The ResourceChanged, ConditionApplied and ConditionRemoved arms.
use vtt_platform.Prelude.{
  ℕ, zero, suc, String, Bool, false, not, ◌&&◌, ◌||◌, Option, none, some, List, [], ◌∷◌, ◌++◌, ◌==◌,
  is_some, if◌then◌else◌,
}
use vtt_platform.Prelude.Int.{ℤ, pos, ◌+ℤ◌, ltb_ℤ, eq_ℤ}
use vtt_platform.Contract.Event.{
  Actor, Resource, Envelope, ResourceChanged, ConditionApplied, ConditionRemoved,
}
use vtt_platform.Go.GoMap.{get, put}
use vtt_platform.Engine.State.{State, ActorCondition, conditions_of}
use vtt_platform.Engine.Apply.Outcome.{
  Outcome, refuse, done, unknown_actor, unknown_resource, new_value_mismatch, bad_condition_id,
  already_applied, condition_not_present, max_id_bytes, empty_or_over,
}

-- The clamp, in int64, where the sum of two int32s does not overflow.
unfoldable pub computed : Resource → ℤ → ℤ
computed res delta =
    let sum = res.current +ℤ delta in
    let floored = if ltb_ℤ sum (pos 0) then pos 0 else sum in
    if ltb_ℤ (pos 0) res.max && ltb_ℤ res.max floored then res.max else floored

-- The verified value is an int32, as new_value is, so its conversion keeps it.
unfoldable pub with_resource : Actor → String → Resource → ℤ → Actor
with_resource actor name res value = record actor {
  resources = put actor.resources name (record { current = value; max = res.max });
}

unfoldable pub apply_resource_changed : State → ResourceChanged → Outcome
unfolding computed with_resource
apply_resource_changed st rc = elim (get st.actors rc.actor_id) [
  | none ↦ refuse unknown_actor st
  | some actor ↦ elim (get actor.resources rc.resource) [
    | none ↦ refuse unknown_resource st
    | some res ↦
        if not (eq_ℤ (computed res rc.delta) rc.new_value)
        then refuse new_value_mismatch st
        else done (record st {
          actors =
              put st.actors rc.actor_id
                (with_resource actor rc.resource res (computed res rc.delta));
        })
  ]
]

unfoldable pub has_condition : String → List ActorCondition → Bool
has_condition id [] = false
has_condition id (c ∷ rest) = c.id == id || has_condition id rest

unfoldable pub apply_condition_applied : State → Envelope → ConditionApplied → Outcome
unfolding has_condition
apply_condition_applied st env ca =
    if empty_or_over max_id_bytes ca.condition_id
    then refuse bad_condition_id st
    else if not (is_some (get st.actors ca.actor_id))
    then refuse unknown_actor st
    else if has_condition ca.condition_id (conditions_of st ca.actor_id)
    then refuse already_applied st
    else done (record st {
      conditions = put st.conditions ca.actor_id (conditions_of st ca.actor_id ++ applied ∷ []);
    })
  where
    applied : ActorCondition
    applied = record { id = ca.condition_id; source = ca.source; applied_seq = env.sequence }

-- The loop that finds the first index with an id; `none` is -1.
unfoldable pub index_of : ℕ → String → List ActorCondition → Option ℕ
index_of i id [] = none
index_of i id (c ∷ rest) = if c.id == id then some i else index_of (suc i) id rest

-- append(list[:idx], list[idx+1:]...)
unfoldable pub cut : ℕ → List ActorCondition → List ActorCondition
cut i [] = []
cut zero (c ∷ rest) = rest
cut (suc i) (c ∷ rest) = c ∷ cut i rest

unfoldable pub apply_condition_removed : State → ConditionRemoved → Outcome
unfolding index_of cut
apply_condition_removed st cr =
    if not (is_some (get st.actors cr.actor_id))
    then refuse unknown_actor st
    else elim (index_of 0 cr.condition_id (conditions_of st cr.actor_id)) [
      | none ↦ refuse condition_not_present st
      | some i ↦ done (record st {
        conditions = put st.conditions cr.actor_id (cut i (conditions_of st cr.actor_id));
      })
    ]
