-- ===== src/Engine/Invariant/Conditions.antt =====
-- Conditions are held by actors of the state, and no actor holds one twice.
use vtt_platform.Prelude.{
  ℕ, zero, suc, String, ◌≡◌, refl, true, false, ◌||◌, none, some, List, [], ◌∷◌, ◌++◌, ◌==◌, arith,
  is_some, eq_iff, Option-cases, inl, inr,
}
use vtt_platform.Contract.Event
use vtt_platform.Contract.Event.{
  Envelope, Payload, unknown, session_started, session_ended, scene_created, actor_added,
  actor_control_granted, actor_control_revoked, token_placed, token_described, token_moved,
  token_removed, actor_removed, door_opened, door_closed, attack_rolled, ability_used,
  adventure_loaded, resource_changed, condition_applied, condition_removed, narration_added,
  whisper_added, note_upserted, note_deleted, token_hidden, scene_seen,
}
use vtt_platform.Go.GoMap.{get, get-put, get-delete}
use vtt_platform.Engine.State.{State, ActorCondition, conditions_of}
use vtt_platform.Engine.Apply.Sessions.{apply_session_started, apply_session_ended}
use vtt_platform.Engine.Apply.Scenes.{apply_scene_created}
use vtt_platform.Engine.Apply.Actors.{apply_actor_added, add_actor, apply_actor_removed}
use vtt_platform.Engine.Apply.Control.{apply_control_granted, apply_control_revoked, control_target}
use vtt_platform.Engine.Apply.Tokens.{
  apply_token_placed, apply_token_described, apply_token_moved, apply_token_removed,
  apply_token_hidden,
}
use vtt_platform.Engine.Apply.Doors.{apply_door_opened, apply_door_closed}
use vtt_platform.Engine.Apply.Pools.{
  has_condition, index_of, cut, apply_resource_changed, apply_condition_applied,
  apply_condition_removed,
}
use vtt_platform.Engine.Apply.Feed.{
  apply_ability_used, apply_adventure_loaded, apply_narration_added, apply_whisper_added,
  apply_note_upserted, apply_note_deleted,
}
use vtt_platform.Engine.Apply.Sight.{apply_scene_seen}
use vtt_platform.Engine.Apply.Dispatch.{apply_payload}

-- No id stands twice in a list of conditions.
abbrev pub AreDistinct : List ActorCondition → Type 0
AreDistinct [] = Unit
AreDistinct (c ∷ rest) = (has_condition c.id rest ≡ false) × AreDistinct rest

pub record ConditionsAreHeld (st : State) : Type 0 where
  pub at_holder :
      (id : String) (l : List ActorCondition)
      → get st.conditions id ≡ some l
      → (is_some (get st.actors id) ≡ true) × AreDistinct l

pub has_condition-append :
    (id : String) (l : List ActorCondition) (c : ActorCondition)
    → has_condition id (l ++ c ∷ []) ≡ (has_condition id l || c.id == id)
unfolding has_condition
has_condition-append id [] c = ground arith
has_condition-append id (d ∷ l) c = ground (arith, has_condition-append id l c)

pub append-AreDistinct :
    (l : List ActorCondition) (c : ActorCondition)
    → AreDistinct l
    → has_condition c.id l ≡ false
    → AreDistinct (l ++ c ∷ [])
append-AreDistinct [] c h k = (unfold has_condition in refl, tt)
append-AreDistinct (d ∷ l) c h k = (
  unfold has_condition in
      ground (arith, has_condition-append d.id l c, eq_iff c.id d.id, eq_iff d.id c.id),
  append-AreDistinct l c h.1 (unfold has_condition in ground arith),
)

has_condition-cut :
    (id : String) (i : ℕ) (l : List ActorCondition)
    → has_condition id l ≡ false
    → has_condition id (cut i l) ≡ false
unfolding has_condition cut
has_condition-cut id i [] h = refl
has_condition-cut id zero (d ∷ l) h = ground arith
has_condition-cut id (suc i) (d ∷ l) h = ground (arith, has_condition-cut id i l)

pub cut-AreDistinct : (i : ℕ) (l : List ActorCondition) → AreDistinct l → AreDistinct (cut i l)
unfolding cut
cut-AreDistinct i [] h = tt
cut-AreDistinct zero (d ∷ l) h = h.1
cut-AreDistinct (suc i) (d ∷ l) h = (has_condition-cut d.id i l h.0, cut-AreDistinct i l h.1)

module _ (st : State) (v : ConditionsAreHeld st) where
  pub distinct_at : (id : String) → AreDistinct (conditions_of st id)
  unfolding conditions_of
  distinct_at id = elim (Option-cases (get st.conditions id)) [
    | inl e ↦ rw e tt
    | inr (l, e) ↦ rw e (v.at_holder id l e).1
  ]

  applied-ConditionsAreHeld :
      (env : Envelope) (ca : Event.ConditionApplied)
      → ConditionsAreHeld (apply_condition_applied st env ca).1
  unfolding apply_condition_applied
  applied-ConditionsAreHeld env ca = record {
    at_holder = λ id l e. ground (
      arith,
      v.at_holder id l,
      append-AreDistinct (conditions_of st ca.actor_id) applied (distinct_at ca.actor_id),
      get-put st.conditions ca.actor_id id (conditions_of st ca.actor_id ++ applied ∷ []),
      eq_iff ca.actor_id id,
    );
  }
    where
      applied : ActorCondition
      applied = record { id = ca.condition_id; source = ca.source; applied_seq = env.sequence }

  removed-ConditionsAreHeld :
      (cr : Event.ConditionRemoved) → ConditionsAreHeld (apply_condition_removed st cr).1
  unfolding apply_condition_removed
  removed-ConditionsAreHeld cr = record {
    at_holder = λ id l e.
        elim (Option-cases (index_of 0 cr.condition_id (conditions_of st cr.actor_id))) [
          | inl n ↦ ground (arith, v.at_holder id l)
          | inr (i, n) ↦ ground (
            arith,
            v.at_holder id l,
            cut-AreDistinct i (conditions_of st cr.actor_id) (distinct_at cr.actor_id),
            get-put st.conditions cr.actor_id id (cut i (conditions_of st cr.actor_id)),
            eq_iff cr.actor_id id,
          )
        ];
  }

  removed_actor-ConditionsAreHeld : (id : String) → ConditionsAreHeld (apply_actor_removed st id).1
  unfolding apply_actor_removed
  removed_actor-ConditionsAreHeld gone = record {
    at_holder = λ id l e.
        ground
          (arith, v.at_holder id l, get-delete st.actors gone id, get-delete st.conditions gone id);
  }

pub apply_payload-ConditionsAreHeld :
    (st : State) (env : Envelope) (p : Payload)
    → ConditionsAreHeld st
    → ConditionsAreHeld (apply_payload st env p).1
unfolding apply_payload apply_session_started apply_session_ended apply_scene_created
    apply_actor_added add_actor apply_actor_removed apply_control_granted apply_control_revoked
    control_target apply_token_placed apply_token_described apply_token_moved apply_token_removed
    apply_token_hidden apply_door_opened apply_door_closed apply_resource_changed
    apply_condition_applied apply_condition_removed apply_ability_used apply_adventure_loaded
    apply_narration_added apply_whisper_added apply_note_upserted apply_note_deleted
    apply_scene_seen
apply_payload-ConditionsAreHeld st env unknown v = v
apply_payload-ConditionsAreHeld st env (condition_applied ca) v =
    applied-ConditionsAreHeld st v env ca
apply_payload-ConditionsAreHeld st env (condition_removed cr) v = removed-ConditionsAreHeld st v cr
apply_payload-ConditionsAreHeld st env (actor_removed id) v =
    removed_actor-ConditionsAreHeld st v id
apply_payload-ConditionsAreHeld st env (actor_added none) v = v
apply_payload-ConditionsAreHeld st env (actor_added (some a)) v = record {
  at_holder = λ id l e. ground (arith, v.at_holder id l, get-put st.actors a.actor_id id a);
}
apply_payload-ConditionsAreHeld st env _ v = record {
  at_holder = λ id l e. grind (arith, v.at_holder id l, get-put);
}
