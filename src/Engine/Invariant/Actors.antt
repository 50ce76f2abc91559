-- ===== src/Engine/Invariant/Actors.antt =====
-- Actors are filed under their ids, and their controller_id mirrors their controller_ids.
use vtt_platform.Prelude.{
  String, ◌≡◌, refl, sym, ◌∙◌, IsNodup, true, false, none, some, List, [], ◌∷◌, arith, eq_iff,
  Option-cases, inl, inr, ◌==◌,
}
use vtt_platform.Contract.Event
use vtt_platform.Contract.Event.{
  Actor, Envelope, Payload, unknown, session_started, session_ended, scene_created, actor_added,
  actor_control_granted, actor_control_revoked, token_placed, token_described, token_moved,
  token_removed, actor_removed, door_opened, door_closed, attack_rolled, ability_used,
  adventure_loaded, resource_changed, condition_applied, condition_removed, narration_added,
  whisper_added, note_upserted, note_deleted, token_hidden, scene_seen,
}
use vtt_platform.Go.GoMap.{get, get-put, get-delete}
use vtt_platform.Engine.State.{State}
use vtt_platform.Engine.Apply.Sessions.{apply_session_started, apply_session_ended}
use vtt_platform.Engine.Apply.Scenes.{apply_scene_created}
use vtt_platform.Engine.Apply.Actors.{apply_actor_added, any_id, add_actor, apply_actor_removed}
use vtt_platform.Engine.Apply.Control.{apply_control_granted, apply_control_revoked, control_target}
use vtt_platform.Engine.Apply.Tokens.{
  apply_token_placed, apply_token_described, apply_token_moved, apply_token_removed,
  apply_token_hidden,
}
use vtt_platform.Engine.Apply.Doors.{apply_door_opened, apply_door_closed}
use vtt_platform.Engine.Apply.Pools.{
  with_resource, computed, apply_resource_changed, apply_condition_applied, apply_condition_removed,
}
use vtt_platform.Engine.Apply.Feed.{
  apply_ability_used, apply_adventure_loaded, apply_narration_added, apply_whisper_added,
  apply_note_upserted, apply_note_deleted,
}
use vtt_platform.Engine.Apply.Sight.{apply_scene_seen}
use vtt_platform.Engine.Apply.Dispatch.{apply_payload}
use vtt_platform.Engine.Apply.Control.{first_id, granted, revoked}
use vtt_platform.Engine.Control.{IsMirrored, granted-IsMirrored, revoked-IsMirrored}

pub record ActorIsFiled (id : String) (a : Actor) : Type 0 where
  pub filed : a.actor_id ≡ id
  pub mirrored : IsMirrored a

pub record ActorsAreFiled (st : State) : Type 0 where
  pub at_actor : (id : String) (a : Actor) → get st.actors id ≡ some a → ActorIsFiled id a

none_added : (l : List String) → any_id l ≡ false → (first_id l ≡ "") × IsNodup l
none_added [] h = (refl, tt)
none_added (x ∷ xs) h = cc

added-IsMirrored :
    (a : Actor) → (a.controller_id == "") ≡ true → any_id a.controller_ids ≡ false → IsMirrored a
added-IsMirrored a h k = record {
  mirror = (eq_iff a.controller_id "").0 h ∙ sym (none_added a.controller_ids k).0;
  nodup = (none_added a.controller_ids k).1;
}

module _ (st : State) (v : ActorsAreFiled st) where
  granted-ActorsAreFiled :
      (g : Event.ControlGranted) → ActorsAreFiled (apply_control_granted st g).1
  unfolding apply_control_granted control_target
  granted-ActorsAreFiled g = record {
    at_actor = λ id a e. elim (Option-cases (get st.actors g.actor_id)) [
      | inl n ↦ ground (arith, v.at_actor id a)
      | inr (old, q) ↦ ground (
        arith,
        v.at_actor id a,
        v.at_actor g.actor_id old q,
        granted-IsMirrored old g,
        get-put st.actors g.actor_id id (granted old g),
        eq_iff g.actor_id id,
      )
    ];
  }

  revoked-ActorsAreFiled :
      (r : Event.ControlRevoked) → ActorsAreFiled (apply_control_revoked st r).1
  unfolding apply_control_revoked control_target
  revoked-ActorsAreFiled r = record {
    at_actor = λ id a e. elim (Option-cases (get st.actors r.actor_id)) [
      | inl n ↦ ground (arith, v.at_actor id a)
      | inr (old, q) ↦ ground (
        arith,
        v.at_actor id a,
        v.at_actor r.actor_id old q,
        revoked-IsMirrored old r,
        get-put st.actors r.actor_id id (revoked old r),
        eq_iff r.actor_id id,
      )
    ];
  }

  added-ActorsAreFiled : (new : Actor) → ActorsAreFiled (add_actor st new).1
  unfolding add_actor
  added-ActorsAreFiled new = record {
    at_actor = λ id a e. ground (
      arith,
      v.at_actor id a,
      added-IsMirrored new,
      get-put st.actors new.actor_id id new,
      eq_iff new.actor_id id,
    );
  }

  resource-ActorsAreFiled :
      (rc : Event.ResourceChanged) → ActorsAreFiled (apply_resource_changed st rc).1
  unfolding apply_resource_changed with_resource
  resource-ActorsAreFiled rc = record {
    at_actor = λ id a e. elim (Option-cases (get st.actors rc.actor_id)) [
      | inl n ↦ ground (arith, v.at_actor id a)
      | inr (old, q) ↦ elim (Option-cases (get old.resources rc.resource)) [
        | inl n ↦ ground (arith, v.at_actor id a)
        | inr (res, r) ↦ ground (
          arith,
          v.at_actor id a,
          v.at_actor rc.actor_id old q,
          get-put st.actors rc.actor_id id
              (with_resource old rc.resource res (computed res rc.delta)),
          eq_iff rc.actor_id id,
        )
      ]
    ];
  }

pub apply_payload-ActorsAreFiled :
    (st : State) (env : Envelope) (p : Payload)
    → ActorsAreFiled st
    → ActorsAreFiled (apply_payload st env p).1
unfolding apply_payload apply_session_started apply_session_ended apply_scene_created
    apply_actor_added add_actor apply_actor_removed apply_control_granted apply_control_revoked
    control_target apply_token_placed apply_token_described apply_token_moved apply_token_removed
    apply_token_hidden apply_door_opened apply_door_closed apply_resource_changed
    apply_condition_applied apply_condition_removed apply_ability_used apply_adventure_loaded
    apply_narration_added apply_whisper_added apply_note_upserted apply_note_deleted
    apply_scene_seen
apply_payload-ActorsAreFiled st env unknown v = v
apply_payload-ActorsAreFiled st env (actor_control_granted g) v = granted-ActorsAreFiled st v g
apply_payload-ActorsAreFiled st env (actor_control_revoked r) v = revoked-ActorsAreFiled st v r
apply_payload-ActorsAreFiled st env (actor_added none) v = v
apply_payload-ActorsAreFiled st env (actor_added (some a)) v = added-ActorsAreFiled st v a
apply_payload-ActorsAreFiled st env (resource_changed rc) v = resource-ActorsAreFiled st v rc
apply_payload-ActorsAreFiled st env _ v = record {
  at_actor = λ id a e. grind (arith, v.at_actor id a, get-delete);
}
