-- ===== src/Engine/Invariant/Keys.antt =====
-- The maps of the state hold each key once.
use vtt_platform.Prelude.{none, some, arith}
use vtt_platform.Contract.Event.{Envelope, Payload, unknown, actor_added}
use vtt_platform.Go.GoMap.{Map, UniqueKeys, put-UniqueKeys, delete-UniqueKeys}
use vtt_platform.Engine.State.{State}
use vtt_platform.Engine.Apply.Sessions.{apply_session_started, apply_session_ended}
use vtt_platform.Engine.Apply.Scenes.{apply_scene_created}
use vtt_platform.Engine.Apply.Actors.{apply_actor_added, add_actor, apply_actor_removed}
use vtt_platform.Engine.Apply.Control.{apply_control_granted, apply_control_revoked, control_target}
use vtt_platform.Engine.Apply.Tokens.{
  apply_token_placed, apply_token_described, apply_token_moved, apply_token_removed,
  apply_token_hidden,
}
use vtt_platform.Engine.Apply.Doors.{apply_door_opened, apply_door_closed}
use vtt_platform.Engine.Apply.Pools.{
  apply_resource_changed, apply_condition_applied, apply_condition_removed,
}
use vtt_platform.Engine.Apply.Feed.{
  apply_ability_used, apply_adventure_loaded, apply_narration_added, apply_whisper_added,
  apply_note_upserted, apply_note_deleted,
}
use vtt_platform.Engine.Apply.Sight.{apply_scene_seen}
use vtt_platform.Engine.Apply.Dispatch.{apply_payload}

abbrev pub HasUniqueKeys {ℓ} : {V : Type ℓ} → Map V → Type ℓ
HasUniqueKeys m = UniqueKeys m.entries

pub record KeysAreUnique (st : State) : Type 0 where
  pub scenes : HasUniqueKeys st.scenes
  pub actors : HasUniqueKeys st.actors
  pub tokens : HasUniqueKeys st.tokens

-- Every event keeps the keys distinct, whether it is applied or refused.
pub apply_payload-KeysAreUnique :
    (st : State) (env : Envelope) (p : Payload)
    → KeysAreUnique st
    → KeysAreUnique (apply_payload st env p).1
unfolding apply_payload apply_session_started apply_session_ended apply_scene_created
    apply_actor_added add_actor apply_actor_removed apply_control_granted apply_control_revoked
    control_target apply_token_placed apply_token_described apply_token_moved apply_token_removed
    apply_token_hidden apply_door_opened apply_door_closed apply_resource_changed
    apply_condition_applied apply_condition_removed apply_ability_used apply_adventure_loaded
    apply_narration_added apply_whisper_added apply_note_upserted apply_note_deleted
    apply_scene_seen
apply_payload-KeysAreUnique st env unknown v = v
apply_payload-KeysAreUnique st env (actor_added none) v = v
apply_payload-KeysAreUnique st env (actor_added (some a)) v =
    ground (arith, put-UniqueKeys st.actors a.actor_id a v.actors)
apply_payload-KeysAreUnique st env _ v = grind (arith, put-UniqueKeys, delete-UniqueKeys)
