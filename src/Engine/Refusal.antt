-- ===== src/Engine/Refusal.antt =====
-- The events that Apply refuses.
use vtt_platform.Prelude.{◌≡◌, refl, none, some, arith, []}
use vtt_platform.Contract.Event
use vtt_platform.Contract.Event.{
  Envelope, Payload, unknown, session_started, session_ended, scene_created, actor_added,
  actor_control_granted, actor_control_revoked, token_placed, token_described, token_moved,
  token_removed, actor_removed, door_opened, door_closed, attack_rolled, ability_used,
  adventure_loaded, resource_changed, condition_applied, condition_removed, narration_added,
  whisper_added, note_upserted, note_deleted, token_hidden, scene_seen,
}
use vtt_platform.Engine.State.{State}
use vtt_platform.Engine.Apply.Sessions.{apply_session_started, apply_session_ended}
use vtt_platform.Engine.Apply.Scenes.{
  apply_scene_created, translate, translated, bad_objects, Objects,
}
use vtt_platform.Engine.Apply.Actors.{apply_actor_added, add_actor, apply_actor_removed}
use vtt_platform.Engine.Apply.Control.{apply_control_granted, apply_control_revoked, control_target}
use vtt_platform.Engine.Apply.Tokens.{
  apply_token_placed, apply_token_described, apply_token_moved, apply_token_removed,
  apply_token_hidden,
}
use vtt_platform.Engine.Apply.Doors.{apply_door_opened, apply_door_closed}
use vtt_platform.Engine.Apply.Pools.{
  apply_resource_changed, apply_condition_applied, apply_condition_removed,
}
use vtt_platform.Engine.Apply.Feed.{
  apply_ability_used, apply_adventure_loaded, apply_narration_added, apply_whisper_added,
  apply_note_upserted, apply_note_deleted,
}
use vtt_platform.Engine.Apply.Sight.{apply_scene_seen}
use vtt_platform.Engine.Apply.Dispatch.{apply, apply_payload}
use vtt_platform.Engine.Apply.Outcome.{EngineError}

scene_refused :
    (st : State) (sc : Event.SceneCreated) (os : Objects)
    → translate [] sc.objects ≡ os
    → {e : EngineError} → (apply_scene_created st sc).0 ≡ some e
    → (apply_scene_created st sc).1 ≡ st
unfolding apply_scene_created
scene_refused st sc (translated l) q h = ground arith
scene_refused st sc (bad_objects x) q h = ground arith

payload_refused :
    (st : State) (env : Envelope) (p : Payload) {e : EngineError}
    → (apply_payload st env p).0 ≡ some e
    → (apply_payload st env p).1 ≡ st
unfolding apply_payload apply_session_started apply_session_ended apply_actor_added add_actor
    apply_actor_removed apply_control_granted apply_control_revoked control_target
    apply_token_placed apply_token_described apply_token_moved apply_token_removed
    apply_token_hidden apply_door_opened apply_door_closed apply_resource_changed
    apply_condition_applied apply_condition_removed apply_ability_used apply_adventure_loaded
    apply_narration_added apply_whisper_added apply_note_upserted apply_note_deleted
    apply_scene_seen
payload_refused st env unknown h = refl
payload_refused st env (scene_created sc) h = scene_refused st sc (translate [] sc.objects) refl h
payload_refused st env (actor_added none) h = refl
payload_refused st env (actor_added (some a)) h = ground arith
payload_refused st env _ h = ground arith

-- An event that is refused leaves the state as it was.
pub apply_refused :
    (st : State) (env : Envelope) {e : EngineError}
    → (apply st env).0 ≡ some e
    → (apply st env).1 ≡ st
unfolding apply
apply_refused st env h = payload_refused st env env.payload h
