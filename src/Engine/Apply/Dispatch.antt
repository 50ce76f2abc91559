-- ===== src/Engine/Apply/Dispatch.antt =====
-- The switch of Apply.
use vtt_platform.Contract.Event.{
  Envelope, Payload, unknown, session_started, session_ended, scene_created, actor_added,
  actor_control_granted, actor_control_revoked, token_placed, token_described, token_moved,
  token_removed, actor_removed, door_opened, door_closed, attack_rolled, ability_used,
  adventure_loaded, resource_changed, condition_applied, condition_removed, narration_added,
  whisper_added, note_upserted, note_deleted, token_hidden, scene_seen,
}
use vtt_platform.Engine.State.{State}
use vtt_platform.Engine.Apply.Outcome.{Outcome, refuse, done, unknown_variant}
use vtt_platform.Engine.Apply.Sessions.{apply_session_started, apply_session_ended}
use vtt_platform.Engine.Apply.Scenes.{apply_scene_created}
use vtt_platform.Engine.Apply.Actors.{apply_actor_added, apply_actor_removed}
use vtt_platform.Engine.Apply.Control.{apply_control_granted, apply_control_revoked}
use vtt_platform.Engine.Apply.Tokens.{
  apply_token_placed, apply_token_described, apply_token_moved, apply_token_removed,
  apply_token_hidden,
}
use vtt_platform.Engine.Apply.Doors.{apply_door_opened, apply_door_closed}
use vtt_platform.Engine.Apply.Pools.{
  apply_resource_changed, apply_condition_applied, apply_condition_removed,
}
use vtt_platform.Engine.Apply.Feed.{
  apply_ability_used, apply_adventure_loaded, apply_narration_added, apply_whisper_added,
  apply_note_upserted, apply_note_deleted,
}
use vtt_platform.Engine.Apply.Sight.{apply_scene_seen}

unfoldable pub apply_payload : State → Envelope → Payload → Outcome
apply_payload st env unknown = refuse unknown_variant st
apply_payload st env (session_started name) = apply_session_started st env name
apply_payload st env session_ended = apply_session_ended st env
apply_payload st env (scene_created sc) = apply_scene_created st sc
apply_payload st env (actor_added a) = apply_actor_added st a
apply_payload st env (actor_control_granted g) = apply_control_granted st g
apply_payload st env (actor_control_revoked r) = apply_control_revoked st r
apply_payload st env (token_placed tp) = apply_token_placed st tp
apply_payload st env (token_described td) = apply_token_described st td
apply_payload st env (token_moved tm) = apply_token_moved st tm
apply_payload st env (token_removed id) = apply_token_removed st id
apply_payload st env (actor_removed id) = apply_actor_removed st id
apply_payload st env (door_opened d) = apply_door_opened st d
apply_payload st env (door_closed d) = apply_door_closed st d
apply_payload st env attack_rolled = done st
apply_payload st env (ability_used id) = apply_ability_used st id
apply_payload st env (adventure_loaded id name) = apply_adventure_loaded st id name
apply_payload st env (resource_changed rc) = apply_resource_changed st rc
apply_payload st env (condition_applied ca) = apply_condition_applied st env ca
apply_payload st env (condition_removed cr) = apply_condition_removed st cr
apply_payload st env (narration_added na) = apply_narration_added st env na
apply_payload st env (whisper_added w) = apply_whisper_added st w
apply_payload st env (note_upserted nu) = apply_note_upserted st env nu
apply_payload st env (note_deleted key) = apply_note_deleted st key
apply_payload st env (token_hidden id) = apply_token_hidden st id
apply_payload st env (scene_seen ss) = apply_scene_seen st ss

unfoldable pub apply : State → Envelope → Outcome
unfolding apply_payload
apply st env = apply_payload st env env.payload
