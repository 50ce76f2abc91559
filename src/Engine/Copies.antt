-- ===== src/Engine/Copies.antt =====
-- Apply on a snapshot beside Apply on the live state.
use vtt_platform.Prelude.{
  String, ◌≡◌, refl, none, some, arith, List, [], ◌∷◌, Option-cases, inl, inr,
}
use vtt_platform.Contract.Event
use vtt_platform.Contract.Event.{
  Envelope, Payload, unknown, session_started, session_ended, scene_created, actor_added,
  actor_control_granted, actor_control_revoked, token_placed, token_described, token_moved,
  token_removed, actor_removed, door_opened, door_closed, attack_rolled, ability_used,
  adventure_loaded, resource_changed, condition_applied, condition_removed, narration_added,
  whisper_added, note_upserted, note_deleted, token_hidden, scene_seen,
}
use vtt_platform.Go.GoMap.{get, put, get-map_values, map_values, map_values-put, map_values_idem}
use vtt_platform.Engine.State.{State, Scene, snapshot, copy_scene, conditions_of, open_session}
use vtt_platform.Engine.Apply.Sessions.{apply_session_started, apply_session_ended}
use vtt_platform.Engine.Apply.Scenes.{
  apply_scene_created, translate, translated, bad_objects, Objects, built_scene,
}
use vtt_platform.Engine.Apply.Actors.{apply_actor_added, add_actor, apply_actor_removed}
use vtt_platform.Engine.Apply.Control.{apply_control_granted, apply_control_revoked, control_target}
use vtt_platform.Engine.Apply.Tokens.{
  apply_token_placed, apply_token_described, apply_token_moved, apply_token_removed,
  apply_token_hidden,
}
use vtt_platform.Engine.Apply.Doors.{
  with_door_open, with_door_closed, apply_door_opened, apply_door_closed,
}
use vtt_platform.Engine.Apply.Pools.{
  apply_resource_changed, apply_condition_applied, apply_condition_removed,
}
use vtt_platform.Engine.Apply.Feed.{
  apply_ability_used, apply_adventure_loaded, apply_narration_added, apply_whisper_added, all_known,
  apply_note_upserted, apply_note_deleted,
}
use vtt_platform.Engine.Apply.Sight.{apply_scene_seen, seen_scene}
use vtt_platform.Engine.Apply.Dispatch.{apply, apply_payload}
use vtt_platform.Engine.Apply.Outcome.{Outcome}

copy_scene_idem : (sc : Scene) → copy_scene (copy_scene sc) ≡ copy_scene sc
unfolding copy_scene
copy_scene_idem sc = refl

-- One outcome refuses as the other does, and their states have the same copy.
pub record Follows (o p : Outcome) : Type 0 where
  pub same_refusal : o.0 ≡ p.0
  pub same_copy : snapshot o.1 ≡ snapshot p.1

scenes_idem :
    (st : State)
    → map_values copy_scene (map_values copy_scene st.scenes) ≡ map_values copy_scene st.scenes
scenes_idem st = map_values_idem copy_scene copy_scene_idem st.scenes

-- The copy of a state in which one scene was written.
put_copy :
    (st : State) (k : String) (new new' : Scene)
    → copy_scene new ≡ copy_scene new'
    → map_values copy_scene (put (map_values copy_scene st.scenes) k new)
      ≡ map_values copy_scene (put st.scenes k new')
put_copy st k new new' e = rw (
  map_values-put copy_scene (map_values copy_scene st.scenes) k new,
  map_values-put copy_scene st.scenes k new',
  scenes_idem st,
  e,
)

all_known-snapshot :
    (st : State) (ids : List String) → all_known (snapshot st) ids ≡ all_known st ids
unfolding all_known snapshot
all_known-snapshot st [] = refl
all_known-snapshot st (id ∷ rest) = ground (arith, all_known-snapshot st rest)

created-Follows :
    (st : State) (sc : Event.SceneCreated) (os : Objects)
    → translate [] sc.objects ≡ os
    → Follows (apply_scene_created (snapshot st) sc) (apply_scene_created st sc)
unfolding apply_scene_created snapshot
created-Follows st sc (bad_objects x) q =
    ground (arith, scenes_idem st, get-map_values copy_scene st.scenes sc.scene_id)
created-Follows st sc (translated os) q = ground (
  arith,
  scenes_idem st,
  get-map_values copy_scene st.scenes sc.scene_id,
  put_copy st sc.scene_id (built_scene sc os) (built_scene sc os) refl,
)

opened_copy :
    (sc : Scene) (p : Event.GridPosition)
    → copy_scene (with_door_open (copy_scene sc) p) ≡ copy_scene (with_door_open sc p)
unfolding copy_scene with_door_open
opened_copy sc p = refl

closed_copy :
    (sc : Scene) (p : Event.GridPosition)
    → copy_scene (with_door_closed (copy_scene sc) p) ≡ copy_scene (with_door_closed sc p)
unfolding copy_scene with_door_closed
closed_copy sc p = refl

seen_copy :
    (sc : Scene) (ss : Event.SceneSeen)
    → copy_scene (seen_scene (copy_scene sc) ss) ≡ copy_scene (seen_scene sc ss)
unfolding copy_scene seen_scene
seen_copy sc ss = refl

opened-Follows :
    (st : State) (d : Event.DoorAt)
    → Follows (apply_door_opened (snapshot st) d) (apply_door_opened st d)
unfolding apply_door_opened snapshot
opened-Follows st d = elim (Option-cases (get st.scenes d.scene_id)) [
  | inl e ↦ ground (arith, scenes_idem st, get-map_values copy_scene st.scenes d.scene_id)
  | inr (sc, e) ↦ elim (Option-cases d.at) [
    | inl n ↦ ground (arith, scenes_idem st, get-map_values copy_scene st.scenes d.scene_id)
    | inr (p, n) ↦ ground (
      arith,
      get-map_values copy_scene st.scenes d.scene_id,
      put_copy st d.scene_id (with_door_open (copy_scene sc) p) (with_door_open sc p)
          (opened_copy sc p),
    )
  ]
]

closed-Follows :
    (st : State) (d : Event.DoorAt)
    → Follows (apply_door_closed (snapshot st) d) (apply_door_closed st d)
unfolding apply_door_closed snapshot
closed-Follows st d = elim (Option-cases (get st.scenes d.scene_id)) [
  | inl e ↦ ground (arith, scenes_idem st, get-map_values copy_scene st.scenes d.scene_id)
  | inr (sc, e) ↦ elim (Option-cases d.at) [
    | inl n ↦ ground (arith, scenes_idem st, get-map_values copy_scene st.scenes d.scene_id)
    | inr (p, n) ↦ ground (
      arith,
      get-map_values copy_scene st.scenes d.scene_id,
      put_copy st d.scene_id (with_door_closed (copy_scene sc) p) (with_door_closed sc p)
          (closed_copy sc p),
    )
  ]
]

seen-Follows :
    (st : State) (ss : Event.SceneSeen)
    → Follows (apply_scene_seen (snapshot st) ss) (apply_scene_seen st ss)
unfolding apply_scene_seen snapshot
seen-Follows st ss = elim (Option-cases (get st.scenes ss.scene_id)) [
  | inl e ↦ ground (arith, scenes_idem st, get-map_values copy_scene st.scenes ss.scene_id)
  | inr (sc, e) ↦ ground (
    arith,
    get-map_values copy_scene st.scenes ss.scene_id,
    put_copy st ss.scene_id (seen_scene (copy_scene sc) ss) (seen_scene sc ss) (seen_copy sc ss),
  )
]

payload-Follows :
    (st : State) (env : Envelope) (p : Payload)
    → Follows (apply_payload (snapshot st) env p) (apply_payload st env p)
unfolding apply_payload apply_session_started apply_session_ended apply_actor_added add_actor
    apply_actor_removed apply_control_granted apply_control_revoked control_target
    apply_token_placed apply_token_described apply_token_moved apply_token_removed
    apply_token_hidden apply_resource_changed apply_condition_applied apply_condition_removed
    apply_ability_used apply_adventure_loaded apply_narration_added apply_whisper_added
    apply_note_upserted apply_note_deleted conditions_of open_session snapshot
payload-Follows st env unknown = ground (arith, scenes_idem st)
payload-Follows st env (actor_added none) = ground (arith, scenes_idem st)
payload-Follows st env (actor_added (some a)) = ground (arith, scenes_idem st)
payload-Follows st env (token_placed tp) =
    ground (arith, scenes_idem st, get-map_values copy_scene st.scenes tp.scene_id)
payload-Follows st env (whisper_added w) =
    ground (arith, scenes_idem st, all_known-snapshot st w.to_actor_ids)
payload-Follows st env (scene_created sc) = created-Follows st sc (translate [] sc.objects) refl
payload-Follows st env (door_opened d) = opened-Follows st d
payload-Follows st env (door_closed d) = closed-Follows st d
payload-Follows st env (scene_seen ss) = seen-Follows st ss
payload-Follows st env _ = ground (arith, scenes_idem st)

-- On a snapshot every event is refused, or applied, as on the live state, and the states that
-- result have the same copy.
pub apply-snapshot :
    (st : State) (env : Envelope) → Follows (apply (snapshot st) env) (apply st env)
unfolding apply
apply-snapshot st env = payload-Follows st env env.payload

pub snapshot_idem : (st : State) → snapshot (snapshot st) ≡ snapshot st
unfolding snapshot
snapshot_idem st = ground (arith, scenes_idem st)
