-- ===== src/Engine/Invariant/Scenes.antt =====
-- Scenes are filed under their ids, have a map of doors, and hold no object twice.
use vtt_platform.Prelude.{
  String, ◌≡◌, refl, true, false, none, some, List, [], ◌∷◌, arith, is_some, eq_iff, Option-cases,
  inl, inr, contains, eq_refl,
}
use vtt_platform.Contract.Event
use vtt_platform.Contract.Event.{
  ObjectRef, Envelope, Payload, unknown, session_started, session_ended, scene_created, actor_added,
  actor_control_granted, actor_control_revoked, token_placed, token_described, token_moved,
  token_removed, actor_removed, door_opened, door_closed, attack_rolled, ability_used,
  adventure_loaded, resource_changed, condition_applied, condition_removed, narration_added,
  whisper_added, note_upserted, note_deleted, token_hidden, scene_seen,
}
use vtt_platform.Go.GoMap.{get, put, get-put}
use vtt_platform.Engine.State.{State, Scene, SceneObject}
use vtt_platform.Engine.Apply.Sessions.{apply_session_started, apply_session_ended}
use vtt_platform.Engine.Apply.Scenes.{
  apply_scene_created, translate, translated, bad_objects, Objects, built_scene, object_of,
}
use vtt_platform.Engine.Apply.Actors.{apply_actor_added, add_actor, apply_actor_removed}
use vtt_platform.Engine.Apply.Control.{apply_control_granted, apply_control_revoked, control_target}
use vtt_platform.Engine.Apply.Tokens.{
  apply_token_placed, apply_token_described, apply_token_moved, apply_token_removed,
  apply_token_hidden,
}
use vtt_platform.Engine.Apply.Doors.{
  with_door_open, with_door_closed, apply_door_opened, apply_door_closed,
}
use vtt_platform.Engine.Apply.Pools.{
  apply_resource_changed, apply_condition_applied, apply_condition_removed,
}
use vtt_platform.Engine.Apply.Feed.{
  apply_ability_used, apply_adventure_loaded, apply_narration_added, apply_whisper_added,
  apply_note_upserted, apply_note_deleted,
}
use vtt_platform.Engine.Apply.Sight.{apply_scene_seen, seen_scene}
use vtt_platform.Engine.Apply.Dispatch.{apply_payload}
use vtt_platform.Engine.Merge.{
  HaveDistinctIds, has_object, merge_objects-upsert_all, upsert_all-HaveDistinctIds,
}

pub record SceneIsBuilt (id : String) (sc : Scene) : Type 0 where
  pub filed : sc.id ≡ id
  pub distinct : HaveDistinctIds sc.objects
  pub has_doors : is_some sc.open_doors ≡ true

pub record ScenesAreBuilt (st : State) : Type 0 where
  pub at_scene : (id : String) (sc : Scene) → get st.scenes id ≡ some sc → SceneIsBuilt id sc

-- What a translated list of objects is made of.
translate-cons :
    (seen : List String) (o : ObjectRef) (rest : List ObjectRef) (os : List SceneObject)
    → translate seen (o ∷ rest) ≡ translated os
    → (os' : List SceneObject) × (os ≡ object_of o ∷ os')
      × (translate (o.object_id ∷ seen) rest ≡ translated os')
      × (contains seen o.object_id ≡ false)
unfolding translate
translate-cons seen o rest os h = go (translate (o.object_id ∷ seen) rest) refl
  where
    go :
        (later : Objects)
        → translate (o.object_id ∷ seen) rest ≡ later
        → (os' : List SceneObject) × (os ≡ object_of o ∷ os')
          × (translate (o.object_id ∷ seen) rest ≡ translated os')
          × (contains seen o.object_id ≡ false)
    go (translated os') e = (os', ground (arith, h, e), e, ground (arith, h))
    go (bad_objects x) e = ground (arith, h, e)

translate_absent :
    (seen : List String) (refs : List ObjectRef) (os : List SceneObject) (id : String)
    → translate seen refs ≡ translated os
    → contains seen id ≡ true
    → has_object id os ≡ false
unfolding translate has_object object_of
translate_absent seen [] os id h c = ground arith
translate_absent seen (o ∷ rest) os id h c =
    let (os', e, later, fresh) = translate-cons seen o rest os h in
    ground (
      arith,
      e,
      fresh,
      translate_absent (o.object_id ∷ seen) rest os' id later,
      eq_iff o.object_id id,
    )

translate-HaveDistinctIds :
    (seen : List String) (refs : List ObjectRef) (os : List SceneObject)
    → translate seen refs ≡ translated os
    → HaveDistinctIds os
unfolding translate object_of
translate-HaveDistinctIds seen [] os h = ground arith
translate-HaveDistinctIds seen (o ∷ rest) os h =
    let (os', e, later, fresh) = translate-cons seen o rest os h in
    rw e (
      translate_absent (o.object_id ∷ seen) rest os' o.object_id later (rw (eq_refl o.object_id)),
      translate-HaveDistinctIds (o.object_id ∷ seen) rest os' later,
    )

module _ (st : State) (v : ScenesAreBuilt st) where
  created-ScenesAreBuilt : (sc : Event.SceneCreated) → ScenesAreBuilt (apply_scene_created st sc).1
  unfolding apply_scene_created built_scene
  created-ScenesAreBuilt new = record {
    at_scene = λ id sc e. go id sc (translate [] new.objects) refl e;
  }
    where
      go :
          (id : String) (sc : Scene) (os : Objects)
          → translate [] new.objects ≡ os
          → get (apply_scene_created st new).1.scenes id ≡ some sc
          → SceneIsBuilt id sc
      go id sc (translated os) q e = ground (
        arith,
        v.at_scene id sc,
        translate-HaveDistinctIds [] new.objects os q,
        get-put st.scenes new.scene_id id (built_scene new os),
        eq_iff new.scene_id id,
      )
      go id sc (bad_objects x) q e = ground (arith, v.at_scene id sc)

  put-ScenesAreBuilt :
      (k : String) (new : Scene)
      → SceneIsBuilt k new
      → ScenesAreBuilt (record st { scenes = put st.scenes k new })
  put-ScenesAreBuilt k new b = record {
    at_scene = λ id sc e. ground (arith, v.at_scene id sc, get-put st.scenes k id new, eq_iff k id);
  }

  opened-ScenesAreBuilt : (d : Event.DoorAt) → ScenesAreBuilt (apply_door_opened st d).1
  unfolding apply_door_opened
  opened-ScenesAreBuilt d = elim (Option-cases (get st.scenes d.scene_id)) [
    | inl n ↦ rw (n, apply_door_opened) v
    | inr (old, q) ↦ elim (Option-cases d.at) [
      | inl n ↦ rw (q, apply_door_opened) (rw (n, apply_door_opened) v)
      | inr (p, r) ↦
          rw (q, apply_door_opened)
            (rw (r, apply_door_opened)
              (put-ScenesAreBuilt d.scene_id (with_door_open old p) (opened old p q)))
    ]
  ]
    where
      opened :
          (old : Scene) (p : Event.GridPosition)
          → get st.scenes d.scene_id ≡ some old
          → SceneIsBuilt d.scene_id (with_door_open old p)
      opened old p q = ground (arith, v.at_scene d.scene_id old q)

  closed-ScenesAreBuilt : (d : Event.DoorAt) → ScenesAreBuilt (apply_door_closed st d).1
  unfolding apply_door_closed
  closed-ScenesAreBuilt d = elim (Option-cases (get st.scenes d.scene_id)) [
    | inl n ↦ rw (n, apply_door_closed) v
    | inr (old, q) ↦ elim (Option-cases d.at) [
      | inl n ↦ rw (q, apply_door_closed) (rw (n, apply_door_closed) v)
      | inr (p, r) ↦
          rw (q, apply_door_closed)
            (rw (r, apply_door_closed)
              (put-ScenesAreBuilt d.scene_id (with_door_closed old p) (closed old p q)))
    ]
  ]
    where
      closed :
          (old : Scene) (p : Event.GridPosition)
          → get st.scenes d.scene_id ≡ some old
          → SceneIsBuilt d.scene_id (with_door_closed old p)
      closed old p q = ground (arith, v.at_scene d.scene_id old q)

  seen-SceneIsBuilt :
      (ss : Event.SceneSeen) (old : Scene)
      → SceneIsBuilt ss.scene_id old
      → SceneIsBuilt ss.scene_id (seen_scene old ss)
  unfolding seen_scene
  seen-SceneIsBuilt ss old b = record {
    filed = b.filed;
    distinct =
        rw (merge_objects-upsert_all old.objects ss.objects b.distinct)
          (upsert_all-HaveDistinctIds old.objects ss.objects b.distinct);
    has_doors = b.has_doors;
  }

  seen-ScenesAreBuilt : (ss : Event.SceneSeen) → ScenesAreBuilt (apply_scene_seen st ss).1
  unfolding apply_scene_seen
  seen-ScenesAreBuilt ss = elim (Option-cases (get st.scenes ss.scene_id)) [
    | inl n ↦ rw (n, apply_scene_seen) v
    | inr (old, q) ↦
        rw (q, apply_scene_seen)
          (unfold apply_scene_seen in
            put-ScenesAreBuilt ss.scene_id (seen_scene old ss)
              (seen-SceneIsBuilt ss old (v.at_scene ss.scene_id old q)))
  ]

pub apply_payload-ScenesAreBuilt :
    (st : State) (env : Envelope) (p : Payload)
    → ScenesAreBuilt st
    → ScenesAreBuilt (apply_payload st env p).1
unfolding apply_payload apply_session_started apply_session_ended apply_actor_added add_actor
    apply_actor_removed apply_control_granted apply_control_revoked control_target
    apply_token_placed apply_token_described apply_token_moved apply_token_removed
    apply_token_hidden apply_door_opened apply_door_closed apply_resource_changed
    apply_condition_applied apply_condition_removed apply_ability_used apply_adventure_loaded
    apply_narration_added apply_whisper_added apply_note_upserted apply_note_deleted
    apply_scene_seen
apply_payload-ScenesAreBuilt st env unknown v = v
apply_payload-ScenesAreBuilt st env (scene_created sc) v = created-ScenesAreBuilt st v sc
apply_payload-ScenesAreBuilt st env (door_opened d) v = opened-ScenesAreBuilt st v d
apply_payload-ScenesAreBuilt st env (door_closed d) v = closed-ScenesAreBuilt st v d
apply_payload-ScenesAreBuilt st env (scene_seen ss) v = seen-ScenesAreBuilt st v ss
apply_payload-ScenesAreBuilt st env (actor_added none) v = v
apply_payload-ScenesAreBuilt st env (actor_added (some a)) v = record {
  at_scene = λ id sc e. ground (arith, v.at_scene id sc);
}
apply_payload-ScenesAreBuilt st env _ v = record {
  at_scene = λ id sc e. ground (arith, v.at_scene id sc);
}
