-- ===== src/Tests/Engine.antt =====
-- The engine's theorems at concrete inputs.
use vtt_platform.Prelude.{
  String, ◌≡◌, ◌↔◌, refl, false, ◌||◌, none, some, [], ◌∷◌, ◌==◌, contains, is_some,
}
use vtt_platform.Prelude.Int.{pos}
use vtt_platform.Contract.Event.{
  actor_added, actor_control_granted, door_opened, session_ended, ResourceChanged, ConditionApplied,
  ConditionRemoved, NarrationAdded, SceneSeen,
}
use vtt_platform.Go.GoMap.{get, lookup}
use vtt_platform.Engine.State.{
  open_session, State, new_state, snapshot, conditions_of, flag, or_empty,
}
use vtt_platform.Engine.Terrain.{blocked, blocked_in}
use vtt_platform.Engine.Apply.Outcome.{no_open_session}
use vtt_platform.Engine.Apply.Actors.{apply_actor_removed, standing_token}
use vtt_platform.Engine.Apply.Doors.{apply_door_opened}
use vtt_platform.Engine.Apply.Pools.{
  apply_condition_applied, apply_condition_removed, has_condition,
}
use vtt_platform.Engine.Apply.Feed.{apply_narration_added}
use vtt_platform.Engine.Apply.Sight.{merge_objects, seen_scene}
use vtt_platform.Engine.Apply.Sessions.{apply_session_ended}
use vtt_platform.Engine.Apply.Dispatch.{apply, apply_payload}
use vtt_platform.Engine.WellFormed.{IsWellFormed, new_state-IsWellFormed, apply-IsWellFormed}
use vtt_platform.Engine.Refusal.{apply_refused}
use vtt_platform.Engine.Copies.{Follows, apply-snapshot}
use vtt_platform.Engine.Merge.{upsert_all, merge_objects-upsert_all, has_object}
use vtt_platform.Engine.Doors.{CanEnter, blocked-CanEnter, opened-blocked}
use vtt_platform.Engine.Effects.{condition_round_trip}
use vtt_platform.Engine.Removal.{removal_leaves_nothing}
use vtt_platform.Engine.Narration.{IsNarratable, narration_accepted}
use vtt_platform.Engine.Seen.{seen_squares}
use vtt_platform.Tests.Data.{
  crate, seen_crate, cellar, hero_token, table, event, recruit, to_ann, door_at,
}

abbrev recruited : State
recruited = (apply new_state (event (pos 1) (actor_added (some recruit)))).1

apply-IsWellFormed_example :
    IsWellFormed (apply recruited (event (pos 2) (actor_control_granted to_ann))).1
apply-IsWellFormed_example =
    apply-IsWellFormed recruited (event (pos 2) (actor_control_granted to_ann)) (
      apply-IsWellFormed new_state (event (pos 1) (actor_added (some recruit)))
        new_state-IsWellFormed)

apply_refused_example : (apply table (event (pos 3) session_ended)).1 ≡ table
unfolding apply apply_payload apply_session_ended open_session
apply_refused_example = apply_refused table (event (pos 3) session_ended) {e = no_open_session} refl

apply-snapshot_example :
    Follows
      (apply (snapshot table) (event (pos 3) (door_opened door_at)))
      (apply table (event (pos 3) (door_opened door_at)))
apply-snapshot_example = apply-snapshot table (event (pos 3) (door_opened door_at))

merge_objects-upsert_all_example :
    merge_objects (crate ∷ []) (seen_crate ∷ []) ≡ upsert_all (crate ∷ []) (seen_crate ∷ [])
unfolding has_object
merge_objects-upsert_all_example =
    merge_objects-upsert_all (crate ∷ []) (seen_crate ∷ []) (refl, tt)

blocked-CanEnter_example :
    (blocked_in cellar (pos 3) (pos 3) ≡ none) ↔ CanEnter cellar (pos 3) (pos 3)
blocked-CanEnter_example = blocked-CanEnter cellar (pos 3) (pos 3)

elsewhere : (◌≡◌ {A = String} "cellar" "cellar") × (pos 3 ≡ pos 2) × (pos 1 ≡ pos 1) → ⊥
elsewhere h = cc (h.1)

opened-blocked_example :
    blocked (apply_door_opened table door_at).1 "cellar" (pos 3) (pos 1)
    ≡ blocked table "cellar" (pos 3) (pos 1)
opened-blocked_example =
    opened-blocked table door_at (record { x = pos 2; y = pos 1 }) "cellar" (pos 3) (pos 1) refl
      elsewhere

abbrev hurt : ResourceChanged
hurt = record { actor_id = "hero"; resource = "hp"; delta = pos 7; new_value = pos 10; reason = "" }

abbrev poison : ConditionApplied
poison = record { actor_id = "hero"; condition_id = "poisoned"; source = "trap" }

abbrev cure : ConditionRemoved
cure = record { actor_id = "hero"; condition_id = "poisoned"; reason = "" }

condition_round_trip_example :
    ((apply_condition_removed
        (apply_condition_applied table (event (pos 3) (door_opened door_at)) poison).1
        cure).0
      ≡ none)
    × (conditions_of
          (apply_condition_removed
            (apply_condition_applied table (event (pos 3) (door_opened door_at)) poison).1
            cure).1
          "hero"
        ≡ conditions_of table "hero")
unfolding apply_condition_applied conditions_of get lookup has_condition
condition_round_trip_example =
    condition_round_trip table (event (pos 3) (door_opened door_at)) poison cure "hero" refl refl
      refl

removal_leaves_nothing_example :
    (is_some (get (apply_actor_removed table "goblin").1.actors "goblin") ≡ false)
    × (conditions_of (apply_actor_removed table "goblin").1 "goblin" ≡ [])
    × (("hero" == "goblin") ≡ false)
unfolding apply_actor_removed get lookup standing_token
removal_leaves_nothing_example =
    removal_leaves_nothing table "goblin" "t1" hero_token (refl, tt) refl refl

abbrev tale : NarrationAdded
tale = record {
  text = "The door creaks.";
  speaks_as = "";
  anchor_from_seq = pos 1;
  anchor_to_seq = pos 2;
  out_of_character = false;
}

narration_accepted_example :
    ((apply_narration_added table (event (pos 3) (door_opened door_at)) tale).0 ≡ none)
    ↔ IsNarratable (pos 3) tale
narration_accepted_example = narration_accepted table (event (pos 3) (door_opened door_at)) tale

abbrev glimpse : SceneSeen
glimpse = record {
  scene_id = "cellar";
  tiles = record { entries = ("2,1", record { kind = "door"; material = "oak"; art = "" }) ∷ [] };
  objects = seen_crate ∷ [];
  visible = "2,1" ∷ [];
}

seen_squares_example :
    (flag (seen_scene cellar glimpse).visible "2,1" ≡ contains glimpse.visible "2,1")
    × (flag (seen_scene cellar glimpse).explored "2,1"
        ≡ (is_some (get glimpse.tiles "2,1") || flag cellar.explored "2,1"))
    × (is_some (get (or_empty (seen_scene cellar glimpse).tiles) "2,1")
        ≡ (is_some (get glimpse.tiles "2,1") || is_some (get (or_empty cellar.tiles) "2,1")))
seen_squares_example = seen_squares cellar glimpse "2,1"
