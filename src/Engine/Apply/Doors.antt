-- ===== src/Engine/Apply/Doors.antt =====
-- The DoorOpened and DoorClosed arms.
use vtt_platform.Prelude.{true, none, some}
use vtt_platform.Contract.Event.{GridPosition, DoorAt}
use vtt_platform.Go.GoMap.{get, put, delete}
use vtt_platform.Engine.State.{State, Scene, or_empty}
use vtt_platform.Engine.Terrain.{grid_key}
use vtt_platform.Engine.Apply.Outcome.{Outcome, refuse, done, unknown_scene, without_position}

-- A nil map of doors is made first, so that the write cannot panic.
unfoldable pub with_door_open : Scene → GridPosition → Scene
with_door_open sc p = record sc {
  open_doors = some (put (or_empty sc.open_doors) (grid_key p.x p.y) true);
}

unfoldable pub with_door_closed : Scene → GridPosition → Scene
with_door_closed sc p = record sc {
  open_doors = some (delete (or_empty sc.open_doors) (grid_key p.x p.y));
}

unfoldable pub apply_door_opened : State → DoorAt → Outcome
unfolding with_door_open
apply_door_opened st d = elim (get st.scenes d.scene_id) [
  | none ↦ refuse unknown_scene st
  | some sc ↦ elim d.at [
    | none ↦ refuse without_position st
    | some p ↦ done (record st { scenes = put st.scenes d.scene_id (with_door_open sc p) })
  ]
]

unfoldable pub apply_door_closed : State → DoorAt → Outcome
unfolding with_door_closed
apply_door_closed st d = elim (get st.scenes d.scene_id) [
  | none ↦ refuse unknown_scene st
  | some sc ↦ elim d.at [
    | none ↦ refuse without_position st
    | some p ↦ done (record st { scenes = put st.scenes d.scene_id (with_door_closed sc p) })
  ]
]
