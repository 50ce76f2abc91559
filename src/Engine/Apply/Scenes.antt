-- ===== src/Engine/Apply/Scenes.antt =====
-- The SceneCreated arm, and the translation of the contract's terrain.
use vtt_platform.Prelude.{
  String, Option, none, some, List, [], ◌∷◌, len, ltb, contains, is_some, if◌then◌else◌,
}
use vtt_platform.Prelude.Int.{ℤ, pos}
use vtt_platform.Contract.Event.{GridPosition, TileRef, ObjectRef, SceneCreated}
use vtt_platform.Go.GoMap.{get, put, map_values}
use vtt_platform.Go.GoMap
use vtt_platform.Engine.State.{State, Scene, SceneObject, Tile}
use vtt_platform.Engine.Apply.Outcome.{
  EngineError, Outcome, refuse, done, bad_scene_id, scene_exists, name_too_long, bad_object_id,
  object_appears_twice, max_name_bytes, max_id_bytes, empty_or_over,
}

unfoldable pub tile_of : TileRef → Tile
tile_of t = record { kind = t.kind; material = t.material; art = t.art }

-- A nil position reads as (0, 0).
abbrev pub x_of : Option GridPosition → ℤ
x_of none = pos 0
x_of (some p) = p.x

abbrev pub y_of : Option GridPosition → ℤ
y_of none = pos 0
y_of (some p) = p.y

unfoldable pub object_of : ObjectRef → SceneObject
object_of o = record {
  object_id = o.object_id;
  kind = o.kind;
  x = x_of o.at;
  y = y_of o.at;
  width = o.width;
  height = o.height;
  rotation_degrees = o.rotation_degrees;
  blocks_sight = o.blocks_sight;
  blocks_move = o.blocks_move;
  art = o.art;
}

pub data Objects : Type 0 where
  translated : List SceneObject → Objects
  bad_objects : EngineError → Objects

abbrev pub and_then : SceneObject → Objects → Objects
and_then o (translated rest) = translated (o ∷ rest)
and_then o (bad_objects e) = bad_objects e

-- The loop over the objects; `seen` is the set objectIDs.
unfoldable pub translate : List String → List ObjectRef → Objects
unfolding object_of
translate seen [] = translated []
translate seen (o ∷ rest) =
    let later = and_then (object_of o) (translate (o.object_id ∷ seen) rest) in
    if empty_or_over max_id_bytes o.object_id
    then bad_objects bad_object_id
    else if contains seen o.object_id
    then bad_objects object_appears_twice
    else later

unfoldable pub built_scene : SceneCreated → List SceneObject → Scene
unfolding tile_of
built_scene sc objects = record {
  id = sc.scene_id;
  name = sc.name;
  grid_width = sc.grid_width;
  grid_height = sc.grid_height;
  tiles = some (map_values tile_of sc.tiles);
  objects = objects;
  open_doors = some GoMap.empty;
  explored = none;
  visible = none;
}

unfoldable pub apply_scene_created : State → SceneCreated → Outcome
unfolding built_scene
apply_scene_created st sc =
    if empty_or_over max_id_bytes sc.scene_id
    then refuse bad_scene_id st
    else if is_some (get st.scenes sc.scene_id)
    then refuse scene_exists st
    else if ltb max_name_bytes (len sc.name)
    then refuse name_too_long st
    else elim (translate [] sc.objects) [
      | translated objects ↦
          done (record st { scenes = put st.scenes sc.scene_id (built_scene sc objects) })
      | bad_objects e ↦ refuse e st
    ]
