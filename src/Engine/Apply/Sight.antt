-- ===== src/Engine/Apply/Sight.antt =====
-- The SceneSeen arm and mergeObjects: what a character log's fold remembers of a scene.
use vtt_platform.Prelude.{ℕ, zero, suc, String, Bool, true, none, some, List, [], ◌∷◌, ◌++◌, length}
use vtt_platform.Contract.Event.{TileRef, ObjectRef, SceneSeen}
use vtt_platform.Go.GoMap.{Map, get, put}
use vtt_platform.Go.GoMap
use vtt_platform.Engine.State.{State, Scene, SceneObject, Tile, or_empty}
use vtt_platform.Engine.Apply.Outcome.{Outcome, refuse, done, unknown_scene}
use vtt_platform.Engine.Apply.Scenes.{tile_of, object_of}

-- have[i] = got
unfoldable pub set_object : ℕ → SceneObject → List SceneObject → List SceneObject
set_object i got [] = []
set_object zero got (o ∷ rest) = got ∷ rest
set_object (suc i) got (o ∷ rest) = o ∷ set_object i got rest

-- The first loop of mergeObjects: byID[o.ObjectID] = i.
unfoldable pub index_objects : ℕ → List SceneObject → Map ℕ → Map ℕ
index_objects i [] by_id = by_id
index_objects i (o ∷ rest) by_id = index_objects (suc i) rest (put by_id o.object_id i)

-- The body of its second loop, over the two variables that it changes.
unfoldable pub merge_object : List SceneObject × Map ℕ → SceneObject → List SceneObject × Map ℕ
unfolding set_object
merge_object (have, by_id) got = elim (get by_id got.object_id) [
  | some i ↦ (set_object i got have, by_id)
  | none ↦ (have ++ got ∷ [], put by_id got.object_id (length have))
]

unfoldable pub merge_all : List SceneObject × Map ℕ → List ObjectRef → List SceneObject × Map ℕ
unfolding merge_object object_of
merge_all s [] = s
merge_all s (o ∷ rest) = merge_all (merge_object s (object_of o)) rest

unfoldable pub merge_objects : List SceneObject → List ObjectRef → List SceneObject
unfolding index_objects merge_all
merge_objects have incoming = (merge_all (have, index_objects 0 have GoMap.empty) incoming).0

-- sc.Visible: the set of the squares listed.
unfoldable pub set_of : Map Bool → List String → Map Bool
set_of m [] = m
set_of m (sq ∷ rest) = set_of (put m sq true) rest

-- The loop over the tiles seen: each is remembered, and its square explored.
unfoldable pub remember_tiles : Map Tile → List (String × TileRef) → Map Tile
unfolding tile_of
remember_tiles tiles [] = tiles
remember_tiles tiles ((key, ref) ∷ rest) = remember_tiles (put tiles key (tile_of ref)) rest

unfoldable pub explore : Map Bool → List (String × TileRef) → Map Bool
explore m [] = m
explore m ((key, ref) ∷ rest) = explore (put m key true) rest

unfoldable pub seen_scene : Scene → SceneSeen → Scene
unfolding merge_objects set_of remember_tiles explore
seen_scene sc ss = record sc {
  tiles = some (remember_tiles (or_empty sc.tiles) ss.tiles.entries);
  explored = some (explore (or_empty sc.explored) ss.tiles.entries);
  visible = some (set_of GoMap.empty ss.visible);
  objects = merge_objects sc.objects ss.objects;
}

unfoldable pub apply_scene_seen : State → SceneSeen → Outcome
unfolding seen_scene
apply_scene_seen st ss = elim (get st.scenes ss.scene_id) [
  | none ↦ refuse unknown_scene st
  | some sc ↦ done (record st { scenes = put st.scenes ss.scene_id (seen_scene sc ss) })
]
