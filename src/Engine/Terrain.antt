-- ===== src/Engine/Terrain.antt =====
-- internal/engine/terrain.go and actorkind.go.
use vtt_platform.Prelude.{
  String, Bool, true, false, not, ◌&&◌, ◌||◌, Option, none, some, List, [], ◌∷◌, ◌==◌,
  if◌then◌else◌,
}
use vtt_platform.Prelude.Int.{ℤ, pos, ltb_ℤ, leb_ℤ, ◌+₃₂◌}
use vtt_platform.Go.Format.{format_pair}
use vtt_platform.Go.GoMap.{get}
use vtt_platform.Contract.Event.{Actor, ActorKind, kind_unspecified, party_member, non_party}
use vtt_platform.Engine.State.{State, Scene, SceneObject, Tile, or_empty, flag}

-- Why a square cannot be entered: the second result of Blocked.
pub data Reason : Type 0 where
  unknown_scene : String → Reason
  outside_the_grid : Reason
  a_wall : Reason
  a_closed_door : Reason
  scenery : String → Reason

unfoldable pub grid_key : ℤ → ℤ → String
grid_key x y = format_pair x y

-- The sums wrap around, as int32 sums do.
unfoldable pub covers : SceneObject → ℤ → ℤ → Bool
covers o x y = leb_ℤ o.x x && ltb_ℤ x (o.x +₃₂ o.width) && leb_ℤ o.y y && ltb_ℤ y (o.y +₃₂ o.height)

-- The kind of the tile at a key, "" where there is none.
abbrev tile_kind : Option Tile → String
tile_kind none = ""
tile_kind (some t) = t.kind

unfoldable pub kind_at : Scene → ℤ → ℤ → String
unfolding grid_key
kind_at sc x y = tile_kind (get (or_empty sc.tiles) (grid_key x y))

-- The loop over the objects: the first that blocks movement and covers the square.
unfoldable pub blocking_object : List SceneObject → ℤ → ℤ → Option Reason
unfolding covers
blocking_object [] x y = none
blocking_object (o ∷ rest) x y =
    if o.blocks_move && covers o x y then some (scenery o.kind) else blocking_object rest x y

unfoldable pub blocked_in : Scene → ℤ → ℤ → Option Reason
unfolding kind_at blocking_object flag
blocked_in sc x y =
    if ltb_ℤ x (pos 0) || ltb_ℤ y (pos 0) || leb_ℤ sc.grid_width x || leb_ℤ sc.grid_height y
    then some outside_the_grid
    else if kind_at sc x y == "wall"
    then some a_wall
    else if kind_at sc x y == "door" && not (flag sc.open_doors (grid_key x y))
    then some a_closed_door
    else blocking_object sc.objects x y

-- Blocked: `none` is (false, "").
unfoldable pub blocked : State → String → ℤ → ℤ → Option Reason
unfolding blocked_in
blocked st scene_id x y = elim (get st.scenes scene_id) [
  | none ↦ some (unknown_scene scene_id)
  | some sc ↦ blocked_in sc x y
]

-- An unknown scene is Go's zero Scene, which has no tiles.
unfoldable pub is_door : State → String → ℤ → ℤ → Bool
unfolding kind_at
is_door st scene_id x y = elim (get st.scenes scene_id) [
  | none ↦ false
  | some sc ↦ kind_at sc x y == "door"
]

abbrev is_party_kind : ActorKind → Bool
is_party_kind kind_unspecified = false
is_party_kind party_member = true
is_party_kind non_party = false

-- A nil actor has no kind.
unfoldable pub is_party_member : Option Actor → Bool
is_party_member none = false
is_party_member (some a) = is_party_kind a.kind
