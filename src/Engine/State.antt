-- ===== src/Engine/State.antt =====
-- internal/engine/state.go. An `Option` of a map is a Go map that may be nil. Actors are held by
-- value: the state owns its actors (they are cloned on the way in and on the way out).
use vtt_platform.Prelude.{
  ℕ, suc, String, Bool, false, Option, none, some, List, [], ◌∷◌, if◌then◌else◌,
}
use vtt_platform.Prelude.Int.{ℤ, pos, eq_ℤ}
use vtt_platform.Go.GoMap.{Map, get}
use vtt_platform.Go.GoMap
use vtt_platform.Contract.Event.{Actor, NoteVisibility}

pub record Tile : Type 0 where
  pub kind : String
  pub material : String
  pub art : String

pub record SceneObject : Type 0 where
  pub object_id : String
  pub kind : String
  pub x : ℤ
  pub y : ℤ
  pub width : ℤ
  pub height : ℤ
  pub rotation_degrees : ℤ
  pub blocks_sight : Bool
  pub blocks_move : Bool
  pub art : String

pub record Scene : Type 0 where
  pub id : String
  pub name : String
  pub grid_width : ℤ
  pub grid_height : ℤ
  pub tiles : Option (Map Tile)
  pub objects : List SceneObject
  pub open_doors : Option (Map Bool)
  pub explored : Option (Map Bool)
  pub visible : Option (Map Bool)

pub record Token : Type 0 where
  pub id : String
  pub scene_id : String
  pub actor_id : String
  pub x : ℤ
  pub y : ℤ
  pub name : String
  pub notes : String
  pub gm_name : String
  pub gm_notes : String

pub record Session : Type 0 where
  pub id : String
  pub name : String
  pub start_seq : ℤ
  pub end_seq : ℤ

pub record ActorCondition : Type 0 where
  pub id : String
  pub source : String
  pub applied_seq : ℤ

pub record Note : Type 0 where
  pub title : String
  pub text : String
  pub updated_seq : ℤ
  pub visibility : NoteVisibility

pub record State : Type 0 where
  pub scenes : Map Scene
  pub actors : Map Actor
  pub tokens : Map Token
  pub sessions : List Session
  pub conditions : Map (List ActorCondition)
  pub notes : Map Note

abbrev pub new_state : State
new_state = record {
  scenes = GoMap.empty;
  actors = GoMap.empty;
  tokens = GoMap.empty;
  sessions = [];
  conditions = GoMap.empty;
  notes = GoMap.empty;
}

-- A nil map reads as an empty one.
abbrev pub or_empty {ℓ} : {V : Type ℓ} → Option (Map V) → Map V
or_empty none = GoMap.empty
or_empty (some m) = m

-- m[k] of a map of bools: false where there is no key.
abbrev pub flag_of : Option Bool → Bool
flag_of none = false
flag_of (some b) = b

unfoldable pub flag : Option (Map Bool) → String → Bool
flag m k = flag_of (get (or_empty m) k)

-- st.Conditions[id]: no conditions where there is no key.
abbrev pub list_of {ℓ} : {A : Type ℓ} → Option (List A) → List A
list_of none = []
list_of (some l) = l

unfoldable pub conditions_of : State → String → List ActorCondition
conditions_of st id = list_of (get st.conditions id)

-- The copy of one scene: nil tiles and doors come out as empty maps, nil explored and visible as nil.
unfoldable pub copy_scene : Scene → Scene
copy_scene v = record v {
  tiles = some (or_empty v.tiles);
  open_doors = some (or_empty v.open_doors);
}

unfoldable pub snapshot : State → State
unfolding copy_scene
snapshot st = record st { scenes = GoMap.map_values copy_scene st.scenes }

-- The index of the open session; `none` is Go's -1.
unfoldable pub open_index : ℕ → List Session → Option ℕ
open_index i [] = none
open_index i (s ∷ rest) = if eq_ℤ s.end_seq (pos 0) then some i else open_index (suc i) rest

unfoldable pub open_session : State → Option ℕ
unfolding open_index
open_session st = open_index 0 st.sessions
