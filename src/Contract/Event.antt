-- ===== src/Contract/Event.antt =====
-- contract/vtt/v1/events.proto.
use vtt_platform.Prelude.{String, Option, List, Bool}
use vtt_platform.Prelude.Int.{ℤ}
use vtt_platform.Go.GoMap.{Map}

pub record GridPosition : Type 0 where
  pub x : ℤ
  pub y : ℤ

pub record Resource : Type 0 where
  pub current : ℤ
  pub max : ℤ

-- The kinds of this contract; a number of a newer one is left out.
pub data ActorKind : Type 0 where
  kind_unspecified party_member non_party : ActorKind

pub record Actor : Type 0 where
  pub actor_id : String
  pub name : String
  pub module_id : String
  pub attributes : Map ℤ
  pub resources : Map Resource
  pub controller_id : String
  pub controller_ids : List String
  pub kind : ActorKind

pub record TileRef : Type 0 where
  pub kind : String
  pub material : String
  pub art : String

pub record ObjectRef : Type 0 where
  pub object_id : String
  pub kind : String
  pub at : Option GridPosition
  pub width : ℤ
  pub height : ℤ
  pub rotation_degrees : ℤ
  pub blocks_sight : Bool
  pub blocks_move : Bool
  pub art : String

pub data NoteVisibility : Type 0 where
  visibility_unspecified public secret : NoteVisibility

pub record SceneCreated : Type 0 where
  pub scene_id : String
  pub name : String
  pub grid_width : ℤ
  pub grid_height : ℤ
  pub tiles : Map TileRef
  pub objects : List ObjectRef

pub record SceneSeen : Type 0 where
  pub scene_id : String
  pub tiles : Map TileRef
  pub objects : List ObjectRef
  pub visible : List String

pub record ControlGranted : Type 0 where
  pub actor_id : String
  pub participant_id : String
  pub kind : ActorKind

pub record ControlRevoked : Type 0 where
  pub actor_id : String
  pub participant_id : String

pub record TokenPlaced : Type 0 where
  pub token_id : String
  pub scene_id : String
  pub actor_id : String
  pub position : Option GridPosition
  pub name : String
  pub notes : String
  pub gm_name : String
  pub gm_notes : String

pub record TokenDescribed : Type 0 where
  pub token_id : String
  pub name : String
  pub notes : String
  pub gm_name : String
  pub gm_notes : String

pub record TokenMoved : Type 0 where
  pub token_id : String
  pub scene_id : String
  pub from : Option GridPosition
  pub to : Option GridPosition
  pub reason : String

-- DoorOpened and DoorClosed.
pub record DoorAt : Type 0 where
  pub scene_id : String
  pub at : Option GridPosition

pub record ResourceChanged : Type 0 where
  pub actor_id : String
  pub resource : String
  pub delta : ℤ
  pub new_value : ℤ
  pub reason : String

pub record ConditionApplied : Type 0 where
  pub actor_id : String
  pub condition_id : String
  pub source : String

pub record ConditionRemoved : Type 0 where
  pub actor_id : String
  pub condition_id : String
  pub reason : String

-- `speaks_as` is the field `as`.
pub record NarrationAdded : Type 0 where
  pub text : String
  pub speaks_as : String
  pub anchor_from_seq : ℤ
  pub anchor_to_seq : ℤ
  pub out_of_character : Bool

pub record WhisperAdded : Type 0 where
  pub text : String
  pub to_actor_ids : List String
  pub from_actor_id : String

pub record NoteUpserted : Type 0 where
  pub key : String
  pub title : String
  pub text : String
  pub visibility : NoteVisibility

-- `unknown` is a payload that this build has no variant for, or none at all.
pub data Payload : Type 0 where
  unknown : Payload
  session_started : String → Payload
  session_ended : Payload
  scene_created : SceneCreated → Payload
  actor_added : Option Actor → Payload
  actor_control_granted : ControlGranted → Payload
  actor_control_revoked : ControlRevoked → Payload
  token_placed : TokenPlaced → Payload
  token_described : TokenDescribed → Payload
  token_moved : TokenMoved → Payload
  token_removed : String → Payload
  actor_removed : String → Payload
  door_opened : DoorAt → Payload
  door_closed : DoorAt → Payload
  attack_rolled : Payload
  ability_used : String → Payload
  adventure_loaded : String → String → Payload
  resource_changed : ResourceChanged → Payload
  condition_applied : ConditionApplied → Payload
  condition_removed : ConditionRemoved → Payload
  narration_added : NarrationAdded → Payload
  whisper_added : WhisperAdded → Payload
  note_upserted : NoteUpserted → Payload
  note_deleted : String → Payload
  token_hidden : String → Payload
  scene_seen : SceneSeen → Payload

pub record Envelope : Type 0 where
  pub event_id : String
  pub sequence : ℤ
  pub session_id : String
  pub actor_role : String
  pub participant_id : String
  pub payload : Payload
