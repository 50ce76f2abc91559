-- ===== src/Contract/Command.antt =====
-- contract/vtt/v1/commands.proto: the client's commands.
use vtt_platform.Prelude.{String, Option, List, Bool}
use vtt_platform.Prelude.Int.{ℤ}
use vtt_platform.Contract.Event.{GridPosition, Actor, ActorKind, NoteVisibility}

pub record MoveToken : Type 0 where
  pub token_id : String
  pub to : Option GridPosition
  pub reason : Option String

-- OpenDoor and CloseDoor.
pub record WorkDoor : Type 0 where
  pub scene_id : String
  pub at : Option GridPosition

-- `speaks_as` is the field `as`.
pub record AddNarration : Type 0 where
  pub text : String
  pub speaks_as : String
  pub anchor_from_seq : ℤ
  pub anchor_to_seq : ℤ
  pub actor_id : String
  pub out_of_character : Bool

pub record AddWhisper : Type 0 where
  pub text : String
  pub to_actor_ids : List String
  pub from_actor_id : String

pub record RevokeActorControl : Type 0 where
  pub actor_id : String
  pub participant_id : String

pub record PromoteParticipant : Type 0 where
  pub participant_id : String
  pub role : String

pub record UseAbility : Type 0 where
  pub actor_id : String
  pub ability_id : String
  pub target_ids : List String

pub record RemoveCondition : Type 0 where
  pub actor_id : String
  pub condition_id : String

pub record PlaceToken : Type 0 where
  pub token_id : String
  pub scene_id : String
  pub actor_id : String
  pub position : Option GridPosition
  pub name : String
  pub notes : String
  pub gm_name : String
  pub gm_notes : String

pub record DescribeToken : Type 0 where
  pub token_id : String
  pub name : String
  pub notes : String
  pub gm_name : String
  pub gm_notes : String

pub record UpsertNote : Type 0 where
  pub key : String
  pub title : String
  pub text : String
  pub visibility : NoteVisibility

pub record GrantActorControl : Type 0 where
  pub actor_id : String
  pub participant_id : String
  pub kind : ActorKind

-- The oneof of ClientCommand. The commands about the table itself carry nothing here but whom they
-- are about. `no_command` is a frame with none, or with one of a newer contract.
pub data ClientCommand : Type 0 where
  no_command : ClientCommand
  move_token : MoveToken → ClientCommand
  use_ability : UseAbility → ClientCommand
  remove_condition : RemoveCondition → ClientCommand
  add_narration : AddNarration → ClientCommand
  add_whisper : AddWhisper → ClientCommand
  revoke_actor_control : RevokeActorControl → ClientCommand
  promote_participant : PromoteParticipant → ClientCommand
  open_door close_door : WorkDoor → ClientCommand
  set_viewpoint : String → ClientCommand
  add_actor : Option Actor → ClientCommand
  place_token : PlaceToken → ClientCommand
  describe_token : DescribeToken → ClientCommand
  remove_token remove_actor : String → ClientCommand
  start_session delete_note load_adventure load_map : String → ClientCommand
  upsert_note : UpsertNote → ClientCommand
  grant_actor_control : GrantActorControl → ClientCommand
  end_session remove_participant set_join_door rotate_join_link : ClientCommand
