-- ===== src/Gateway/Convert.antt =====
-- internal/gateway/convert.go, and the validators of note_validate.go, grant_validate.go and
-- add_actor_validate.go. The time of an envelope is left out.
use vtt_platform.Prelude.{
  String, Bool, true, false, not, ◌||◌, Option, none, some, List, [], ◌∷◌, ◌==◌, if◌then◌else◌,
}
use vtt_platform.Prelude.Int.{pos}
use vtt_platform.Contract.Event.{
  Actor, ActorKind, kind_unspecified, NoteVisibility, visibility_unspecified, Envelope, Payload,
  NarrationAdded, TokenMoved, session_started, session_ended, actor_added, actor_control_granted,
  actor_control_revoked, token_placed, token_described, token_moved, token_removed, door_opened,
  door_closed, condition_removed, narration_added, whisper_added, note_upserted, note_deleted,
}
use vtt_platform.Contract.Command.{
  ClientCommand, move_token, remove_condition, add_narration, add_whisper, revoke_actor_control,
  open_door, close_door, add_actor, place_token, describe_token, remove_token, start_session,
  end_session, upsert_note, delete_note, grant_actor_control, UpsertNote, GrantActorControl,
}
use vtt_platform.Go.GoMap.{get}
use vtt_platform.Identity.{Participant, role_text}
use vtt_platform.Engine.State.{State}
use vtt_platform.Gateway.Rules.{get_narration, is_player}

abbrev pub text_or_empty : Option String → String
text_or_empty none = ""
text_or_empty (some s) = s

-- The switch of ToEvent; `none` is a command that does not convert.
unfoldable pub event_payload : ClientCommand → Option Payload
event_payload (move_token m) = some (
    token_moved (record {
      token_id = m.token_id;
      scene_id = "";
      from = none;
      to = m.to;
      reason = text_or_empty m.reason;
    }))
event_payload (add_actor a) = some (actor_added a)
event_payload (place_token t) = some (
    token_placed (record {
      token_id = t.token_id;
      scene_id = t.scene_id;
      actor_id = t.actor_id;
      position = t.position;
      name = t.name;
      notes = t.notes;
      gm_name = t.gm_name;
      gm_notes = t.gm_notes;
    }))
event_payload (describe_token t) = some (
    token_described (record {
      token_id = t.token_id;
      name = t.name;
      notes = t.notes;
      gm_name = t.gm_name;
      gm_notes = t.gm_notes;
    }))
event_payload (remove_token id) = some (token_removed id)
event_payload (start_session name) = some (session_started name)
event_payload end_session = some session_ended
event_payload (remove_condition r) = some (
    condition_removed
      (record { actor_id = r.actor_id; condition_id = r.condition_id; reason = "manual" }))
event_payload (add_narration n) = some (
    narration_added (record {
      text = n.text;
      speaks_as = n.speaks_as;
      anchor_from_seq = n.anchor_from_seq;
      anchor_to_seq = n.anchor_to_seq;
      out_of_character = n.out_of_character;
    }))
event_payload (add_whisper w) = some (
    whisper_added
      (record { text = w.text; to_actor_ids = w.to_actor_ids; from_actor_id = w.from_actor_id }))
event_payload (upsert_note n) = some (
    note_upserted
      (record { key = n.key; title = n.title; text = n.text; visibility = n.visibility }))
event_payload (delete_note key) = some (note_deleted key)
event_payload (grant_actor_control g) = some (
    actor_control_granted
      (record { actor_id = g.actor_id; participant_id = g.participant_id; kind = g.kind }))
event_payload (revoke_actor_control r) =
    some
      (actor_control_revoked (record { actor_id = r.actor_id; participant_id = r.participant_id }))
event_payload (open_door d) = some (door_opened (record { scene_id = d.scene_id; at = d.at }))
event_payload (close_door d) = some (door_closed (record { scene_id = d.scene_id; at = d.at }))
event_payload _ = none

-- An envelope of a participant, as it is before it is appended.
abbrev pub envelope_of : String → Participant → Payload → Envelope
envelope_of event_id p payload = record {
  event_id = event_id;
  sequence = pos 0;
  session_id = "";
  actor_role = role_text p.role;
  participant_id = p.id;
  payload = payload;
}

abbrev name_or_empty : Option Actor → String
name_or_empty none = ""
name_or_empty (some a) = a.name

unfoldable pub voiced : NarrationAdded → ClientCommand → Participant → State → NarrationAdded
voiced n cmd p st =
    if n.out_of_character
    then record n { speaks_as = p.name }
    else if is_player p.role
    then record n { speaks_as = name_or_empty (get st.actors (get_narration cmd).actor_id) }
    else n

unfoldable pub voice : Payload → ClientCommand → Participant → State → Payload
unfolding voiced
voice (narration_added n) cmd p st = narration_added (voiced n cmd p st)
voice payload cmd p st = payload

-- The backfill of a move in handleCommand of internal/gateway/server.go.
unfoldable pub with_origin : TokenMoved → State → TokenMoved
with_origin tm st = elim (get st.tokens tm.token_id) [
  | none ↦ tm
  | some tok ↦ record tm { scene_id = tok.scene_id; from = some (record { x = tok.x; y = tok.y }) }
]

unfoldable pub backfill : Payload → State → Payload
unfolding with_origin
backfill (token_moved tm) st = token_moved (with_origin tm st)
backfill payload st = payload

abbrev unspecified_kind : ActorKind → Bool
unspecified_kind kind_unspecified = true
unspecified_kind _ = false

abbrev unspecified_visibility : NoteVisibility → Bool
unspecified_visibility visibility_unspecified = true
unspecified_visibility _ = false

abbrev any_id : List String → Bool
any_id [] = false
any_id (id ∷ rest) = true

-- Why a command's form is refused.
pub data BadForm : Type 0 where
  note_without_visibility grant_without_kind actor_with_controller actor_without_kind : BadForm

unfoldable pub validate_upsert_note : UpsertNote → Option BadForm
validate_upsert_note n =
    if unspecified_visibility n.visibility then some note_without_visibility else none

unfoldable pub validate_grant_actor_control : GrantActorControl → Option BadForm
validate_grant_actor_control g = if unspecified_kind g.kind then some grant_without_kind else none

unfoldable pub validate_actor : Actor → Option BadForm
validate_actor a =
    if not (a.controller_id == "") || any_id a.controller_ids
    then some actor_with_controller
    else if a.actor_id == ""
    then none
    else if unspecified_kind a.kind
    then some actor_without_kind
    else none

-- A nil actor reads as an empty one.
unfoldable pub validate_add_actor : Option Actor → Option BadForm
unfolding validate_actor
validate_add_actor none = none
validate_add_actor (some a) = validate_actor a

-- The three validators of handleCommand.
unfoldable pub validate_form : ClientCommand → Option BadForm
unfolding validate_upsert_note validate_grant_actor_control validate_add_actor
validate_form (grant_actor_control g) = validate_grant_actor_control g
validate_form (add_actor a) = validate_add_actor a
validate_form (upsert_note n) = validate_upsert_note n
validate_form _ = none
