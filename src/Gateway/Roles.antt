-- ===== src/Gateway/Roles.antt =====
-- commandRoles and commandName of internal/gateway/authz.go.
use vtt_platform.Prelude.{String, Bool, true, false, Option, none, some, List, [], ◌∷◌}
use vtt_platform.Contract.Command.{
  ClientCommand, no_command, move_token, use_ability, remove_condition, add_narration, add_whisper,
  revoke_actor_control, promote_participant, open_door, close_door, set_viewpoint, add_actor,
  place_token, describe_token, remove_token, remove_actor, start_session, end_session, upsert_note,
  delete_note, load_adventure, load_map, grant_actor_control, remove_participant, set_join_door,
  rotate_join_link,
}
use vtt_platform.Go.GoMap.{lookup}
use vtt_platform.Identity.{Role, dm, agent, player, spectator}

unfoldable pub command_name : ClientCommand → String
command_name no_command = ""
command_name (move_token m) = "move_token"
command_name (use_ability a) = "use_ability"
command_name (remove_condition a) = "remove_condition"
command_name (add_narration n) = "add_narration"
command_name (add_whisper w) = "add_whisper"
command_name (revoke_actor_control r) = "revoke_actor_control"
command_name (promote_participant q) = "promote_participant"
command_name (open_door d) = "open_door"
command_name (close_door d) = "close_door"
command_name (set_viewpoint a) = "set_viewpoint"
command_name (add_actor x) = "add_actor"
command_name (place_token x) = "place_token"
command_name (describe_token x) = "describe_token"
command_name (remove_token x) = "remove_token"
command_name (remove_actor x) = "remove_actor"
command_name (start_session x) = "start_session"
command_name end_session = "end_session"
command_name (upsert_note x) = "upsert_note"
command_name (delete_note x) = "delete_note"
command_name (load_adventure x) = "load_adventure"
command_name (load_map x) = "load_map"
command_name (grant_actor_control x) = "grant_actor_control"
command_name remove_participant = "remove_participant"
command_name set_join_door = "set_join_door"
command_name rotate_join_link = "rotate_join_link"

-- One row of the role table: the cells of the four roles.
pub record Cells : Type 0 where
  pub of_dm : Bool
  pub of_agent : Bool
  pub of_player : Bool
  pub of_spectator : Bool

abbrev staff : Cells
staff = record { of_dm = true; of_agent = true; of_player = false; of_spectator = false }

abbrev table : Cells
table = record { of_dm = true; of_agent = true; of_player = true; of_spectator = false }

abbrev watchers : Cells
watchers = record { of_dm = false; of_agent = false; of_player = true; of_spectator = true }

unfoldable pub command_roles : List (String × Cells)
command_roles =
    ("move_token", table)
    ∷ ("add_actor", staff)
    ∷ ("place_token", staff)
    ∷ ("describe_token", staff)
    ∷ ("remove_token", staff)
    ∷ ("remove_actor", staff)
    ∷ ("start_session", staff)
    ∷ ("end_session", staff)
    ∷ ("use_ability", table)
    ∷ ("remove_condition", table)
    ∷ ("add_narration", table)
    ∷ ("add_whisper", table)
    ∷ ("upsert_note", staff)
    ∷ ("delete_note", staff)
    ∷ ("load_adventure", staff)
    ∷ ("load_map", staff)
    ∷ ("grant_actor_control", staff)
    ∷ ("revoke_actor_control", table)
    ∷ ("promote_participant", staff)
    ∷ ("remove_participant", staff)
    ∷ ("set_join_door", staff)
    ∷ ("rotate_join_link", staff)
    ∷ ("open_door", table)
    ∷ ("close_door", table)
    ∷ ("set_viewpoint", watchers)
    ∷ []

unfoldable pub cell : Cells → Role → Bool
cell c dm = c.of_dm
cell c agent = c.of_agent
cell c player = c.of_player
cell c spectator = c.of_spectator

abbrev cell_of : Role → Option Cells → Bool
cell_of r none = false
cell_of r (some c) = cell c r

-- known && roles[role]
unfoldable pub may_issue : Role → String → Bool
unfolding command_roles cell lookup
may_issue r name = cell_of r (lookup name command_roles)
