-- ===== src/Gateway/ByCommand.antt =====
-- Authorize of internal/gateway/authz.go beside a description that goes by the command itself, with no
-- names and no tables.
use vtt_platform.Prelude.{String, ◌≡◌, refl, Bool, true, false, Option, none, some, if◌then◌else◌}
use vtt_platform.Contract.Command.{
  ClientCommand, no_command, move_token, use_ability, remove_condition, add_narration, add_whisper,
  revoke_actor_control, promote_participant, open_door, close_door, set_viewpoint,
}
use vtt_platform.Go.GoMap.{lookup}
use vtt_platform.Identity.{Role, Participant, dm, agent, player, spectator}
use vtt_platform.Engine.State.{State}
use vtt_platform.Gateway.Denial.{Denial, may_not_issue}
use vtt_platform.Gateway.Roles.{command_name, may_issue}
use vtt_platform.Gateway.Viewpoint.{may_watch}
use vtt_platform.Gateway.Rules.{
  authorize, authorize_player, player_rules, authorize_token_ownership, authorize_actor_ownership,
  authorize_self_revoke, authorize_promotion_target, may_work_door, may_voice, may_whisper, or_next,
  is_player,
}

-- What a player may issue at all.
abbrev pub is_player_command : ClientCommand → Bool
is_player_command (move_token m) = true
is_player_command (use_ability u) = true
is_player_command (remove_condition r) = true
is_player_command (add_narration n) = true
is_player_command (add_whisper w) = true
is_player_command (revoke_actor_control r) = true
is_player_command (open_door d) = true
is_player_command (close_door d) = true
is_player_command (set_viewpoint id) = true
is_player_command _ = false

abbrev pub is_watching : ClientCommand → Bool
is_watching (set_viewpoint id) = true
is_watching _ = false

-- The DM and the agent: every command but that of a watcher.
abbrev pub is_staff_command : ClientCommand → Bool
is_staff_command no_command = false
is_staff_command (set_viewpoint id) = false
is_staff_command _ = true

abbrev pub is_open_to : Role → ClientCommand → Bool
is_open_to dm cmd = is_staff_command cmd
is_open_to agent cmd = is_staff_command cmd
is_open_to player cmd = is_player_command cmd
is_open_to spectator cmd = is_watching cmd

-- What is checked of a player's command alone.
abbrev pub player_check : Participant → ClientCommand → State → Option Denial
player_check p (move_token m) st = authorize_token_ownership p m st
player_check p (use_ability u) st = authorize_actor_ownership p u.actor_id st
player_check p (remove_condition r) st = authorize_actor_ownership p r.actor_id st
player_check p (revoke_actor_control r) st = authorize_self_revoke p r st
player_check p (open_door d) st = may_work_door p st d
player_check p (close_door d) st = may_work_door p st d
player_check p cmd st = none

-- What is checked of a command whose issuer has a role that it is open to.
abbrev pub check_of : Participant → ClientCommand → State → Option Denial
check_of p (promote_participant q) st = authorize_promotion_target q.role
check_of p (set_viewpoint id) st = may_watch p id st.actors
check_of p (add_narration n) st = may_voice p n st.actors
check_of p (add_whisper w) st = may_whisper p w st.actors
check_of p cmd st = if is_player p.role then player_check p cmd st else none

checked_alone : (o : Option Denial) → or_next true o none ≡ o
checked_alone none = refl
checked_alone (some e) = refl

abbrev ByCommand : Participant → ClientCommand → State → Type 0
ByCommand p cmd st = authorize p cmd st ≡ (
    if is_open_to p.role cmd
    then check_of p cmd st
    else some (may_not_issue p.role (command_name cmd)))

by_dm :
    (id name : String) (cmd : ClientCommand) (st : State)
    → ByCommand (record { id = id; name = name; role = dm }) cmd st
unfolding authorize command_name may_issue lookup
by_dm id name (promote_participant q) st = checked_alone _
by_dm id name (add_narration n) st = checked_alone _
by_dm id name (add_whisper w) st = checked_alone _
by_dm id name no_command st = refl
by_dm id name cmd st = refl

by_agent :
    (id name : String) (cmd : ClientCommand) (st : State)
    → ByCommand (record { id = id; name = name; role = agent }) cmd st
unfolding authorize command_name may_issue lookup
by_agent id name (promote_participant q) st = checked_alone _
by_agent id name (add_narration n) st = checked_alone _
by_agent id name (add_whisper w) st = checked_alone _
by_agent id name no_command st = refl
by_agent id name cmd st = refl

by_player :
    (id name : String) (cmd : ClientCommand) (st : State)
    → ByCommand (record { id = id; name = name; role = player }) cmd st
unfolding authorize command_name may_issue lookup authorize_player player_rules
by_player id name (set_viewpoint a) st = checked_alone _
by_player id name (add_narration n) st = checked_alone _
by_player id name (add_whisper w) st = checked_alone _
by_player id name no_command st = refl
by_player id name cmd st = refl

by_spectator :
    (id name : String) (cmd : ClientCommand) (st : State)
    → ByCommand (record { id = id; name = name; role = spectator }) cmd st
unfolding authorize command_name may_issue lookup
by_spectator id name (set_viewpoint a) st = checked_alone _
by_spectator id name no_command st = refl
by_spectator id name cmd st = refl

by_role :
    (r : Role) (id name : String) (cmd : ClientCommand) (st : State)
    → ByCommand (record { id = id; name = name; role = r }) cmd st
by_role dm id name cmd st = by_dm id name cmd st
by_role agent id name cmd st = by_agent id name cmd st
by_role player id name cmd st = by_player id name cmd st
by_role spectator id name cmd st = by_spectator id name cmd st

-- Authorize, which goes by the names of commands and two tables, answers for every participant and
-- command as the description by command does: a command that is not open to the role is refused as
-- one that the role may not issue; any other is judged by the one check of its command, if it has
-- one, and let through otherwise. No command of a player is left without a rule.
pub authorize_by_command :
    (p : Participant) (cmd : ClientCommand) (st : State)
    → authorize p cmd st ≡ (
        if is_open_to p.role cmd
        then check_of p cmd st
        else some (may_not_issue p.role (command_name cmd)))
authorize_by_command p cmd st = by_role p.role p.id p.name cmd st
