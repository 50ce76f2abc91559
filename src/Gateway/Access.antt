-- ===== src/Gateway/Access.antt =====
-- What Authorize lets through.
use vtt_platform.Prelude.{
  ◌≡◌, refl, Bool, true, false, not, Option, none, some, ◌==◌, is_some, if◌then◌else◌,
}
use vtt_platform.Contract.Command.{ClientCommand, no_command}
use vtt_platform.Go.GoMap.{lookup}
use vtt_platform.Identity.{Participant, player, spectator}
use vtt_platform.Engine.State.{State}
use vtt_platform.Gateway.Denial.{Denial}
use vtt_platform.Gateway.Roles.{command_name, may_issue}
use vtt_platform.Gateway.Rules.{authorize, player_rules}

after_guard :
    (b : Bool) (e : Denial) (o : Option Denial) → (if not b then some e else o) ≡ none → b ≡ true
after_guard true e o h = refl
after_guard false e o h = cc

-- A command that Authorize lets through is in the column of the participant's role in the role
-- table.
pub authorize-may_issue :
    (p : Participant) (cmd : ClientCommand) (st : State)
    → authorize p cmd st ≡ none
    → may_issue p.role (command_name cmd) ≡ true
unfolding authorize
authorize-may_issue p cmd st h = after_guard (may_issue p.role (command_name cmd)) _ _ h

pub spectator_column :
    (cmd : ClientCommand)
    → may_issue spectator (command_name cmd) ≡ (command_name cmd == "set_viewpoint")
unfolding may_issue command_name
spectator_column no_command = refl
spectator_column _ = refl

-- The commands in a player's column of the role table are exactly those that the table of player
-- rules decides.
pub player_column :
    (cmd : ClientCommand)
    → may_issue player (command_name cmd) ≡ is_some (lookup (command_name cmd) player_rules)
unfolding may_issue command_name player_rules lookup
player_column no_command = refl
player_column _ = refl
