-- ===== src/Identity.antt =====
-- internal/identity: the roles and the participant.
use vtt_platform.Prelude.{String, Option, none, some, ◌==◌, if◌then◌else◌}

-- The type Role, whose values past ParseRole are the four constants.
pub data Role : Type 0 where
  dm agent player spectator : Role

pub record Participant : Type 0 where
  pub id : String
  pub name : String
  pub role : Role

unfoldable pub role_text : Role → String
role_text dm = "dm"
role_text agent = "agent"
role_text player = "player"
role_text spectator = "spectator"

unfoldable pub parse_role : String → Option Role
parse_role s =
    if s == "dm"
    then some dm
    else if s == "agent"
    then some agent
    else if s == "player"
    then some player
    else if s == "spectator"
    then some spectator
    else none
