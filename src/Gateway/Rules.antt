-- ===== src/Gateway/Rules.antt =====
-- The rules of internal/gateway/authz.go that decide a command past the role table.
use vtt_platform.Prelude.{
  String, Bool, true, false, not, ◌&&◌, ◌||◌, Option, none, some, List, [], ◌∷◌, ◌==◌,
  if◌then◌else◌,
}
use vtt_platform.Prelude.Int.{ℤ, pos, ltb_ℤ, leb_ℤ, ◌-₃₂◌}
use vtt_platform.Contract.Event.{Actor}
use vtt_platform.Contract.Command.{
  ClientCommand, move_token, use_ability, remove_condition, add_narration, add_whisper,
  revoke_actor_control, promote_participant, open_door, close_door, set_viewpoint, MoveToken,
  WorkDoor, AddNarration, AddWhisper, RevokeActorControl,
}
use vtt_platform.Go.GoMap.{Map, get, lookup}
use vtt_platform.Identity.{Role, Participant, player}
use vtt_platform.Engine.State.{State, Token}
use vtt_platform.Engine.Terrain.{is_party_member}
use vtt_platform.Engine.Apply.Scenes.{x_of, y_of}
use vtt_platform.Gateway.Denial.{
  Denial, may_not_issue, undecided, promotes_too_far, ooc_names_actor, speaker_by_as,
  voices_own_only, voice_has_no_name, whispers_from_none, whisper_without_hearers,
  heard_by_party_only, player_whispers_dm_only, whispers_from_own_only, whisperer_has_no_name,
  no_adjacent_token, unknown_token, token_not_controlled, actor_not_controlled, revokes_own_only,
}
use vtt_platform.Gateway.Roles.{command_name, may_issue}
use vtt_platform.Gateway.Viewpoint.{controls, own_party_member, may_watch}

-- The generated getters: the zero message on another command.
abbrev pub get_move_token : ClientCommand → MoveToken
get_move_token (move_token m) = m
get_move_token _ = record { token_id = ""; to = none; reason = none }

abbrev pub get_ability_actor : ClientCommand → String
get_ability_actor (use_ability u) = u.actor_id
get_ability_actor _ = ""

abbrev pub get_condition_actor : ClientCommand → String
get_condition_actor (remove_condition r) = r.actor_id
get_condition_actor _ = ""

abbrev pub get_narration : ClientCommand → AddNarration
get_narration (add_narration n) = n
get_narration _ = record {
  text = "";
  speaks_as = "";
  anchor_from_seq = pos 0;
  anchor_to_seq = pos 0;
  actor_id = "";
  out_of_character = false;
}

abbrev pub get_whisper : ClientCommand → AddWhisper
get_whisper (add_whisper w) = w
get_whisper _ = record { text = ""; to_actor_ids = []; from_actor_id = "" }

abbrev pub get_revoke : ClientCommand → RevokeActorControl
get_revoke (revoke_actor_control r) = r
get_revoke _ = record { actor_id = ""; participant_id = "" }

abbrev pub get_promote_role : ClientCommand → String
get_promote_role (promote_participant q) = q.role
get_promote_role _ = ""

abbrev pub get_open_door : ClientCommand → WorkDoor
get_open_door (open_door d) = d
get_open_door _ = record { scene_id = ""; at = none }

abbrev pub get_close_door : ClientCommand → WorkDoor
get_close_door (close_door d) = d
get_close_door _ = record { scene_id = ""; at = none }

abbrev pub get_viewpoint : ClientCommand → String
get_viewpoint (set_viewpoint id) = id
get_viewpoint _ = ""

abbrev pub named : Option Actor → Bool
named none = false
named (some a) = not (a.name == "")

-- The in-character half of mayVoice, for a player.
unfoldable pub may_voice_as : Option Actor → String → Option Denial
may_voice_as a pid =
    if not (own_party_member a pid)
    then some voices_own_only
    else if not (named a)
    then some voice_has_no_name
    else none

unfoldable pub may_voice_in : Role → String → String → Map Actor → Option Denial
unfolding may_voice_as
may_voice_in player pid actor_id actors = may_voice_as (get actors actor_id) pid
may_voice_in r pid actor_id actors = if not (actor_id == "") then some (speaker_by_as r) else none

unfoldable pub may_voice : Participant → AddNarration → Map Actor → Option Denial
unfolding may_voice_in
may_voice p na actors =
    if na.out_of_character
    then (if not (na.actor_id == "") then some ooc_names_actor else none)
    else may_voice_in p.role p.id na.actor_id actors

-- The loop over the hearers.
unfoldable pub all_party : Map Actor → List String → Bool
unfolding is_party_member
all_party actors [] = true
all_party actors (id ∷ rest) = is_party_member (get actors id) && all_party actors rest

abbrev pub any_hearer : List String → Bool
any_hearer [] = false
any_hearer (id ∷ rest) = true

-- mayWhisper for the DM, the agent and a spectator.
unfoldable pub whispers_as_staff : Role → AddWhisper → Map Actor → Option Denial
unfolding all_party
whispers_as_staff r w actors =
    if not (w.from_actor_id == "")
    then some (whispers_from_none r)
    else if not (any_hearer w.to_actor_ids)
    then some whisper_without_hearers
    else if not (all_party actors w.to_actor_ids)
    then some heard_by_party_only
    else none

unfoldable pub whispers_as_player : String → AddWhisper → Map Actor → Option Denial
whispers_as_player pid w actors =
    if any_hearer w.to_actor_ids
    then some player_whispers_dm_only
    else if not (own_party_member (get actors w.from_actor_id) pid)
    then some whispers_from_own_only
    else if not (named (get actors w.from_actor_id))
    then some whisperer_has_no_name
    else none

unfoldable pub may_whisper_in : Role → String → AddWhisper → Map Actor → Option Denial
unfolding whispers_as_staff whispers_as_player
may_whisper_in player pid w actors = whispers_as_player pid w actors
may_whisper_in r pid w actors = whispers_as_staff r w actors

unfoldable pub may_whisper : Participant → AddWhisper → Map Actor → Option Denial
unfolding may_whisper_in
may_whisper p w actors = may_whisper_in p.role p.id w actors

-- abs on int32: the least int32 is its own negation.
unfoldable pub abs : ℤ → ℤ
abs n = if ltb_ℤ n (pos 0) then pos 0 -₃₂ n else n

abbrev pub controls_option : Option Actor → String → Bool
controls_option none pid = false
controls_option (some a) pid = controls a pid

-- The test of the loop of mayWorkDoor on one token.
unfoldable pub reaches : String → Map Actor → String → ℤ → ℤ → Token → Bool
unfolding controls abs
reaches pid actors scene_id x y tok =
    tok.scene_id == scene_id
    && controls_option (get actors tok.actor_id) pid
    && leb_ℤ (abs (tok.x -₃₂ x)) (pos 1)
    && leb_ℤ (abs (tok.y -₃₂ y)) (pos 1)

unfoldable pub any_reaches : String → Map Actor → String → ℤ → ℤ → List (String × Token) → Bool
unfolding reaches
any_reaches pid actors scene_id x y [] = false
any_reaches pid actors scene_id x y ((id, tok) ∷ rest) =
    reaches pid actors scene_id x y tok || any_reaches pid actors scene_id x y rest

abbrev pub is_player : Role → Bool
is_player player = true
is_player _ = false

unfoldable pub may_work_door : Participant → State → WorkDoor → Option Denial
unfolding any_reaches
may_work_door p st d =
    if not (is_player p.role)
    then none
    else if any_reaches p.id st.actors d.scene_id (x_of d.at) (y_of d.at) st.tokens.entries
    then none
    else some (no_adjacent_token p.id)

unfoldable pub authorize_token_ownership : Participant → MoveToken → State → Option Denial
unfolding controls
authorize_token_ownership p req st = elim (get st.tokens req.token_id) [
  | none ↦ some (unknown_token req.token_id)
  | some tok ↦
      if controls_option (get st.actors tok.actor_id) p.id
      then none
      else some (token_not_controlled req.token_id p.id)
]

unfoldable pub authorize_actor_ownership : Participant → String → State → Option Denial
unfolding controls
authorize_actor_ownership p actor_id st =
    if controls_option (get st.actors actor_id) p.id
    then none
    else some (actor_not_controlled actor_id p.id)

unfoldable pub authorize_self_revoke : Participant → RevokeActorControl → State → Option Denial
unfolding authorize_actor_ownership
authorize_self_revoke p req st =
    if not (req.participant_id == p.id)
    then some (revokes_own_only p.id req.participant_id)
    else authorize_actor_ownership p req.actor_id st

unfoldable pub authorize_promotion_target : String → Option Denial
authorize_promotion_target role =
    if role == "player" || role == "spectator" then none else some (promotes_too_far role)

abbrev pub PlayerRule : Type 0
PlayerRule = Participant → ClientCommand → State → Option Denial

abbrev pub unrestricted : PlayerRule
unrestricted p cmd st = none

unfoldable pub player_rules : List (String × PlayerRule)
unfolding authorize_token_ownership authorize_self_revoke may_work_door
player_rules =
    ("move_token", λ p cmd st. authorize_token_ownership p (get_move_token cmd) st)
    ∷ ("use_ability", λ p cmd st. authorize_actor_ownership p (get_ability_actor cmd) st)
    ∷ ("remove_condition", λ p cmd st. authorize_actor_ownership p (get_condition_actor cmd) st)
    ∷ ("revoke_actor_control", λ p cmd st. authorize_self_revoke p (get_revoke cmd) st)
    ∷ ("open_door", λ p cmd st. may_work_door p st (get_open_door cmd))
    ∷ ("close_door", λ p cmd st. may_work_door p st (get_close_door cmd))
    ∷ ("add_narration", unrestricted)
    ∷ ("add_whisper", unrestricted)
    ∷ ("set_viewpoint", unrestricted)
    ∷ []

unfoldable pub authorize_player : Participant → ClientCommand → State → String → Option Denial
unfolding player_rules lookup
authorize_player p cmd st name = elim (lookup name player_rules) [
  | none ↦ some (undecided p.role name)
  | some rule ↦ rule p cmd st
]

-- if err := check; err != nil { return err }, where the check is made for one command.
abbrev pub or_next : Bool → Option Denial → Option Denial → Option Denial
or_next false check next = next
or_next true none next = next
or_next true (some e) next = some e

-- Authorize: `none` is nil.
unfoldable pub authorize : Participant → ClientCommand → State → Option Denial
unfolding command_name may_issue authorize_promotion_target may_watch may_voice may_whisper
    authorize_player
authorize p cmd st =
    let name = command_name cmd in
    if not (may_issue p.role name)
    then some (may_not_issue p.role name)
    else or_next (name == "promote_participant") (authorize_promotion_target (get_promote_role cmd))
        (or_next (name == "set_viewpoint") (may_watch p (get_viewpoint cmd) st.actors) (
          or_next (name == "add_narration") (may_voice p (get_narration cmd) st.actors) (
            or_next (name == "add_whisper") (may_whisper p (get_whisper cmd) st.actors)
              (if not (is_player p.role) then none else authorize_player p cmd st name))))
