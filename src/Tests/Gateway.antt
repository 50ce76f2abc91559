-- ===== src/Tests/Gateway.antt =====
-- The gateway's theorems at concrete inputs.
use vtt_platform.Prelude.{
  nat_eq, String, if◌then◌else◌, ◌≡◌, ◌↔◌, ◌⊎◌, refl, true, false, not, ◌&&◌, ◌||◌, none, some,
  ◌==◌, is_some, arith,
}
use vtt_platform.Prelude.Int.{pos}
use vtt_platform.Contract.Event.{
  kind_unspecified, ControlGranted, ControlRevoked, Envelope, actor_control_revoked,
}
use vtt_platform.Contract.Command.{
  move_token, set_viewpoint, MoveToken, RevokeActorControl, PromoteParticipant,
}
use vtt_platform.Go.GoMap.{get, lookup}
use vtt_platform.Go.Text.{str_lt}
use vtt_platform.Go.Sort.{IsSortedBy, has_key}
use vtt_platform.Identity.{player, spectator, parse_role}
use vtt_platform.Engine.State.{Token}
use vtt_platform.Engine.Apply.Control.{apply_control_granted, apply_control_revoked, control_target}
use vtt_platform.Engine.Terrain.{is_party_member}
use vtt_platform.Gateway.Roles.{command_name, may_issue, command_roles, cell}
use vtt_platform.Gateway.Viewpoint.{
  controls, own_party_member, default_viewpoint, watchable, actor_key, may_watch, may_watch_as,
  may_watch_in,
}
use vtt_platform.Gateway.Rules.{
  authorize, authorize_player, player_rules, authorize_actor_ownership, authorize_self_revoke,
  authorize_promotion_target, controls_option, reaches,
}
use vtt_platform.Gateway.Denial.{may_not_issue}
use vtt_platform.Gateway.ByCommand.{is_open_to, check_of, authorize_by_command}
use vtt_platform.Gateway.Revoking.{player_revokes_own}
use vtt_platform.Gateway.Convert.{event_payload}
use vtt_platform.Engine.Apply.Dispatch.{apply}
use vtt_platform.Gateway.Commands.{spectator_only_watches, player_moves_own, promotes_to_table}
use vtt_platform.Gateway.Ownership.{grant-controls, revoke-controls}
use vtt_platform.Gateway.Watching.{default_viewpoint_least, watchable_exact}
use vtt_platform.Gateway.Adjacent.{near, reaches-near}
use vtt_platform.Gateway.Presence.{Conn, Registry, new_registry, join, leave, has_conn, drop_conn}
use vtt_platform.Gateway.Counting.{IsCounted, tally, conn_of, join-IsCounted, leave-IsCounted}
use vtt_platform.Tests.Data.{hero_token, table, ann, watcher, master, event}

abbrev step : MoveToken
step = record { token_id = "t1"; to = none; reason = none }

authorize_by_command_example : authorize ann (move_token step) table ≡ (
    if is_open_to player (move_token step)
    then check_of ann (move_token step) table
    else some (may_not_issue player (command_name (move_token step))))
authorize_by_command_example = authorize_by_command ann (move_token step) table

spectator_only_watches_example : command_name (set_viewpoint "hero") ≡ "set_viewpoint"
unfolding command_name authorize may_issue command_roles cell lookup may_watch may_watch_in
    may_watch_as get is_party_member
spectator_only_watches_example =
    spectator_only_watches watcher (set_viewpoint "hero") table refl refl

player_moves_own_example :
    (authorize (record { id = "ann"; name = "Ann"; role = player }) (move_token step) table ≡ none)
    ↔ ((tok : Token) × (get table.tokens "t1" ≡ some tok)
        × (controls_option (get table.actors tok.actor_id) "ann" ≡ true))
player_moves_own_example = player_moves_own "ann" "Ann" step table

abbrev raise : PromoteParticipant
raise = record { participant_id = "wim"; role = "player" }

promotes_to_table_example :
    (parse_role "player" ≡ some player) ⊎ (parse_role "player" ≡ some spectator)
unfolding authorize command_name may_issue command_roles cell lookup authorize_promotion_target
promotes_to_table_example = promotes_to_table master raise table refl

abbrev to_bob : ControlGranted
to_bob = record { actor_id = "hero"; participant_id = "bob"; kind = kind_unspecified }

grant-controls_example :
    controls_option (get (apply_control_granted table to_bob).1.actors "hero") "bob"
    ≡ ("hero" == "hero" && "bob" == "bob" || controls_option (get table.actors "hero") "bob")
unfolding apply_control_granted control_target get lookup
grant-controls_example = grant-controls table to_bob "hero" "bob" refl

abbrev from_ann : ControlRevoked
from_ann = record { actor_id = "hero"; participant_id = "ann" }

revoke-controls_example :
    controls_option (get (apply_control_revoked table from_ann).1.actors "hero") "ann"
    ≡ (not ("hero" == "hero" && "ann" == "ann") && controls_option (get table.actors "hero") "ann")
unfolding apply_control_revoked control_target get lookup
revoke-controls_example = revoke-controls table from_ann "hero" "ann" refl

abbrev own_revoke : RevokeActorControl
own_revoke = record { actor_id = "hero"; participant_id = "ann" }

abbrev revocation : Envelope
revocation = event (pos 0) (actor_control_revoked from_ann)

player_revokes_own_example :
    (◌≡◌ {A = String} "ann" "ann")
    × ((apply table revocation).0 ≡ none)
    × (controls_option (get (apply table revocation).1.actors "hero") "ann" ≡ false)
unfolding authorize command_name may_issue command_roles cell authorize_player player_rules
    authorize_self_revoke authorize_actor_ownership get lookup controls event_payload
player_revokes_own_example =
    player_revokes_own "ann" "Ann" own_revoke table revocation refl refl refl

default_viewpoint_least_example :
    (own_party_member (get table.actors (default_viewpoint ann table.actors)) "ann" ≡ true)
    × (str_lt "hero" (default_viewpoint ann table.actors) ≡ false)
unfolding get lookup own_party_member is_party_member controls
default_viewpoint_least_example =
    default_viewpoint_least ann table.actors "hero" refl (refl, (refl, tt)) refl

watchable_exact_example :
    IsSortedBy actor_key (watchable watcher table.actors).actors
    × (has_key actor_key "hero" (watchable watcher table.actors).actors ≡ (
        is_some (get table.actors "hero") && not (is_some (may_watch watcher "hero" table.actors))))
unfolding lookup
watchable_exact_example = watchable_exact watcher table.actors "hero" (refl, (refl, tt))

reaches-near_example : reaches "ann" table.actors "cellar" (pos 2) (pos 1) hero_token ≡ (
    "cellar" == "cellar" && controls_option (get table.actors "hero") "ann" && near 1 2 && near 1 1)
reaches-near_example =
    reaches-near "ann" table.actors "cellar" hero_token 1 1 2 1 refl refl
      (omega arith, omega arith, omega arith, omega arith)

abbrev phone : Conn
phone = record { conn = 1; participant_id = "ann"; display_name = "Ann" }

abbrev laptop : Conn
laptop = record { conn = 2; participant_id = "ann"; display_name = "Ann" }

abbrev one_phone : Registry
one_phone = (join new_registry phone).1

nobody-IsCounted : IsCounted new_registry
unfolding tally get lookup
nobody-IsCounted = record { distinct = tt; counts = λ p. refl }

one_phone-IsCounted : IsCounted one_phone
unfolding has_conn
one_phone-IsCounted = (join-IsCounted new_registry phone nobody-IsCounted refl).0

join-IsCounted_example :
    IsCounted (join one_phone laptop).1
    × ((join one_phone laptop).0 ≡ nat_eq (tally "ann" one_phone.conns) 0)
unfolding has_conn join drop_conn
join-IsCounted_example = join-IsCounted one_phone laptop one_phone-IsCounted refl

leave-IsCounted_example :
    IsCounted (leave one_phone phone).1
    × ((leave one_phone phone).0 ≡ nat_eq (tally "ann" (leave one_phone phone).1.conns) 0)
unfolding conn_of join drop_conn
leave-IsCounted_example = leave-IsCounted one_phone phone one_phone-IsCounted refl
