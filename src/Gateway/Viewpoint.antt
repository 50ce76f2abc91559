-- ===== src/Gateway/Viewpoint.antt =====
-- internal/gateway/viewpoint.go, and `controls` of authz.go.
use vtt_platform.Prelude.{
  String, Bool, false, not, ◌&&◌, ◌||◌, Option, none, some, List, [], ◌∷◌, ◌==◌, contains, is_some,
  if◌then◌else◌,
}
use vtt_platform.Contract.Event.{Actor}
use vtt_platform.Go.GoMap.{Map, get}
use vtt_platform.Go.Sort.{sort_by}
use vtt_platform.Identity.{Role, Participant, dm, agent, player, spectator}
use vtt_platform.Engine.Terrain.{is_party_member}
use vtt_platform.Gateway.Denial.{Denial, watches_no_log, watches_own_only, not_watchable}

-- By controller_ids, never by the mirror; the empty id controls nothing.
unfoldable pub controls : Actor → String → Bool
controls actor participant_id =
    if participant_id == "" then false else contains actor.controller_ids participant_id

-- A nil actor has no kind and no controllers.
unfoldable pub own_party_member : Option Actor → String → Bool
unfolding controls is_party_member
own_party_member none participant_id = false
own_party_member (some a) participant_id = is_party_member (some a) && controls a participant_id

unfoldable pub any_own : String → List (String × Actor) → Bool
unfolding own_party_member
any_own pid [] = false
any_own pid ((id, a) ∷ rest) = own_party_member (some a) pid || any_own pid rest

unfoldable pub controls_a_party_member : String → Map Actor → Bool
unfolding any_own
controls_a_party_member pid actors = any_own pid actors.entries

-- The checks of MayWatch below its switch on the role.
unfoldable pub may_watch_as : Bool → String → String → Map Actor → Option Denial
unfolding controls is_party_member
may_watch_as own_only pid actor_id actors =
    if actor_id == ""
    then (if own_only then some watches_own_only else none)
    else elim (get actors actor_id) [
      | none ↦ some (not_watchable actor_id)
      | some a ↦
          if not (is_party_member (some a)) || (own_only && not (controls a pid))
          then some (not_watchable actor_id)
          else none
    ]

unfoldable pub may_watch_in : Role → String → String → Map Actor → Option Denial
unfolding may_watch_as controls_a_party_member
may_watch_in dm pid actor_id actors = some (watches_no_log dm)
may_watch_in agent pid actor_id actors = some (watches_no_log agent)
may_watch_in spectator pid actor_id actors = may_watch_as false pid actor_id actors
may_watch_in player pid actor_id actors =
    may_watch_as (controls_a_party_member pid actors) pid actor_id actors

-- MayWatch: `none` is nil.
unfoldable pub may_watch : Participant → String → Map Actor → Option Denial
unfolding may_watch_in
may_watch p actor_id actors = may_watch_in p.role p.id actor_id actors

-- The loop that collects the ids of p's party members.
unfoldable pub own_ids : String → List (String × Actor) → List String
unfolding own_party_member
own_ids pid [] = []
own_ids pid ((id, a) ∷ rest) =
    let others = own_ids pid rest in if own_party_member (some a) pid then id ∷ others else others

abbrev pub first_or_empty : List String → String
first_or_empty [] = ""
first_or_empty (x ∷ xs) = x

abbrev pub by_itself : String → String
by_itself s = s

unfoldable pub default_in : Role → String → Map Actor → String
unfolding own_ids sort_by
default_in player pid actors = first_or_empty (sort_by by_itself (own_ids pid actors.entries))
default_in _ pid actors = ""

unfoldable pub default_viewpoint : Participant → Map Actor → String
unfolding default_in
default_viewpoint p actors = default_in p.role p.id actors

pub record WatchableActor : Type 0 where
  pub actor_id : String
  pub name : String

pub record WatchableChanged : Type 0 where
  pub actors : List WatchableActor
  pub controls_no_party_member : Bool

-- The loop of watchable over the entries of the map.
unfoldable pub watched : Participant → Map Actor → List (String × Actor) → List WatchableActor
unfolding may_watch
watched p actors [] = []
watched p actors ((id, a) ∷ rest) =
    let others = watched p actors rest in
    if is_some (may_watch p id actors)
    then others
    else record { actor_id = id; name = a.name } ∷ others

abbrev pub actor_key : WatchableActor → String
actor_key w = w.actor_id

unfoldable pub watchable : Participant → Map Actor → WatchableChanged
unfolding watched sort_by controls_a_party_member
watchable p actors = record {
  actors = sort_by actor_key (watched p actors actors.entries);
  controls_no_party_member = not (controls_a_party_member p.id actors);
}
