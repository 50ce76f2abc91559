-- ===== src/Engine/Apply/Control.antt =====
-- The ActorControlGranted and ActorControlRevoked arms, with controlTarget and mirrorControl. The
-- code writes through the actor's pointer; here each write puts the changed actor back.
use vtt_platform.Prelude.{
  String, none, some, List, [], ◌∷◌, ◌++◌, ◌==◌, len, ltb, contains, if◌then◌else◌,
}
use vtt_platform.Contract.Event.{
  Actor, ActorKind, kind_unspecified, party_member, non_party, ControlGranted, ControlRevoked,
}
use vtt_platform.Go.GoMap.{get, put}
use vtt_platform.Engine.State.{State}
use vtt_platform.Engine.Apply.Outcome.{
  EngineError, Outcome, refuse, done, no_participant, participant_id_too_long, unknown_actor,
  max_id_bytes,
}

pub data Target : Type 0 where
  found : Actor → Target
  not_found : EngineError → Target

unfoldable pub control_target : State → String → String → Target
control_target st actor_id participant_id =
    if participant_id == ""
    then not_found no_participant
    else if ltb max_id_bytes (len participant_id)
    then not_found participant_id_too_long
    else elim (get st.actors actor_id) [ none ↦ not_found unknown_actor | some a ↦ found a ]

-- The first of the set, "" of none.
abbrev pub first_id : List String → String
first_id [] = ""
first_id (x ∷ xs) = x

unfoldable pub mirror_control : Actor → Actor
mirror_control a = record a { controller_id = first_id a.controller_ids }

-- The kind that a grant leaves: the one it declares, or the old one where it declares none.
abbrev pub declared_kind : ActorKind → ActorKind → ActorKind
declared_kind kind_unspecified old = old
declared_kind party_member old = party_member
declared_kind non_party old = non_party

unfoldable pub granted : Actor → ControlGranted → Actor
unfolding mirror_control
granted actor g =
    let actor' = record actor { kind = declared_kind g.kind actor.kind } in
    if contains actor'.controller_ids g.participant_id
    then actor'
    else mirror_control
        (record actor' { controller_ids = actor'.controller_ids ++ g.participant_id ∷ [] })

unfoldable pub apply_control_granted : State → ControlGranted → Outcome
unfolding granted
apply_control_granted st g = elim (control_target st g.actor_id g.participant_id) [
  | found actor ↦ done (record st { actors = put st.actors g.actor_id (granted actor g) })
  | not_found e ↦ refuse e st
]

-- The loop of the revocation: every id but one.
unfoldable pub kept : String → List String → List String
kept p [] = []
kept p (x ∷ xs) = let rest = kept p xs in if x == p then rest else x ∷ rest

unfoldable pub revoked : Actor → ControlRevoked → Actor
unfolding kept mirror_control
revoked actor r =
    mirror_control (record actor { controller_ids = kept r.participant_id actor.controller_ids })

unfoldable pub apply_control_revoked : State → ControlRevoked → Outcome
unfolding revoked
apply_control_revoked st r = elim (control_target st r.actor_id r.participant_id) [
  | found actor ↦ done (record st { actors = put st.actors r.actor_id (revoked actor r) })
  | not_found e ↦ refuse e st
]
