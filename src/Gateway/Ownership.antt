-- ===== src/Gateway/Ownership.antt =====
-- Ownership across the two components: the fold grants and revokes, and Authorize reads.
use vtt_platform.Prelude.{
  eq_refl, true, ◌∙◌, refl, String, ◌≡◌, false, not, ◌&&◌, ◌||◌, none, some, [], ◌∷◌, ◌==◌, arith,
  contains-append, len, ltb, Option-cases, inl, inr, eq_iff,
}
use vtt_platform.Contract.Event.{Actor, ControlGranted, ControlRevoked}
use vtt_platform.Contract.Command.{RevokeActorControl}
use vtt_platform.Go.GoMap.{get, put, get-put}
use vtt_platform.Identity.{Participant}
use vtt_platform.Engine.State.{State}
use vtt_platform.Engine.Control.{contains-kept}
use vtt_platform.Engine.Apply.Outcome.{max_id_bytes}
use vtt_platform.Engine.Apply.Control.{
  control_target, granted, revoked, mirror_control, apply_control_granted, apply_control_revoked,
}
use vtt_platform.Gateway.Viewpoint.{controls}
use vtt_platform.Gateway.Rules.{controls_option, authorize_actor_ownership, authorize_self_revoke}

controls-granted :
    (a : Actor) (g : ControlGranted) (k : String)
    → (g.participant_id == "") ≡ false
    → controls (granted a g) k ≡ (g.participant_id == k || controls a k)
unfolding controls granted mirror_control
controls-granted a g k n = ground (
  arith,
  contains-append a.controller_ids (g.participant_id ∷ []) k,
  eq_iff g.participant_id k,
  eq_iff k "",
  eq_iff g.participant_id "",
)

controls-revoked :
    (a : Actor) (r : ControlRevoked) (k : String)
    → controls (revoked a r) k ≡ (not (r.participant_id == k) && controls a k)
unfolding controls revoked mirror_control
controls-revoked a r k = ground (arith, contains-kept r.participant_id k a.controller_ids)

granted_state :
    (st : State) (g : ControlGranted)
    → (apply_control_granted st g).0 ≡ none
    → (a : Actor) × (get st.actors g.actor_id ≡ some a)
      × ((g.participant_id == "") ≡ false)
      × ((apply_control_granted st g).1
          ≡ record st { actors = put st.actors g.actor_id (granted a g) })
unfolding apply_control_granted control_target
granted_state st g h = elim (Option-cases (get st.actors g.actor_id)) [
  | inl n ↦ ground arith
  | inr (a, q) ↦ (a, q, ground arith, ground arith)
]

revoked_state :
    (st : State) (r : ControlRevoked)
    → (apply_control_revoked st r).0 ≡ none
    → (a : Actor) × (get st.actors r.actor_id ≡ some a)
      × ((apply_control_revoked st r).1
          ≡ record st { actors = put st.actors r.actor_id (revoked a r) })
unfolding apply_control_revoked control_target
revoked_state st r h = elim (Option-cases (get st.actors r.actor_id)) [
  | inl n ↦ ground arith
  | inr (a, q) ↦ (a, q, ground arith)
]

-- After a grant that the fold accepts, Authorize takes exactly the grantee and those who were the
-- actor's owners before for its owners, and the owners of every other actor are what they were.
pub grant-controls :
    (st : State) (g : ControlGranted) (actor_id pid : String)
    → (apply_control_granted st g).0 ≡ none
    → controls_option (get (apply_control_granted st g).1.actors actor_id) pid ≡ (
        g.actor_id == actor_id && g.participant_id == pid
        || controls_option (get st.actors actor_id) pid)
grant-controls st g actor_id pid h =
    let (a, q, n, s) = granted_state st g h in
    rw s (
      ground (
        arith,
        get-put st.actors g.actor_id actor_id (granted a g),
        controls-granted a g pid n,
        eq_iff g.actor_id actor_id,
      ))

-- After a revocation that the fold accepts, Authorize takes for the actor's owners exactly those
-- who were before, less the one named, and the owners of every other actor are what they were.
pub revoke-controls :
    (st : State) (r : ControlRevoked) (actor_id pid : String)
    → (apply_control_revoked st r).0 ≡ none
    → controls_option (get (apply_control_revoked st r).1.actors actor_id) pid ≡ (
        not (r.actor_id == actor_id && r.participant_id == pid)
        && controls_option (get st.actors actor_id) pid)
revoke-controls st r actor_id pid h =
    let (a, q, s) = revoked_state st r h in
    rw s (
      ground (
        arith,
        get-put st.actors r.actor_id actor_id (revoked a r),
        controls-revoked a r pid,
        eq_iff r.actor_id actor_id,
      ))

pub names_self :
    (p : Participant) (req : RevokeActorControl) (st : State)
    → authorize_self_revoke p req st ≡ none
    → (req.participant_id == p.id) ≡ true
unfolding authorize_self_revoke
names_self p req st h = ground arith

self_revoke_applies :
    (p : Participant) (req : RevokeActorControl) (st : State)
    → authorize_self_revoke p req st ≡ none
    → ltb max_id_bytes (len p.id) ≡ false
    → (apply_control_revoked st
        (record { actor_id = req.actor_id; participant_id = req.participant_id })).0
      ≡ none
unfolding authorize_self_revoke authorize_actor_ownership apply_control_revoked control_target
    controls
self_revoke_applies p req st h b = ground (arith, eq_iff req.participant_id p.id)

pub self_revoke_accepted :
    (p : Participant) (req : RevokeActorControl) (st : State)
    → authorize_self_revoke p req st ≡ none
    → ltb max_id_bytes (len p.id) ≡ false
    → ((apply_control_revoked st
          (record { actor_id = req.actor_id; participant_id = req.participant_id })).0
        ≡ none)
      × (controls_option
            (get
              (apply_control_revoked st
                (record { actor_id = req.actor_id; participant_id = req.participant_id })).1.actors
              req.actor_id)
            p.id
          ≡ false)
self_revoke_accepted p req st h b =
    let r : ControlRevoked = record {
      actor_id = req.actor_id;
      participant_id = req.participant_id;
    } in
    let accepted = self_revoke_applies p req st h b in
    (
      accepted,
      revoke-controls st r req.actor_id p.id accepted
          ∙ rw (eq_refl req.actor_id, names_self p req st h) refl,
    )
