-- ===== src/Gateway/Handling.antt =====
-- What handleCommand of internal/gateway/server.go hands to the campaign.
use vtt_platform.Prelude.{
  ℕ, suc, String, Bool, true, false, if◌then◌else◌, ◌≡◌, refl, Option, none, some, List, [], ◌∷◌,
  All,
}
use vtt_platform.Contract.Event.{GridPosition, Envelope, Payload}
use vtt_platform.Contract.Command.{
  ClientCommand, no_command, use_ability, load_adventure, load_map, remove_actor,
  remove_participant, promote_participant, set_join_door, rotate_join_link, UseAbility,
}
use vtt_platform.Identity.{Participant, role_text}
use vtt_platform.Engine.State.{State}
use vtt_platform.Rules.Eval.{Roller}
use vtt_platform.Rules.Ruleset.{Ruleset}
use vtt_platform.Rules.Attempt.{Attempt, done, failed}
use vtt_platform.Rules.Resolve.{Batch, payloads_of, resolve}
use vtt_platform.Gateway.Convert.{event_payload, validate_form, voice, backfill}
use vtt_platform.Gateway.Rules.{authorize, is_player}
use vtt_platform.Gateway.Handle.{
  Reply, Handled, refuses, hands_over, or_refuse, reply_of, stamp_all, append_stamped, check_player,
  check_door, door_square_of, denied, bad_form, resolved_batch, put_first, removals,
  handle_use_ability, converted, dispatch, judge_command,
}

-- The command is handled here, and each envelope that is handed to the campaign satisfies `P`.
pub data Writes (P : Envelope → Type 0) : Handled → Type 0 where
  writes : {envs : List Envelope} → All P envs → Writes P (hands_over envs)
  refused : {r : Reply} → Writes P (refuses r)

pub Writes-or_refuse :
    {P : Envelope → Type 0} (o : Option Reply) (h : Handled)
    → (o ≡ none → Writes P h)
    → Writes P (or_refuse o h)
Writes-or_refuse none h k = k refl
Writes-or_refuse (some r) h k = refused

pub reply_of-none : {A : Type 0} (f : A → Reply) (o : Option A) → reply_of f o ≡ none → o ≡ none
reply_of-none f none h = refl
reply_of-none f (some a) h = cc

All-map :
    {P Q : Envelope → Type 0} (envs : List Envelope)
    → ((e : Envelope) → P e → Q e)
    → All P envs
    → All Q envs
All-map [] f h = tt
All-map (e ∷ envs) f h = (f e h.0, All-map envs f h.1)

Writes-map :
    {P Q : Envelope → Type 0} {h : Handled} → ((e : Envelope) → P e → Q e) → Writes P h → Writes Q h
Writes-map f (writes {envs} a) = writes (All-map envs f a)
Writes-map f refused = refused

-- The commands whose handlers are not modelled.
abbrev pub is_left_out : ClientCommand → Bool
is_left_out (load_adventure id) = true
is_left_out (load_map id) = true
is_left_out remove_participant = true
is_left_out (promote_participant q) = true
is_left_out set_join_door = true
is_left_out rotate_join_link = true
is_left_out _ = false

-- The envelope is written under the participant's id and role.
abbrev pub IsBy : Participant → Envelope → Type 0
IsBy p e = (e.participant_id ≡ p.id) × (e.actor_role ≡ role_text p.role)

data Stamped (P : Envelope → Type 0) : Option (List Envelope) → Type 0 where
  stamped : {envs : List Envelope} → All P envs → Stamped P (some envs)
  no_id : Stamped P none

appended :
    {P : Envelope → Type 0} {o : Option (List Envelope)} → Stamped P o → Writes P (append_stamped o)
unfolding append_stamped
appended (stamped a) = writes a
appended no_id = refused

put_first-Stamped :
    {o : Option (List Envelope)} (p : Participant) (payload : Payload) (id : Option String)
    → Stamped (IsBy p) o
    → Stamped (IsBy p) (put_first p payload id o)
put_first-Stamped p payload (some id) (stamped a) = stamped ((refl, refl), a)
put_first-Stamped p payload (some id) no_id = no_id
put_first-Stamped p payload none (stamped a) = no_id
put_first-Stamped p payload none no_id = no_id

stamp_all-IsBy :
    (new_id : ℕ → Option String) (i : ℕ) (p : Participant) (ps : List Payload)
    → Stamped (IsBy p) (stamp_all new_id i p ps)
unfolding stamp_all
stamp_all-IsBy new_id i p [] = stamped tt
stamp_all-IsBy new_id i p (payload ∷ rest) =
    put_first-Stamped p payload (new_id i) (stamp_all-IsBy new_id (suc i) p rest)

module _ (can_see : State → String → Option GridPosition → Bool)
    (sees_actor : State → String → Bool) where
  module _ {Gen : Type 0} (new_id : ℕ → Option String) (rs : Option Ruleset)
      (rng : Option (Roller Gen)) (g : Gen) where
    resolved-IsBy :
        (p : Participant) (a : Attempt (Batch × Gen))
        → Writes (IsBy p) (resolved_batch can_see sees_actor new_id rs rng g p a)
    unfolding resolved_batch
    resolved-IsBy p (failed e) = refused
    resolved-IsBy p (done (batch, _)) = appended (stamp_all-IsBy new_id 0 p (payloads_of batch))

    ability-IsBy :
        (p : Participant) (u : UseAbility) (st : State) (o : Option Ruleset)
        → Writes (IsBy p) (handle_use_ability can_see sees_actor new_id rs rng g p u st o)
    unfolding handle_use_ability
    ability-IsBy p u st none = refused
    ability-IsBy p u st (some rules) = resolved-IsBy p (resolve rules st rng u g)

    converted-IsBy :
        (p : Participant) (cmd : ClientCommand) (st : State) (o : Option Payload)
        → Writes (IsBy p) (converted can_see sees_actor new_id rs rng g p cmd st o)
    unfolding converted
    converted-IsBy p cmd st none = refused
    converted-IsBy p cmd st (some payload) =
        appended (stamp_all-IsBy new_id 0 p (voice (backfill payload st) cmd p st ∷ []))

    dispatch-IsBy :
        (p : Participant) (cmd : ClientCommand) (st : State)
        → is_left_out cmd ≡ false
        → Writes (IsBy p) (dispatch can_see sees_actor new_id rs rng g p cmd st)
    unfolding dispatch
    dispatch-IsBy p (use_ability u) st n = ability-IsBy p u st rs
    dispatch-IsBy p (remove_actor id) st n = appended (stamp_all-IsBy new_id 0 p (removals st id))
    dispatch-IsBy p (load_adventure id) st n = cc
    dispatch-IsBy p (load_map id) st n = cc
    dispatch-IsBy p remove_participant st n = cc
    dispatch-IsBy p (promote_participant q) st n = cc
    dispatch-IsBy p set_join_door st n = cc
    dispatch-IsBy p rotate_join_link st n = cc
    dispatch-IsBy p no_command st n = converted-IsBy p no_command st (event_payload no_command)
    dispatch-IsBy p cmd st n = converted-IsBy p cmd st (event_payload cmd)

    pub judge_command-IsBy :
        (p : Participant) (cmd : ClientCommand) (st : State)
        → is_left_out cmd ≡ false
        → Writes
            (λ e. IsBy p e × (authorize p cmd st ≡ none))
            (judge_command can_see sees_actor new_id rs rng g p cmd st)
    unfolding judge_command
    judge_command-IsBy p cmd st n = Writes-or_refuse (reply_of denied (authorize p cmd st)) _ (λ a.
        Writes-or_refuse (if is_player p.role then check_player can_see sees_actor cmd st else none)
          _
          (λ b. Writes-or_refuse (check_door (door_square_of cmd) st) _ (λ c.
            Writes-or_refuse (reply_of bad_form (validate_form cmd)) _ (λ d.
              Writes-map (λ e h. (h, reply_of-none denied (authorize p cmd st) a))
                (dispatch-IsBy p cmd st n)))))
