-- ===== src/Gateway/Voicing.antt =====
-- A player's narration through handleCommand of internal/gateway/server.go, up to the campaign.
use vtt_platform.Prelude.{
  ℕ, String, Bool, true, false, ◌==◌, ◌≡◌, ◌↔◌, ◌⊎◌, refl, sym, subst, ap, Option, none, some, List,
  [], ◌∷◌, Bool-cases, inl, inr, arith, eq_iff,
}
use vtt_platform.Contract.Event.{Actor, GridPosition, Envelope, NarrationAdded, narration_added}
use vtt_platform.Contract.Command.{add_narration, AddNarration}
use vtt_platform.Go.GoMap.{get, lookup}
use vtt_platform.Identity.{player}
use vtt_platform.Engine.State.{State}
use vtt_platform.Rules.Eval.{Roller}
use vtt_platform.Rules.Ruleset.{Ruleset}
use vtt_platform.Gateway.Roles.{command_name, may_issue}
use vtt_platform.Gateway.Viewpoint.{own_party_member}
use vtt_platform.Gateway.Rules.{
  authorize, authorize_player, player_rules, or_next, may_voice, may_voice_as,
}
use vtt_platform.Gateway.Convert.{voiced, envelope_of}
use vtt_platform.Gateway.Handling.{reply_of-none}
use vtt_platform.Gateway.Moving.{as_player, unrefused, sent}
use vtt_platform.Gateway.Handle.{
  hands_over, denied, or_refuse, reply_of, put_first, append_stamped, judge_command,
}

-- The narration of a command, before it is voiced, and as it is spoken by `speaker`.
abbrev unvoiced : AddNarration → NarrationAdded
unvoiced n = record {
  text = n.text;
  speaks_as = n.speaks_as;
  anchor_from_seq = n.anchor_from_seq;
  anchor_to_seq = n.anchor_to_seq;
  out_of_character = n.out_of_character;
}

abbrev pub spoken : AddNarration → String → NarrationAdded
spoken n speaker = record (unvoiced n) { speaks_as = speaker }

-- The player's own name out of character; in character, the name of a party member of the player's.
abbrev pub MaySpeakAs : State → String → String → AddNarration → String → Type 0
MaySpeakAs st id name n speaker =
    ((n.out_of_character ≡ true) × (n.actor_id ≡ "") × (speaker ≡ name))
    ⊎ ((n.out_of_character ≡ false)
        × (a : Actor) × (get st.actors n.actor_id ≡ some a)
        × (own_party_member (some a) id ≡ true)
        × ((a.name == "") ≡ false)
        × (speaker ≡ a.name))

player_voice :
    (id name : String) (n : AddNarration) (st : State)
    → authorize (as_player id name) (add_narration n) st
      ≡ or_next true (may_voice (as_player id name) n st.actors) none
unfolding authorize command_name may_issue authorize_player player_rules lookup
player_voice id name n st = refl

unnamed_voice : (id : String) → may_voice_as none id ≡ none → ⊥
unfolding may_voice_as own_party_member
unnamed_voice id h = cc

party_voice :
    (a : Actor) (id : String)
    → own_party_member (some a) id ≡ true
    → (a.name == "") ≡ false
    → may_voice_as (some a) id ≡ none
unfolding may_voice_as
party_voice a id o c = ground arith

own_voice :
    (o : Option Actor) (id : String)
    → (may_voice_as o id ≡ none) ↔ (
        (a : Actor) × (o ≡ some a)
        × (own_party_member (some a) id ≡ true)
        × ((a.name == "") ≡ false))
unfolding may_voice_as
own_voice none id = (λ h. absurd (unnamed_voice id h), λ (a, e, _, _). cc)
own_voice (some a) id = (
  λ h. (a, refl, ground arith, ground arith),
  λ (b, e, o, c). subst (λ x. may_voice_as x id ≡ none) (sym e) (party_voice b id o c),
)

out_of_character_voice :
    (id name : String) (n : AddNarration) (st : State)
    → n.out_of_character ≡ true
    → (or_next true (may_voice (as_player id name) n st.actors) none ≡ none) ↔ (n.actor_id ≡ "")
unfolding may_voice
out_of_character_voice id name n st o =
    (λ h. ground (arith, eq_iff n.actor_id ""), λ h. ground (arith, eq_iff n.actor_id ""))

in_character_voice :
    (id name : String) (n : AddNarration) (st : State)
    → n.out_of_character ≡ false
    → (or_next true (may_voice (as_player id name) n st.actors) none ≡ none)
      ↔ (may_voice_as (get st.actors n.actor_id) id ≡ none)
unfolding may_voice
in_character_voice id name n st o = (λ h. ground arith, λ h. ground arith)

may_voice-MaySpeakAs :
    (id name : String) (n : AddNarration) (st : State)
    → (or_next true (may_voice (as_player id name) n st.actors) none ≡ none)
      ↔ ((speaker : String) × MaySpeakAs st id name n speaker)
may_voice-MaySpeakAs id name n st = (
  λ h. elim (Bool-cases n.out_of_character) [
    | inl o ↦ (name, inl (o, (out_of_character_voice id name n st o).0 h, refl))
    | inr o ↦
        let (a, q, k, c) = (own_voice _ id).0 ((in_character_voice id name n st o).0 h) in
        (a.name, inr (o, a, q, k, c, refl))
  ],
  λ (speaker, m). elim m [
    | inl (o, e, _) ↦ (out_of_character_voice id name n st o).1 e
    | inr (o, a, q, k, c, _) ↦
        (in_character_voice id name n st o).1 ((own_voice _ id).1 (a, q, k, c))
  ],
)

voiced-MaySpeakAs :
    (id name : String) (n : AddNarration) (st : State) (speaker : String)
    → MaySpeakAs st id name n speaker
    → voiced (unvoiced n) (add_narration n) (as_player id name) st ≡ spoken n speaker
unfolding voiced
voiced-MaySpeakAs id name n st speaker (inl (o, _, e)) = ground arith
voiced-MaySpeakAs id name n st speaker (inr (o, a, q, _, _, e)) = ground arith

module _ (can_see : State → String → Option GridPosition → Bool)
    (sees_actor : State → String → Bool) where
  module _ {Gen : Type 0} (new_id : ℕ → Option String) (rs : Option Ruleset)
      (rng : Option (Roller Gen)) (g : Gen) where
    narration_handled :
        (id name : String) (n : AddNarration) (st : State)
        → judge_command can_see sees_actor new_id rs rng g (as_player id name) (add_narration n) st
          ≡ or_refuse
              (reply_of denied (or_next true (may_voice (as_player id name) n st.actors) none))
              (append_stamped (
                put_first
                  (as_player id name)
                  (narration_added (voiced (unvoiced n) (add_narration n) (as_player id name) st))
                  (new_id 0)
                  (some [])))
    unfolding judge_command
    narration_handled id name n st =
        ap
          (λ o. or_refuse (reply_of denied o) (
            append_stamped (
              put_first (as_player id name)
                (narration_added (voiced (unvoiced n) (add_narration n) (as_player id name) st))
                (new_id 0) (some []))))
          (player_voice id name n st)

    -- Exactly what is handed to the campaign.
    pub player_narration_handled :
        (id name : String) (n : AddNarration) (st : State) (envs : List Envelope)
        → (judge_command can_see sees_actor new_id rs rng g
              (record { id = id; name = name; role = player })
              (add_narration n)
              st
            ≡ hands_over envs)
          ↔ ((speaker : String) × MaySpeakAs st id name n speaker
              × ((event_id : String) × (new_id 0 ≡ some event_id)
                  × (envs
                      ≡ envelope_of event_id
                          (as_player id name)
                          (narration_added (spoken n speaker))
                        ∷ [])))
    player_narration_handled id name n st envs = rw (narration_handled id name n st) (
      (λ e.
          let (a, t) = (unrefused _ _ envs).0 e in
          let (speaker, m) = (may_voice-MaySpeakAs id name n st).0 (reply_of-none denied _ a) in
          (
            speaker,
            m,
            (sent (as_player id name) (narration_added (spoken n speaker)) (new_id 0) envs).0
                (rw (voiced-MaySpeakAs id name n st speaker m) at t),
          )),
      (λ (speaker, m, w). (unrefused _ _ envs).1 (
        ap (reply_of denied) ((may_voice-MaySpeakAs id name n st).1 (speaker, m)),
        rw (voiced-MaySpeakAs id name n st speaker m)
            ((sent (as_player id name) (narration_added (spoken n speaker)) (new_id 0) envs).1 w),
      )),
    )
