-- ===== src/Engine/Invariant/Tokens.antt =====
-- Tokens stand in scenes of the state, for actors of the state.
use vtt_platform.Prelude.{
  String, ◌≡◌, true, false, none, some, arith, len, nat_eq, is_some, eq_iff, Option-cases, inl, inr,
  ◌==◌, All, subst, Bool-cases,
}
use vtt_platform.Contract.Event
use vtt_platform.Contract.Event.{
  Envelope, Payload, unknown, session_started, session_ended, scene_created, actor_added,
  actor_control_granted, actor_control_revoked, token_placed, token_described, token_moved,
  token_removed, actor_removed, door_opened, door_closed, attack_rolled, ability_used,
  adventure_loaded, resource_changed, condition_applied, condition_removed, narration_added,
  whisper_added, note_upserted, note_deleted, token_hidden, scene_seen,
}
use vtt_platform.Go.GoMap.{get, get-put, get-delete, All-of_lookup}
use vtt_platform.Engine.State.{State, Token}
use vtt_platform.Engine.Apply.Sessions.{apply_session_started, apply_session_ended}
use vtt_platform.Engine.Apply.Scenes.{apply_scene_created}
use vtt_platform.Engine.Apply.Actors.{apply_actor_added, add_actor, apply_actor_removed}
use vtt_platform.Engine.Apply.Control.{apply_control_granted, apply_control_revoked, control_target}
use vtt_platform.Engine.Apply.Tokens.{
  placed, apply_token_placed, apply_token_described, apply_token_moved, apply_token_removed,
  apply_token_hidden,
}
use vtt_platform.Engine.Apply.Doors.{apply_door_opened, apply_door_closed}
use vtt_platform.Engine.Apply.Pools.{
  apply_resource_changed, apply_condition_applied, apply_condition_removed,
}
use vtt_platform.Engine.Apply.Feed.{
  apply_ability_used, apply_adventure_loaded, apply_narration_added, apply_whisper_added,
  apply_note_upserted, apply_note_deleted,
}
use vtt_platform.Engine.Apply.Sight.{apply_scene_seen}
use vtt_platform.Engine.Apply.Dispatch.{apply_payload}
use vtt_platform.Engine.Standing.{IsNamed, standing_token-empty}
use vtt_platform.Engine.Apply.Actors.{standing_token}
use vtt_platform.Engine.Invariant.Keys.{KeysAreUnique, HasUniqueKeys}

named_id : (id : String) → nat_eq (len id) 0 ≡ false → (id == "") ≡ false
named_id id h = elim (Bool-cases (id == "")) [
  | inl e ↦
      let h' : nat_eq (len "") 0 ≡ false =
        subst (λ s. nat_eq (len s) 0 ≡ false) ((eq_iff id "").0 e) h in
      cc
  | inr e ↦ e
]

pub record TokenIsPlaced (st : State) (id : String) (tok : Token) : Type 0 where
  pub filed : tok.id ≡ id
  pub named : nat_eq (len id) 0 ≡ false
  pub in_scene : is_some (get st.scenes tok.scene_id) ≡ true
  pub of_actor : is_some (get st.actors tok.actor_id) ≡ true

pub record TokensArePlaced (st : State) : Type 0 where
  pub at_token : (id : String) (tok : Token) → get st.tokens id ≡ some tok → TokenIsPlaced st id tok

module _ (st : State) (v : TokensArePlaced st) where
  placed-TokensArePlaced : (tp : Event.TokenPlaced) → TokensArePlaced (apply_token_placed st tp).1
  unfolding apply_token_placed
  placed-TokensArePlaced tp = record {
    at_token = λ id tok e. elim (Option-cases tp.position) [
      | inl n ↦ ground (arith, v.at_token id tok)
      | inr (p, q) ↦ ground (
        arith,
        v.at_token id tok,
        get-put st.tokens tp.token_id id (placed tp p),
        eq_iff tp.token_id id,
      )
    ];
  }

  described-TokensArePlaced :
      (td : Event.TokenDescribed) → TokensArePlaced (apply_token_described st td).1
  unfolding apply_token_described
  described-TokensArePlaced td = record {
    at_token = λ id tok e. elim (Option-cases (get st.tokens td.token_id)) [
      | inl n ↦ ground (arith, v.at_token id tok)
      | inr (old, q) ↦ ground (
        arith,
        v.at_token id tok,
        v.at_token td.token_id old q,
        get-put st.tokens td.token_id id (record old {
          name = td.name;
          notes = td.notes;
          gm_name = td.gm_name;
          gm_notes = td.gm_notes;
        }),
        eq_iff td.token_id id,
      )
    ];
  }

  -- The pieces are bound by hand where `ground` is to be given the new token.
  moved-TokensArePlaced : (tm : Event.TokenMoved) → TokensArePlaced (apply_token_moved st tm).1
  unfolding apply_token_moved
  moved-TokensArePlaced tm = record {
    at_token = λ id tok e. elim (Option-cases (get st.tokens tm.token_id)) [
      | inl n ↦ ground (arith, v.at_token id tok)
      | inr (old, q) ↦ elim (Option-cases tm.to) [
        | inl n ↦ ground (arith, v.at_token id tok)
        | inr (p, r) ↦ ground (
          arith,
          v.at_token id tok,
          v.at_token tm.token_id old q,
          get-put st.tokens tm.token_id id (record old { x = p.x; y = p.y }),
          eq_iff tm.token_id id,
        )
      ]
    ];
  }

  removed-TokensArePlaced : (id : String) → TokensArePlaced (apply_token_removed st id).1
  unfolding apply_token_removed
  removed-TokensArePlaced gone = record {
    at_token = λ id tok e. ground (arith, v.at_token id tok, get-delete st.tokens gone id);
  }

  hidden-TokensArePlaced : (id : String) → TokensArePlaced (apply_token_hidden st id).1
  unfolding apply_token_hidden
  hidden-TokensArePlaced gone = record {
    at_token = λ id tok e. ground (arith, v.at_token id tok, get-delete st.tokens gone id);
  }

  tokens-IsNamed : HasUniqueKeys st.tokens → All IsNamed st.tokens.entries
  unfolding get
  tokens-IsNamed u =
      All-of_lookup IsNamed st.tokens.entries u
        (λ id tok e. named_id id (v.at_token id tok e).named)

  removed_actor-TokensArePlaced :
      (id : String) → HasUniqueKeys st.tokens → TokensArePlaced (apply_actor_removed st id).1
  unfolding apply_actor_removed get
  removed_actor-TokensArePlaced gone u = record {
    at_token = λ id tok e. ground (
      arith,
      v.at_token id tok,
      get-delete st.actors gone tok.actor_id,
      eq_iff gone tok.actor_id,
      eq_iff tok.actor_id gone,
      standing_token-empty gone "" id tok st.tokens.entries (tokens-IsNamed u),
      eq_iff (standing_token gone "" st.tokens.entries) "",
    );
  }

pub apply_payload-TokensArePlaced :
    (st : State) (env : Envelope) (p : Payload)
    → TokensArePlaced st
    → KeysAreUnique st
    → TokensArePlaced (apply_payload st env p).1
unfolding apply_payload apply_session_started apply_session_ended apply_scene_created
    apply_actor_added add_actor apply_actor_removed apply_control_granted apply_control_revoked
    control_target apply_token_placed apply_token_described apply_token_moved apply_token_removed
    apply_token_hidden apply_door_opened apply_door_closed apply_resource_changed
    apply_condition_applied apply_condition_removed apply_ability_used apply_adventure_loaded
    apply_narration_added apply_whisper_added apply_note_upserted apply_note_deleted
    apply_scene_seen
apply_payload-TokensArePlaced st env unknown v u = v
apply_payload-TokensArePlaced st env (token_placed tp) v u = placed-TokensArePlaced st v tp
apply_payload-TokensArePlaced st env (token_described td) v u = described-TokensArePlaced st v td
apply_payload-TokensArePlaced st env (token_moved tm) v u = moved-TokensArePlaced st v tm
apply_payload-TokensArePlaced st env (token_removed id) v u = removed-TokensArePlaced st v id
apply_payload-TokensArePlaced st env (token_hidden id) v u = hidden-TokensArePlaced st v id
apply_payload-TokensArePlaced st env (actor_removed id) v u =
    removed_actor-TokensArePlaced st v id u.tokens
apply_payload-TokensArePlaced st env (actor_added none) v u = v
apply_payload-TokensArePlaced st env (actor_added (some a)) v u = record {
  at_token =
      λ id tok e. ground (arith, v.at_token id tok, get-put st.actors a.actor_id tok.actor_id a);
}
apply_payload-TokensArePlaced st env _ v u = record {
  at_token = λ id tok e. grind (arith, v.at_token id tok, get-put);
}
