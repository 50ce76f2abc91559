-- ===== src/Engine/Invariant/Sessions.antt =====
-- At most one session is open.
use vtt_platform.Prelude.{
  ℕ, zero, suc, ◌+◌, ◌≤◌, ◌≡◌, refl, none, some, List, [], ◌∷◌, ◌++◌, arith, Option-cases, inl, inr,
  if◌then◌else◌,
}
use vtt_platform.Prelude.Int.{ℤ, pos, eq_ℤ}
use vtt_platform.Contract.Event.{
  Envelope, Payload, unknown, session_started, session_ended, actor_added,
}
use vtt_platform.Engine.State.{State, Session, open_session, open_index}
use vtt_platform.Engine.Apply.Sessions.{end_at, apply_session_started, apply_session_ended}
use vtt_platform.Engine.Apply.Scenes.{apply_scene_created}
use vtt_platform.Engine.Apply.Actors.{apply_actor_added, add_actor, apply_actor_removed}
use vtt_platform.Engine.Apply.Control.{apply_control_granted, apply_control_revoked, control_target}
use vtt_platform.Engine.Apply.Tokens.{
  apply_token_placed, apply_token_described, apply_token_moved, apply_token_removed,
  apply_token_hidden,
}
use vtt_platform.Engine.Apply.Doors.{apply_door_opened, apply_door_closed}
use vtt_platform.Engine.Apply.Pools.{
  apply_resource_changed, apply_condition_applied, apply_condition_removed,
}
use vtt_platform.Engine.Apply.Feed.{
  apply_ability_used, apply_adventure_loaded, apply_narration_added, apply_whisper_added,
  apply_note_upserted, apply_note_deleted,
}
use vtt_platform.Engine.Apply.Sight.{apply_scene_seen}
use vtt_platform.Engine.Apply.Dispatch.{apply_payload}

unfoldable pub open_count : List Session → ℕ
open_count [] = 0
open_count (s ∷ rest) = (if eq_ℤ s.end_seq (pos 0) then 1 else 0) + open_count rest

abbrev pub OneIsOpen : State → Type 0
OneIsOpen st = open_count st.sessions ≤ 1

open_count-append : (l : List Session) (s : Session) → open_count (l ++ s ∷ []) ≤ open_count l + 1
unfolding open_count
open_count-append [] s = ground arith
open_count-append (t ∷ l) s = ground (arith, open_count-append l s)

none_open : (i : ℕ) (l : List Session) → open_index i l ≡ none → open_count l ≡ 0
unfolding open_index open_count
none_open i [] h = refl
none_open i (s ∷ l) h = ground (arith, none_open (suc i) l)

open_index-ge : (i k : ℕ) (l : List Session) → open_index i l ≡ some k → i ≤ k
unfolding open_index
open_index-ge i k [] h = cc
open_index-ge i k (s ∷ l) h = ground (arith, open_index-ge (suc i) k l)

open_count-end_at :
    (i : ℕ) (j : ℕ) (seq : ℤ) (l : List Session)
    → open_index j l ≡ some (j + i)
    → open_count (end_at i seq l) ≤ open_count l
unfolding open_index open_count end_at
open_count-end_at i j seq [] h = cc
open_count-end_at zero j seq (s ∷ l) h = ground (arith, open_index-ge (suc j) j l)
open_count-end_at (suc i) j seq (s ∷ l) h = ground (arith, open_count-end_at i (suc j) seq l)

pub apply_payload-OneIsOpen :
    (st : State) (env : Envelope) (p : Payload)
    → OneIsOpen st
    → OneIsOpen (apply_payload st env p).1
unfolding apply_payload apply_session_started apply_session_ended open_session apply_scene_created
    apply_actor_added add_actor apply_actor_removed apply_control_granted apply_control_revoked
    control_target apply_token_placed apply_token_described apply_token_moved apply_token_removed
    apply_token_hidden apply_door_opened apply_door_closed apply_resource_changed
    apply_condition_applied apply_condition_removed apply_ability_used apply_adventure_loaded
    apply_narration_added apply_whisper_added apply_note_upserted apply_note_deleted
    apply_scene_seen
apply_payload-OneIsOpen st env unknown v = v
apply_payload-OneIsOpen st env (session_started name) v = ground (
  arith,
  none_open 0 st.sessions,
  open_count-append st.sessions
      (record { id = env.session_id; name = name; start_seq = env.sequence; end_seq = pos 0 }),
)
apply_payload-OneIsOpen st env session_ended v = elim (Option-cases (open_session st)) [
  | inl e ↦ ground arith
  | inr (i, e) ↦ ground (arith, open_count-end_at i 0 env.sequence st.sessions)
]
apply_payload-OneIsOpen st env (actor_added none) v = v
apply_payload-OneIsOpen st env (actor_added (some a)) v = ground arith
apply_payload-OneIsOpen st env _ v = ground arith
