-- ===== src/Engine/Apply/Sessions.antt =====
-- The SessionStarted and SessionEnded arms.
use vtt_platform.Prelude.{
  ℕ, zero, suc, String, none, some, List, [], ◌∷◌, ◌++◌, len, ltb, is_some, if◌then◌else◌,
}
use vtt_platform.Prelude.Int.{ℤ, pos}
use vtt_platform.Contract.Event.{Envelope}
use vtt_platform.Engine.State.{State, Session, open_session}
use vtt_platform.Engine.Apply.Outcome.{
  Outcome, refuse, done, session_already_open, name_too_long, bad_session_id, no_open_session,
  max_name_bytes, max_id_bytes, empty_or_over,
}

unfoldable pub apply_session_started : State → Envelope → String → Outcome
apply_session_started st env name =
    if is_some (open_session st)
    then refuse session_already_open st
    else if ltb max_name_bytes (len name)
    then refuse name_too_long st
    else if empty_or_over max_id_bytes env.session_id
    then refuse bad_session_id st
    else done (record st { sessions = st.sessions ++ started ∷ [] })
  where
    started : Session
    started = record { id = env.session_id; name = name; start_seq = env.sequence; end_seq = pos 0 }

-- st.Sessions[i].EndSeq = seq
unfoldable pub end_at : ℕ → ℤ → List Session → List Session
end_at i seq [] = []
end_at zero seq (s ∷ rest) = record s { end_seq = seq } ∷ rest
end_at (suc i) seq (s ∷ rest) = s ∷ end_at i seq rest

unfoldable pub apply_session_ended : State → Envelope → Outcome
unfolding end_at
apply_session_ended st env = elim (open_session st) [
  | none ↦ refuse no_open_session st
  | some i ↦ done (record st { sessions = end_at i env.sequence st.sessions })
]
