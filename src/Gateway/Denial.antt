-- ===== src/Gateway/Denial.antt =====
-- The refusals of authorization: one constructor for each message, with what the message says.
use vtt_platform.Prelude.{String}
use vtt_platform.Identity.{Role}

pub data Denial : Type 0 where
  may_not_issue undecided : Role → String → Denial
  promotes_too_far : String → Denial
  watches_no_log : Role → Denial
  watches_own_only : Denial
  not_watchable : String → Denial
  ooc_names_actor : Denial
  speaker_by_as : Role → Denial
  voices_own_only voice_has_no_name : Denial
  whispers_from_none : Role → Denial
  whisper_without_hearers heard_by_party_only : Denial
  player_whispers_dm_only whispers_from_own_only whisperer_has_no_name : Denial
  no_adjacent_token : String → Denial
  unknown_token : String → Denial
  token_not_controlled : String → String → Denial
  actor_not_controlled : String → String → Denial
  revokes_own_only : String → String → Denial
