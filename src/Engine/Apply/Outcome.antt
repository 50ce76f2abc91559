-- ===== src/Engine/Apply/Outcome.antt =====
-- What Apply returns, and its bounds on free text.
use vtt_platform.Prelude.{ℕ, String, Bool, ◌||◌, Option, none, some, ltb, nat_eq, len}
use vtt_platform.Engine.State.{State}

-- One constructor for each refusal of apply.go, without the numbers of its message.
pub data EngineError : Type 0 where
  unknown_variant : EngineError
  session_already_open name_too_long bad_session_id no_open_session : EngineError
  bad_scene_id scene_exists bad_object_id object_appears_twice : EngineError
  actor_without_id actor_id_too_long actor_exists declares_controller module_id_too_long :
      EngineError
  bad_resource_name bad_attribute_name : EngineError
  no_participant participant_id_too_long unknown_actor : EngineError
  bad_token_id token_exists unknown_scene without_position unknown_token : EngineError
  reason_too_long bad_move_scene_id : EngineError
  still_has_token : String → EngineError
  bad_ability_id bad_adventure_id : EngineError
  unknown_resource new_value_mismatch : EngineError
  bad_condition_id already_applied condition_not_present : EngineError
  bad_text as_too_long negative_anchor half_anchor inverted_anchor anchor_not_past : EngineError
  bad_note_key title_too_long note_not_present : EngineError

-- The error that Apply returns (`none` is nil) and the state that it leaves.
abbrev pub Outcome : Type 0
Outcome = Option EngineError × State

abbrev pub refuse : EngineError → State → Outcome
refuse e st = (some e, st)

abbrev pub done : State → Outcome
done st = (none, st)

abbrev pub max_note_key_bytes : ℕ
max_note_key_bytes = 128

abbrev pub max_note_title_bytes : ℕ
max_note_title_bytes = 256

abbrev pub max_text_bytes : ℕ
max_text_bytes = 8192

abbrev pub max_narration_as_bytes : ℕ
max_narration_as_bytes = 256

abbrev pub max_move_reason_bytes : ℕ
max_move_reason_bytes = 256

abbrev pub max_name_bytes : ℕ
max_name_bytes = 256

abbrev pub max_id_bytes : ℕ
max_id_bytes = 128

-- len(s) == 0 || len(s) > bound
abbrev pub empty_or_over : ℕ → String → Bool
empty_or_over bound s = nat_eq (len s) 0 || ltb bound (len s)
