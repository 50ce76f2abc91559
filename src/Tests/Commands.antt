-- ===== src/Tests/Commands.antt =====
-- The theorems on handled commands at concrete inputs.
use vtt_platform.Prelude.{ℕ, String, Bool, true, false, ◌≡◌, refl, ◌↔◌, Option, none, some, [], ◌∷◌}
use vtt_platform.Prelude.Int.{pos}
use vtt_platform.Contract.Event.{GridPosition, token_moved, narration_added}
use vtt_platform.Contract.Command.{move_token, MoveToken, add_narration, AddNarration}
use vtt_platform.Go.GoMap.{get}
use vtt_platform.Identity.{player}
use vtt_platform.Engine.State.{State, Token}
use vtt_platform.Engine.Apply.Scenes.{x_of, y_of}
use vtt_platform.Engine.Terrain.{blocked}
use vtt_platform.Rules.Eval.{Roller}
use vtt_platform.Gateway.Rules.{controls_option}
use vtt_platform.Gateway.Convert.{envelope_of}
use vtt_platform.Gateway.Handle.{removals}
use vtt_platform.Gateway.Answer.{ok, handle_command}
use vtt_platform.Gateway.Answering.{IsAppended}
use vtt_platform.Gateway.Issuing.{IsIssued, handle_command-GrowsBy}
use vtt_platform.Gateway.PlayerAnswers.{player_move_answered, player_narration_answered}
use vtt_platform.Campaign.Append.{Campaign, append_envelopes}
use vtt_platform.Campaign.Growth.{GrowsBy}
use vtt_platform.Rules.Accepted.{Accepts}
use vtt_platform.Gateway.Removing.{IsWithoutActor, removals-IsWithoutActor}
use vtt_platform.Gateway.Moving.{as_player, move_from}
use vtt_platform.Gateway.Voicing.{MaySpeakAs, spoken}
use vtt_platform.Tests.Data.{table, ann, hero_token, rows_alone}

-- Eyes that see the whole board.
abbrev sees_square : State → String → Option GridPosition → Bool
sees_square st scene_id at = true

abbrev sees_all : State → String → Bool
sees_all st actor_id = true

abbrev event_ids : ℕ → Option String
event_ids n = some "e1"

abbrev no_roller : Option (Roller ℕ)
no_roller = none

abbrev step : MoveToken
step = record { token_id = "t1"; to = some (record { x = pos 1; y = pos 2 }); reason = none }

abbrev line : AddNarration
line = record {
  text = "Halt!";
  speaks_as = "The Queen";
  anchor_from_seq = pos 0;
  anchor_to_seq = pos 0;
  actor_id = "hero";
  out_of_character = false;
}

abbrev session_ids : ℕ → Option String
session_ids i = some "s1"

-- A campaign that stands at the table, with nothing in its log.
abbrev at_table : Campaign rows_alone
at_table = record { log = []; state = table; head = pos 0; poisoned = false }

abbrev after : Campaign rows_alone
after =
    (append_envelopes rows_alone session_ids false at_table (
      envelope_of "e1" (as_player "ann" "Ann") (token_moved (move_from step hero_token))
      ∷ [])).campaign

handle_command-GrowsBy_example :
    GrowsBy rows_alone
      (IsIssued ann (move_token step) table)
      at_table
      (handle_command rows_alone session_ids false sees_square sees_all event_ids none no_roller 0
        at_table ann
        (move_token step)).1
handle_command-GrowsBy_example =
    handle_command-GrowsBy rows_alone session_ids false sees_square sees_all event_ids none
      no_roller 0 at_table ann (move_token step) refl

player_move_answered_example :
    (handle_command rows_alone session_ids false sees_square sees_all event_ids none no_roller 0
        at_table
        (record { id = "ann"; name = "Ann"; role = player })
        (move_token step)
      ≡ (ok (pos 1), after))
    ↔ ((tok : Token) × (get table.tokens "t1" ≡ some tok)
        × (controls_option (get table.actors tok.actor_id) "ann" ≡ true)
        × (sees_square table tok.scene_id step.to ≡ true)
        × (blocked table tok.scene_id (x_of step.to) (y_of step.to) ≡ none)
        × ((event_id : String) × (event_ids 0 ≡ some event_id)
            × IsAppended rows_alone
                (append_envelopes rows_alone session_ids false at_table (
                  envelope_of event_id (as_player "ann" "Ann") (token_moved (move_from step tok))
                  ∷ []))
                (pos 1)
                after))
player_move_answered_example =
    player_move_answered rows_alone session_ids false sees_square sees_all event_ids none no_roller
      0 "ann" "Ann" step at_table after (pos 1)

player_narration_answered_example :
    (handle_command rows_alone session_ids false sees_square sees_all event_ids none no_roller 0
        at_table
        (record { id = "ann"; name = "Ann"; role = player })
        (add_narration line)
      ≡ (ok (pos 1), after))
    ↔ ((speaker : String) × MaySpeakAs table "ann" "Ann" line speaker
        × ((event_id : String) × (event_ids 0 ≡ some event_id)
            × IsAppended rows_alone
                (append_envelopes rows_alone session_ids false at_table (
                  envelope_of event_id
                    (as_player "ann" "Ann")
                    (narration_added (spoken line speaker))
                  ∷ []))
                (pos 1)
                after))
player_narration_answered_example =
    player_narration_answered rows_alone session_ids false sees_square sees_all event_ids none
      no_roller 0 "ann" "Ann" line at_table after (pos 1)

removals-IsWithoutActor_example :
    Accepts (removals table "hero") (IsWithoutActor table "hero") table
unfolding get
removals-IsWithoutActor_example = removals-IsWithoutActor table "hero" (refl, tt) refl
