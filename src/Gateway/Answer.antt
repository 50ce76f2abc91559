-- ===== src/Gateway/Answer.antt =====
-- handleCommand of internal/gateway/server.go as a whole: the judging of a command, the campaign's
-- Append, and the answer.
use vtt_platform.Prelude.{ℕ, String, Bool, Option, none, some}
use vtt_platform.Prelude.Int.{ℤ}
use vtt_platform.Contract.Event.{GridPosition}
use vtt_platform.Contract.Command.{ClientCommand}
use vtt_platform.Identity.{Participant}
use vtt_platform.Engine.State.{State}
use vtt_platform.Store.Log.{Database}
use vtt_platform.Campaign.Append.{AppendError, Campaign, append_envelopes}
use vtt_platform.Rules.Eval.{Roller}
use vtt_platform.Rules.Ruleset.{Ruleset}
use vtt_platform.Gateway.Handle.{Reply, Handled, refuses, hands_over, elsewhere, judge_command}

-- The answer to a command: ok = false with why, or ok = true with the first sequence. A command
-- whose handler is not modelled has no answer here.
pub data Answer : Type 0 where
  not_ok : Reply → Answer
  not_appended : AppendError → Answer
  ok : ℤ → Answer
  unanswered : Answer

abbrev pub answer_of : Option AppendError → ℤ → Answer
answer_of none first = ok first
answer_of (some e) first = not_appended e

module _ (sql : Database) (session_ids : ℕ → Option String) (fan_out_fails : Bool) where
  -- What becomes of a handled command, and the campaign that it leaves.
  unfoldable pub settle : Campaign sql → Handled → Answer × Campaign sql
  unfolding append_envelopes
  settle c (refuses r) = (not_ok r, c)
  settle c (hands_over envs) =
      let r = append_envelopes sql session_ids fan_out_fails c envs in
      (answer_of r.error r.first, r.campaign)
  settle c elsewhere = (unanswered, c)

  module _ (can_see : State → String → Option GridPosition → Bool)
      (sees_actor : State → String → Bool) where
    module _ {Gen : Type 0} (new_id : ℕ → Option String) (rs : Option Ruleset)
        (rng : Option (Roller Gen)) (g : Gen) where
      -- The command is judged by the campaign's state.
      unfoldable pub handle_command :
          Campaign sql → Participant → ClientCommand → Answer × Campaign sql
      unfolding judge_command settle
      handle_command c p cmd =
          settle c (judge_command can_see sees_actor new_id rs rng g p cmd c.state)
