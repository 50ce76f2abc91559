-- ===== src/Gateway/Issuing.antt =====
-- Whom the events are by that handleCommand of internal/gateway/server.go adds to the log.
use vtt_platform.Prelude.{ℕ, String, Bool, false, ◌≡◌, Option, none}
use vtt_platform.Contract.Event.{Envelope, GridPosition}
use vtt_platform.Contract.Command.{ClientCommand}
use vtt_platform.Identity.{Participant}
use vtt_platform.Engine.State.{State}
use vtt_platform.Store.Log.{Database}
use vtt_platform.Campaign.Append.{Campaign}
use vtt_platform.Campaign.Growth.{GrowsBy, unchanged, append_envelopes-GrowsBy}
use vtt_platform.Rules.Eval.{Roller}
use vtt_platform.Rules.Ruleset.{Ruleset}
use vtt_platform.Gateway.Rules.{authorize}
use vtt_platform.Gateway.Handle.{Handled}
use vtt_platform.Gateway.Handling.{Writes, writes, refused, IsBy, is_left_out, judge_command-IsBy}
use vtt_platform.Gateway.Answer.{settle, handle_command}

-- The issuer of an envelope, and that Authorize let the command through.
abbrev pub IsIssued : Participant → ClientCommand → State → Envelope → Type 0
IsIssued p cmd st e = IsBy p e × (authorize p cmd st ≡ none)

module _ (sql : Database) (session_ids : ℕ → Option String) (fan_out_fails : Bool) where
  settle-GrowsBy :
      (p : Participant) (cmd : ClientCommand) (st : State) (c : Campaign sql) (h : Handled)
      → Writes (IsIssued p cmd st) h
      → GrowsBy sql (IsIssued p cmd st) c (settle sql session_ids fan_out_fails c h).1
  unfolding settle
  settle-GrowsBy p cmd st c h (writes {envs} w) =
      append_envelopes-GrowsBy (IsIssued p cmd st) (λ e s k. k) (λ e n k. k) session_ids sql
        fan_out_fails c envs w
  settle-GrowsBy p cmd st c h refused =
      unchanged (IsIssued p cmd st) (λ e s k. k) (λ e n k. k) session_ids sql fan_out_fails c

  module _ (can_see : State → String → Option GridPosition → Bool)
      (sees_actor : State → String → Bool) where
    module _ {Gen : Type 0} (new_id : ℕ → Option String) (rs : Option Ruleset)
        (rng : Option (Roller Gen)) (g : Gen) where
      -- For every command but load_adventure, load_map, remove_participant, promote_participant,
      -- set_join_door and rotate_join_link: whatever the answer, the log keeps what it holds, and each
      -- event that the command adds to it carries the id and the role of the participant who issued the
      -- command, and Authorize let the command through on the campaign's state.
      pub handle_command-GrowsBy :
          (c : Campaign sql) (p : Participant) (cmd : ClientCommand)
          → is_left_out cmd ≡ false
          → GrowsBy sql
              (IsIssued p cmd c.state)
              c
              (handle_command sql session_ids fan_out_fails can_see sees_actor new_id rs rng g c p
                cmd).1
      unfolding handle_command
      handle_command-GrowsBy c p cmd n =
          settle-GrowsBy p cmd c.state c _
            (judge_command-IsBy can_see sees_actor new_id rs rng g p cmd c.state n)
