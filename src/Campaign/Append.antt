-- ===== src/Campaign/Append.antt =====
-- Append and AppendBatch of internal/campaign/campaign.go. Fresh session ids come from
-- crypto/rand: `new_id` says what it gives for the i-th envelope of a batch. The fan-out to the
-- character logs is left out but for whether it fails: it writes nothing that is modelled here.
use vtt_platform.Prelude.{
  ℕ, suc, String, Bool, true, false, not, Option, none, some, List, [], ◌∷◌, length, if◌then◌else◌,
}
use vtt_platform.Prelude.Int.{ℤ, pos, ◌+ℤ◌, ◌-ℤ◌, eq_ℤ}
use vtt_platform.Contract.Event.{Envelope, Payload, session_started, unknown}
use vtt_platform.Engine.State.{State, Session, snapshot}
use vtt_platform.Engine.Apply.Outcome.{EngineError, Outcome, unknown_variant}
use vtt_platform.Engine.Apply.Dispatch.{apply}
use vtt_platform.Store.Log.{Database, StoreError, Appended, appended, failed, append_batch}

-- openSession of the same package: the session whose EndSeq is 0, "" where there is none.
unfoldable pub open_session_id : List Session → String
open_session_id [] = ""
open_session_id (s ∷ rest) = if eq_ℤ s.end_seq (pos 0) then s.id else open_session_id rest

abbrev pub payload_missing : Payload → Bool
payload_missing unknown = true
payload_missing _ = false

unfoldable pub any_missing : List Envelope → Bool
any_missing [] = false
any_missing (env ∷ rest) = if payload_missing env.payload then true else any_missing rest

-- Why the validation refuses a batch.
pub data Refusal : Type 0 where
  no_session_id : Refusal
  not_foldable : EngineError → Refusal

pub data AppendError : Type 0 where
  poisoned_campaign empty_append fan_out_failed diverged : AppendError
  refused : Refusal → AppendError
  not_stored : StoreError → AppendError

pub data Validated : Type 0 where
  valid : List Envelope → Validated
  invalid : Refusal → Validated

abbrev pub and_later : Envelope → Validated → Validated
and_later env (valid rest) = valid (env ∷ rest)
and_later env (invalid e) = invalid e

abbrev pub if_applied : Envelope → Option EngineError → Validated → Validated
if_applied env (some e) rest = invalid (not_foldable e)
if_applied env none rest = and_later env rest

module _ (new_id : ℕ → Option String) where
  -- stampSessionIDAgainst: `none` where no fresh id could be made.
  unfoldable pub stamp_session : ℕ → Envelope → Payload → State → Option Envelope
  unfolding open_session_id
  stamp_session i env (session_started name) st = elim (new_id i) [
    | none ↦ none
    | some id ↦ some (record env { session_id = id })
  ]
  stamp_session i env _ st = some (record env { session_id = open_session_id st.sessions })

  -- The validation loop over the batch, with the snapshot and the sequence head + i + 1.
  unfoldable pub validate : ℕ → ℤ → State → List Envelope → Validated
  unfolding stamp_session
  validate i seq snap [] = valid []
  validate i seq snap (env ∷ rest) = elim (stamp_session i env env.payload snap) [
    | none ↦ invalid no_session_id
    | some stamped ↦
        if_applied stamped (apply snap (record stamped { sequence = seq })).0
          (validate (suc i) (seq +ℤ pos 1) (apply snap (record stamped { sequence = seq })).1 rest)
  ]

-- The loop that applies the persisted batch live: the error, if any, and the state.
unfoldable pub apply_all : State → List Envelope → Outcome
apply_all st [] = (none, st)
apply_all st (env ∷ rest) = elim (apply st env).0 [
  | some e ↦ (some e, (apply st env).1)
  | none ↦ apply_all (apply st env).1 rest
]

abbrev pub has_env : List Envelope → Bool
has_env [] = false
has_env (env ∷ rest) = true

module _ (sql : Database) where
  open sql use {Db}

  pub record Campaign : Type 0 where
    pub log : Db
    pub state : State
    pub head : ℤ
    pub poisoned : Bool

  -- The error (`none` is nil) and the first sequence, with the campaign that the call leaves.
  pub record AppendResult : Type 0 where
    pub error : Option AppendError
    pub first : ℤ
    pub campaign : Campaign

  abbrev pub append_error : AppendError → Campaign → AppendResult
  append_error e c = record { error = some e; first = pos 0; campaign = c }

  -- Only a failure after the write poisons.
  unfoldable pub apply_live : Campaign → ℤ → Outcome → AppendResult
  apply_live c first (some e, st) = append_error diverged (record c { state = st; poisoned = true })
  apply_live c first (none, st) = record {
    error = none;
    first = first;
    campaign = record c { state = st };
  }

  unfoldable pub persist : Campaign → List Envelope → Appended sql → AppendResult
  unfolding apply_live apply_all
  persist c envs (failed e) = append_error (not_stored e) c
  persist c envs (appended log stamped first) =
      apply_live (record c { log = log; head = (first +ℤ pos (length envs)) -ℤ pos 1 }) first
        (apply_all c.state stamped)

  module _ (new_id : ℕ → Option String) (fan_out_fails : Bool) where
    unfoldable pub validated : Campaign → Validated → AppendResult
    unfolding persist append_batch
    validated c (invalid e) = append_error (refused e) c
    validated c (valid envs) =
        if fan_out_fails
        then append_error fan_out_failed c
        else persist c envs (append_batch sql c.log envs)

    unfoldable pub append_locked : Campaign → List Envelope → AppendResult
    unfolding validated any_missing validate
    append_locked c envs =
        if any_missing envs
        then append_error (refused (not_foldable unknown_variant)) c
        else validated c (validate new_id 0 (c.head +ℤ pos 1) (snapshot c.state) envs)

    -- AppendBatch; Append is the batch of one.
    unfoldable pub append_envelopes : Campaign → List Envelope → AppendResult
    unfolding append_locked
    append_envelopes c envs =
        if c.poisoned
        then append_error poisoned_campaign c
        else if not (has_env envs)
        then append_error empty_append c
        else append_locked c envs
