-- ===== src/Campaign/Growth.antt =====
-- What an append adds to the log of internal/campaign/campaign.go.
use vtt_platform.Prelude.{
  ℕ, suc, String, ◌≡◌, refl, ap, subst, ◌∙◌, Bool, true, false, not, Option, none, some, List, [],
  ◌∷◌, ◌++◌, All, length, Option-cases, inl, inr, if◌then◌else◌,
}
use vtt_platform.Prelude.Int.{ℤ, pos, ◌+ℤ◌, ◌-ℤ◌}
use vtt_platform.Contract.Event.{Envelope, Payload, session_started}
use vtt_platform.Engine.State.{State, snapshot}
use vtt_platform.Engine.Apply.Outcome.{EngineError, Outcome}
use vtt_platform.Store.Log.{Database, Appended, appended, failed, append_batch, stamp_from, head_of}
use vtt_platform.Campaign.Append.{
  Validated, valid, invalid, validate, apply_all, Campaign, AppendResult, Refusal, append_locked,
  append_envelopes, stamp_session, if_applied, any_missing, has_env, apply_live, persist, validated,
}
use vtt_platform.Campaign.Agree.{append_batch-appended}

append_nil {ℓ} : {A : Type ℓ} (l : List A) → l ≡ l ++ []
append_nil [] = refl
append_nil (x ∷ l) = ap (λ r. x ∷ r) (append_nil l)

-- The log is what it was, with envelopes that satisfy `P` behind.
pub record GrowsBy (sql : Database) (P : Envelope → Type 0) (before after : Campaign sql)
    : Type 0 where
  pub new : List Envelope
  pub extends : sql.rows after.log ≡ sql.rows before.log ++ new
  pub each : All P new

-- A property of envelopes that the stamping of a session and of a sequence keeps.
module _ (P : Envelope → Type 0)
    (with_session : (e : Envelope) (s : String) → P e → P (record e { session_id = s }))
    (with_sequence : (e : Envelope) (n : ℤ) → P e → P (record e { sequence = n })) where
  data Stamped : Option Envelope → Type 0 where
    stamped : {e : Envelope} → P e → Stamped (some e)
    unstamped : Stamped none

  data Passed : Validated → Type 0 where
    passed : {envs : List Envelope} → All P envs → Passed (valid envs)
    stopped : {r : Refusal} → Passed (invalid r)

  stamp_from-All : (n : ℤ) (envs : List Envelope) → All P envs → All P (stamp_from n envs)
  unfolding stamp_from
  stamp_from-All n [] h = tt
  stamp_from-All n (e ∷ envs) h = (with_sequence e n h.0, stamp_from-All (n +ℤ pos 1) envs h.1)

  module _ (new_id : ℕ → Option String) where
    stamp_session-Stamped :
        (i : ℕ) (env : Envelope) (payload : Payload) (st : State)
        → P env
        → Stamped (stamp_session new_id i env payload st)
    unfolding stamp_session
    stamp_session-Stamped i env (session_started name) st h = elim (Option-cases (new_id i)) [
      | inl n ↦ rw (n, stamp_session) unstamped
      | inr (id, e) ↦ rw (e, stamp_session) (stamped (with_session env id h))
    ]
    stamp_session-Stamped i env _ st h = stamped (with_session env _ h)

    Stamped-some : {o : Option Envelope} {e : Envelope} → Stamped o → o ≡ some e → P e
    Stamped-some (stamped h) q = subst P (cc) h
    Stamped-some unstamped q = cc

    if_applied-Passed :
        (e : Envelope) (o : Option EngineError) {v : Validated}
        → P e
        → Passed v
        → Passed (if_applied e o v)
    if_applied-Passed e (some err) h v = stopped
    if_applied-Passed e none h (passed rest) = passed (h, rest)
    if_applied-Passed e none h stopped = stopped

    validate-Passed :
        (i : ℕ) (seq : ℤ) (snap : State) (envs : List Envelope)
        → All P envs
        → Passed (validate new_id i seq snap envs)
    unfolding validate
    validate-Passed i seq snap [] h = passed tt
    validate-Passed i seq snap (env ∷ rest) h =
        elim (Option-cases (stamp_session new_id i env env.payload snap)) [
          | inl n ↦ rw (n, validate) stopped
          | inr (e, q) ↦
              rw (q, validate)
                (if_applied-Passed e _
                  (Stamped-some (stamp_session-Stamped i env env.payload snap h.0) q)
                  (validate-Passed (suc i) (seq +ℤ pos 1) _ rest h.1))
        ]

    module _ (sql : Database) (fan_out_fails : Bool) where
      open sql use {Db, rows}

      pub unchanged : (c : Campaign sql) → GrowsBy sql P c c
      unchanged c = record { new = []; extends = append_nil (rows c.log); each = tt }

      either :
          (c : Campaign sql) (b : Bool) (x y : AppendResult sql)
          → GrowsBy sql P c x.campaign
          → GrowsBy sql P c y.campaign
          → GrowsBy sql P c (if b then x else y).campaign
      either c true x y h k = h
      either c false x y h k = k

      apply_live-log :
          (c : Campaign sql) (first : ℤ) (o : Outcome)
          → (apply_live sql c first o).campaign.log ≡ c.log
      unfolding apply_live
      apply_live-log c first (none, st) = refl
      apply_live-log c first (some e, st) = refl

      persist-GrowsBy :
          (c : Campaign sql) (envs : List Envelope) (r : Appended sql)
          → append_batch sql c.log envs ≡ r
          → All P envs
          → GrowsBy sql P c (persist sql c envs r).campaign
      unfolding persist
      persist-GrowsBy c envs (failed e) q h = unchanged c
      persist-GrowsBy c envs (appended log batch first) q h =
          let (_, _, grown) = append_batch-appended sql c.log log envs batch first q in
          record {
            new = stamp_from (head_of (rows c.log) +ℤ pos 1) envs;
            extends =
                ap rows (
                  apply_live-log
                    (record c { log = log; head = (first +ℤ pos (length envs)) -ℤ pos 1 }) first
                    (apply_all c.state batch))
                ∙ grown;
            each = stamp_from-All (head_of (rows c.log) +ℤ pos 1) envs h;
          }

      validated-GrowsBy :
          (c : Campaign sql) (v : Validated)
          → Passed v
          → GrowsBy sql P c (validated sql new_id fan_out_fails c v).campaign
      unfolding validated
      validated-GrowsBy c (invalid e) h = unchanged c
      validated-GrowsBy c (valid envs) (passed h) =
          either c fan_out_fails _ _ (unchanged c) (persist-GrowsBy c envs _ refl h)

      locked-GrowsBy :
          (c : Campaign sql) (envs : List Envelope)
          → All P envs
          → GrowsBy sql P c (append_locked sql new_id fan_out_fails c envs).campaign
      unfolding append_locked
      locked-GrowsBy c envs h =
          either c (any_missing envs) _ _ (unchanged c)
            (validated-GrowsBy c _ (validate-Passed 0 _ (snapshot c.state) envs h))

      -- Whatever an append comes to, the log keeps what it holds, and gains only envelopes of the
      -- batch, stamped.
      pub append_envelopes-GrowsBy :
          (c : Campaign sql) (envs : List Envelope)
          → All P envs
          → GrowsBy sql P c (append_envelopes sql new_id fan_out_fails c envs).campaign
      unfolding append_envelopes
      append_envelopes-GrowsBy c envs h =
          either c c.poisoned _ _ (unchanged c)
            (either c (not (has_env envs)) _ _ (unchanged c) (locked-GrowsBy c envs h))
