-- ===== src/Campaign/Agree.antt =====
-- The live state of a campaign beside the fold of its log.
use vtt_platform.Prelude.{
  ℕ, suc, String, ◌≡◌, ◌≢◌, refl, sym, subst, ap, ◌∙◌, Bool, false, not, Option, none, some, List,
  [], ◌∷◌, ◌++◌, arith, length, if◌then◌else◌, Option-cases, Bool-cases, inl, inr,
}
use vtt_platform.Prelude.Int.{ℤ, pos, ◌+ℤ◌, ◌-ℤ◌, +ℤ_parts, -ℤ_parts, eq_of_parts}
use vtt_platform.Contract.Event.{Envelope}
use vtt_platform.Engine.State.{State, snapshot, new_state}
use vtt_platform.Engine.Apply.Outcome.{EngineError, Outcome}
use vtt_platform.Engine.Apply.Dispatch.{apply}
use vtt_platform.Engine.Copies.{Follows, apply-snapshot, snapshot_idem}
use vtt_platform.Store.Log.{
  Database, Appended, appended, failed, StoreError, append_batch, append_rows, append_checked,
  check_batch, any_env, head_of, stamp_from,
}
use vtt_platform.Store.Heads.{head_of-append}
use vtt_platform.Campaign.Append
use vtt_platform.Campaign.Append.{
  Validated, valid, invalid, validate, apply_all, Campaign, AppendResult, Refusal, AppendError,
  append_locked, append_envelopes, diverged, stamp_session, if_applied, any_missing, has_env,
  append_error, apply_live, persist, validated,
}
use vtt_platform.Campaign.Replay.{FoldsTo, FoldsTo-append, FoldsTo-apply_all, apply_all-cons}

-- States with one copy take one event alike.
apply_alike :
    (s t : State) (env : Envelope) → snapshot s ≡ snapshot t → Follows (apply s env) (apply t env)
apply_alike s t env e = record {
  same_refusal =
      sym (apply-snapshot s env).same_refusal
      ∙ (ap (λ (u : State). (apply u env).0) e ∙ (apply-snapshot t env).same_refusal);
  same_copy =
      sym (apply-snapshot s env).same_copy
      ∙ (ap (λ (u : State). snapshot (apply u env).1) e ∙ (apply-snapshot t env).same_copy);
}

module _ (new_id : ℕ → Option String) where
  if_applied-valid :
      (stamped : Envelope) (o : Option EngineError) (later : Validated) (out : List Envelope)
      → if_applied stamped o later ≡ valid out
      → (out' : List Envelope) × (out ≡ stamped ∷ out') × (o ≡ none) × (later ≡ valid out')
  if_applied-valid stamped (some e) later out h = cc
  if_applied-valid stamped none (valid out') out h = (out', ground arith, refl, refl)
  if_applied-valid stamped none (invalid e) out h = cc

  -- What a batch that validates is made of.
  valid-cons :
      (i : ℕ) (seq : ℤ) (snap : State) (env : Envelope) (rest out : List Envelope)
      → validate new_id i seq snap (env ∷ rest) ≡ valid out
      → (stamped : Envelope) × (out' : List Envelope) × (out ≡ stamped ∷ out')
        × ((apply snap (record stamped { sequence = seq })).0 ≡ none)
        × (validate new_id
              (suc i)
              (seq +ℤ pos 1)
              (apply snap (record stamped { sequence = seq })).1
              rest
            ≡ valid out')
  unfolding validate
  valid-cons i seq snap env rest out h =
      elim (Option-cases (stamp_session new_id i env env.payload snap)) [
        | inl n ↦ absurd (clash (rw (n, validate) at h))
        | inr (stamped, q) ↦
            let (out', shape, applied, later) =
              if_applied-valid stamped _ _ out (rw (q, validate) at h) in
            (stamped, out', shape, applied, later)
      ]
    where
      clash : {e : Refusal} → invalid e ≡ valid out → ⊥
      clash p = cc

  -- What validates on a copy is applied live without a refusal.
  validated_applies :
      (i : ℕ) (seq : ℤ) (snap live : State) (envs out : List Envelope)
      → snapshot snap ≡ snapshot live
      → validate new_id i seq snap envs ≡ valid out
      → (apply_all live (stamp_from seq out)).0 ≡ none
  unfolding stamp_from
  validated_applies i seq snap live [] out e h =
      subst (λ (l : List Envelope). (apply_all live (stamp_from seq l)).0 ≡ none) (nothing h)
        (unfold apply_all in refl)
    where
      nothing : validate new_id i seq snap [] ≡ valid out → [] ≡ out
      nothing p = unfold validate in cc
  validated_applies i seq snap live (env ∷ rest) out e h =
      let (stamped, out', shape, applied, later) = valid-cons i seq snap env rest out h in
      let alike = apply_alike snap live (record stamped { sequence = seq }) e in
      let first : (apply live (record stamped { sequence = seq })).0 ≡ none =
        sym alike.same_refusal ∙ applied in
      subst (λ (l : List Envelope). (apply_all live (stamp_from seq l)).0 ≡ none) (sym shape)
        (ap (λ (o : Outcome). o.0) (apply_all-cons live _ _ first)
          ∙ validated_applies (suc i) (seq +ℤ pos 1) _ _ rest out' alike.same_copy later)

module _ (sql : Database) where
  open sql use {Db, rows, commit, rows-commit}

  append_rows-appended :
      (db log : Db) (next first : ℤ) (batch stamped : List Envelope) (o : Option Db)
      → commit db batch ≡ o
      → append_rows sql db next batch o ≡ appended log stamped first
      → (first ≡ next) × (stamped ≡ batch) × (rows log ≡ rows db ++ batch)
  unfolding append_rows
  append_rows-appended db log next first batch stamped none q h = cc
  append_rows-appended db log next first batch stamped (some db') q h = (
    ground arith,
    ground arith,
    subst (λ (d : Db). rows d ≡ rows db ++ batch) (same h) (rows-commit db db' batch q),
  )
    where
      same : Path (Appended sql) (appended db' batch next) (appended log stamped first) → db' ≡ log
      same p = cc

  append_checked-appended :
      (db log : Db) (envs stamped : List Envelope) (first : ℤ) (o : Option StoreError)
      → append_checked sql db envs o ≡ appended log stamped first
      → (first ≡ head_of (rows db) +ℤ pos 1)
        × (stamped ≡ stamp_from (head_of (rows db) +ℤ pos 1) envs)
        × (rows log ≡ rows db ++ stamp_from (head_of (rows db) +ℤ pos 1) envs)
  unfolding append_checked
  append_checked-appended db log envs stamped first (some e) h = cc
  append_checked-appended db log envs stamped first none h =
      append_rows-appended db log _ first _ stamped _ refl h

  -- What the store did where it says that it stored a batch.
  pub append_batch-appended :
      (db log : Db) (envs stamped : List Envelope) (first : ℤ)
      → append_batch sql db envs ≡ appended log stamped first
      → (first ≡ head_of (rows db) +ℤ pos 1)
        × (stamped ≡ stamp_from (head_of (rows db) +ℤ pos 1) envs)
        × (rows log ≡ rows db ++ stamp_from (head_of (rows db) +ℤ pos 1) envs)
  unfolding append_batch
  append_batch-appended db log envs stamped first h = elim (Bool-cases (not (any_env envs))) [
    | inl e ↦ absurd (clash (rw e at h))
    | inr e ↦ append_checked-appended db log envs stamped first (check_batch envs) (rw e at h)
  ]
    where
      clash : {x : StoreError} → Path (Appended sql) (failed x) (appended log stamped first) → ⊥
      clash p = cc

  -- The live state is the fold of the stored log, and the head its last sequence.
  pub record IsReplay (c : Campaign sql) : Type 0 where
    pub folds : FoldsTo new_state (rows c.log) c.state
    pub at_head : c.head ≡ head_of (rows c.log)
    pub sound : c.poisoned ≡ false

  apply_live-none :
      (c : Campaign sql) (first : ℤ) (o : Outcome)
      → o.0 ≡ none
      → apply_live sql c first o
        ≡ record { error = none; first = first; campaign = record c { state = o.1 } }
  unfolding apply_live
  apply_live-none c first (none, st) h = refl
  apply_live-none c first (some e, st) h = cc

  -- What an append has to leave.
  abbrev KeepsReplay : AppendResult sql → Type 0
  KeepsReplay r = IsReplay r.campaign × (r.error ≢ some diverged)

  head_shift : (h : ℤ) (n : ℕ) → (h +ℤ pos 1 +ℤ pos n) -ℤ pos 1 ≡ h +ℤ pos n
  head_shift h n = omega (arith, +ℤ_parts, -ℤ_parts, eq_of_parts)

  module _ (c : Campaign sql) (v : IsReplay c) where
    stored-KeepsReplay :
        (log : Db) (envs stamped : List Envelope) (first : ℤ)
        → append_batch sql c.log envs ≡ appended log stamped first
        → (apply_all c.state (stamp_from (c.head +ℤ pos 1) envs)).0 ≡ none
        → KeepsReplay (persist sql c envs (appended log stamped first))
    unfolding persist
    stored-KeepsReplay log envs stamped first h applied =
        let (at_first, is_stamped, is_log) = append_batch-appended c.log log envs stamped first h in
        let live : (apply_all c.state stamped).0 ≡ none =
          subst (λ (l : List Envelope). (apply_all c.state l).0 ≡ none)
            (ap (λ (n : ℤ). stamp_from (n +ℤ pos 1) envs) v.at_head ∙ sym is_stamped) applied in
        let grown : rows log ≡ rows c.log ++ stamped =
          is_log ∙ ap (λ (l : List Envelope). rows c.log ++ l) (sym is_stamped) in
        rw (apply_live-none _ first (apply_all c.state stamped) live) (
          record {
            folds =
                subst (λ (l : List Envelope). FoldsTo new_state l (apply_all c.state stamped).1)
                  (sym grown)
                  (FoldsTo-append new_state c.state _ (rows c.log) stamped v.folds
                    (FoldsTo-apply_all c.state stamped live));
            at_head =
                ap (λ (n : ℤ). (n +ℤ pos (length envs)) -ℤ pos 1) at_first
                ∙ (head_shift (head_of (rows c.log)) (length envs)
                    ∙ sym (ap head_of is_log ∙ head_of-append (rows c.log) envs));
            sound = v.sound;
          },
          λ p. cc,
        )

    persist-KeepsReplay :
        (envs : List Envelope) (r : Appended sql)
        → append_batch sql c.log envs ≡ r
        → (apply_all c.state (stamp_from (c.head +ℤ pos 1) envs)).0 ≡ none
        → KeepsReplay (persist sql c envs r)
    persist-KeepsReplay envs (failed e) h applied = unfold persist in (v, λ p. cc)
    persist-KeepsReplay envs (appended log stamped first) h applied =
        stored-KeepsReplay log envs stamped first h applied

    module _ (new_id : ℕ → Option String) (fan_out_fails : Bool) where
      validated-KeepsReplay :
          (envs : List Envelope) (r : Validated)
          → validate new_id 0 (c.head +ℤ pos 1) (snapshot c.state) envs ≡ r
          → KeepsReplay (validated sql new_id fan_out_fails c r)
      unfolding validated
      validated-KeepsReplay envs (invalid e) h = (v, λ p. cc)
      validated-KeepsReplay envs (valid out) h = elim (Bool-cases fan_out_fails) [
        | inl e ↦ rw e (v, λ p. cc)
        | inr e ↦ rw e (
            persist-KeepsReplay out _ refl (
              validated_applies new_id 0 _ (snapshot c.state) c.state envs out
                (snapshot_idem c.state) h))
      ]

      locked-KeepsReplay :
          (envs : List Envelope) → KeepsReplay (append_locked sql new_id fan_out_fails c envs)
      unfolding append_locked
      locked-KeepsReplay envs = elim (Bool-cases (any_missing envs)) [
        | inl e ↦ rw e (v, λ p. cc)
        | inr e ↦ rw e (validated-KeepsReplay envs _ refl)
      ]

      -- From a campaign that is not poisoned, whose state is the fold of its log and whose head is
      -- the log's last sequence, an append, whether it succeeds or fails, leaves such a campaign,
      -- and its live apply never diverges from the validation.
      pub append-IsReplay :
          (envs : List Envelope)
          → IsReplay (append_envelopes sql new_id fan_out_fails c envs).campaign
            × ((append_envelopes sql new_id fan_out_fails c envs).error ≢ some diverged)
      unfolding append_envelopes
      append-IsReplay envs =
          subst
            (λ (b : Bool). KeepsReplay (
              if b
              then append_error sql Append.poisoned_campaign c
              else if not (has_env envs)
              then append_error sql Append.empty_append c
              else append_locked sql new_id fan_out_fails c envs))
            (sym v.sound) open_case
        where
          open_case : KeepsReplay (
              if not (has_env envs)
              then append_error sql Append.empty_append c
              else append_locked sql new_id fan_out_fails c envs)
          open_case = elim (Bool-cases (not (has_env envs))) [
            | inl e ↦ rw e (v, λ p. cc)
            | inr e ↦ rw e (locked-KeepsReplay envs)
          ]
