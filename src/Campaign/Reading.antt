-- ===== src/Campaign/Reading.antt =====
-- What foldEvents of internal/campaign/campaign.go makes of a log, sound or corrupt.
use vtt_platform.Prelude.{
  ◌≡◌, refl, subst, ap, true, false, none, some, List, [], ◌∷◌, Bool-cases, inl, inr,
}
use vtt_platform.Prelude.Int.{ℤ}
use vtt_platform.Contract.Event.{Envelope}
use vtt_platform.Engine.State.{State, new_state}
use vtt_platform.Engine.Apply.Outcome.{EngineError, Outcome, unknown_variant}
use vtt_platform.Engine.Apply.Dispatch.{apply}
use vtt_platform.Engine.Refusal.{apply_refused}
use vtt_platform.Campaign.Fold.{
  Folded, folded, corrupt, observed, fold_events, fold_from, after_event, is_unknown_variant,
}

-- A reading of a log from a state: each event is applied, and observed with the state it leads to,
-- or is of a variant that this version does not know, and is skipped.
pub data Reads : State → List Envelope → State → List (State × Envelope) → Type 0 where
  at_end : {st : State} → Reads st [] st []
  applies :
      {st final : State} {env : Envelope} {rest : List Envelope} {calls : List (State × Envelope)}
      → (apply st env).0 ≡ none
      → Reads (apply st env).1 rest final calls
      → Reads st (env ∷ rest) final (((apply st env).1, env) ∷ calls)
  skips :
      {st final : State} {env : Envelope} {rest : List Envelope} {calls : List (State × Envelope)}
      → (apply st env).0 ≡ some unknown_variant
      → Reads st rest final calls
      → Reads st (env ∷ rest) final calls

-- A log that cannot be read: past events that are applied or skipped, the event of sequence `seq` is
-- refused with `err`, and its variant is known.
pub data StopsAt (seq : ℤ) (err : EngineError) : State → List Envelope → Type 0 where
  here :
      {st : State} {env : Envelope} {rest : List Envelope}
      → (apply st env).0 ≡ some err
      → is_unknown_variant err ≡ false
      → env.sequence ≡ seq
      → StopsAt seq err st (env ∷ rest)
  past_applied :
      {st : State} {env : Envelope} {rest : List Envelope}
      → (apply st env).0 ≡ none
      → StopsAt seq err (apply st env).1 rest
      → StopsAt seq err st (env ∷ rest)
  past_skipped :
      {st : State} {env : Envelope} {rest : List Envelope}
      → (apply st env).0 ≡ some unknown_variant
      → StopsAt seq err st rest
      → StopsAt seq err st (env ∷ rest)

-- The specification of a fold's answer.
pub IsReading : State → List Envelope → Folded → Type 0
IsReading st log (folded final calls) = Reads st log final calls
IsReading st log (corrupt seq err) = StopsAt seq err st log

only_unknown : (e : EngineError) → is_unknown_variant e ≡ true → e ≡ unknown_variant
unfolding is_unknown_variant
only_unknown unknown_variant h = refl
only_unknown _ h = cc

applied-IsReading :
    (st : State) (env : Envelope) (rest : List Envelope) (f : Folded)
    → (apply st env).0 ≡ none
    → IsReading (apply st env).1 rest f
    → IsReading st (env ∷ rest) (observed (apply st env).1 env f)
unfolding IsReading
applied-IsReading st env rest (folded final calls) h r = applies h r
applied-IsReading st env rest (corrupt seq err) h r = past_applied h r

skipped-IsReading :
    (st : State) (env : Envelope) (rest : List Envelope) (f : Folded)
    → (apply st env).0 ≡ some unknown_variant
    → IsReading st rest f
    → IsReading st (env ∷ rest) f
unfolding IsReading
skipped-IsReading st env rest (folded final calls) h r = skips h r
skipped-IsReading st env rest (corrupt seq err) h r = past_skipped h r

after_event-IsReading :
    (st : State) (env : Envelope) (rest : List Envelope) (f : Folded) (o : Outcome)
    → apply st env ≡ o
    → IsReading (apply st env).1 rest f
    → IsReading st (env ∷ rest) (after_event o env f)
unfolding after_event
after_event-IsReading st env rest f (none, next) q r =
    subst (λ (n : State). IsReading st (env ∷ rest) (observed n env f))
      (ap (λ (x : Outcome). x.1) q)
      (applied-IsReading st env rest f (ap (λ (x : Outcome). x.0) q) r)
after_event-IsReading st env rest f (some e, next) q r =
    let refusal = ap (λ (x : Outcome). x.0) q in
    elim (Bool-cases (is_unknown_variant e)) [
      | inl u ↦ rw u (
          skipped-IsReading st env rest f (rw (only_unknown e u) at refusal)
            (subst (λ (s : State). IsReading s rest f) (apply_refused st env refusal) r))
      | inr u ↦ rw u (unfold IsReading in here refusal u refl)
    ]

fold_from-IsReading : (st : State) (log : List Envelope) → IsReading st log (fold_from st log)
unfolding fold_from
fold_from-IsReading st [] = unfold IsReading in at_end
fold_from-IsReading st (env ∷ rest) =
    after_event-IsReading st env rest (fold_from (apply st env).1 rest) (apply st env) refl
      (fold_from-IsReading (apply st env).1 rest)

-- What foldEvents answers for a log is what reading it from the empty state gives: with a final state
-- and its observations, each event was applied in order and observed, or was of an unknown variant
-- and skipped; and a log is reported corrupt at the first event that is refused though its variant is
-- known, by that event's sequence and with that refusal.
pub fold_events-IsReading : (log : List Envelope) → IsReading new_state log (fold_events log)
unfolding fold_events
fold_events-IsReading log = fold_from-IsReading new_state log
