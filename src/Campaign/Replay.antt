-- ===== src/Campaign/Replay.antt =====
-- What the fold of a log comes to, and logs one after another.
use vtt_platform.Prelude.{
  ◌≡◌, refl, sym, subst, ap, Option, none, some, List, [], ◌∷◌, ◌++◌, arith, Option-cases,
  Bool-cases, inl, inr,
}
use vtt_platform.Contract.Event.{Envelope}
use vtt_platform.Engine.State.{State}
use vtt_platform.Engine.Apply.Outcome.{EngineError, Outcome}
use vtt_platform.Engine.Apply.Dispatch.{apply}
use vtt_platform.Campaign.Fold.{Folded, folded, corrupt, fold_from, after_event, is_unknown_variant}
use vtt_platform.Campaign.Append.{apply_all}

-- The events, applied in order from `st`, are a sound log and lead to `final`.
abbrev pub FoldsTo : State → List Envelope → State → Type 0
FoldsTo st events final =
    (calls : List (State × Envelope)) × (fold_from st events ≡ folded final calls)

-- The state that a log folds to; `st` for a corrupt one.
abbrev state_of : State → Folded → State
state_of st (folded final calls) = final
state_of st (corrupt seq e) = st

-- One event of a sound log is applied, or of an unknown variant and skipped; the rest is sound.
FoldsTo-cons :
    (o : Outcome) (env : Envelope) (rest : Folded) (final : State) (calls : List (State × Envelope))
    → after_event o env rest ≡ folded final calls
    → (calls' : List (State × Envelope)) × (rest ≡ folded final calls')
unfolding after_event
FoldsTo-cons (none, st) env (folded s cs) final calls h = (cs, ground arith)
FoldsTo-cons (none, st) env (corrupt n e) final calls h = cc
FoldsTo-cons (some x, st) env (folded s cs) final calls h = (cs, ground arith)
FoldsTo-cons (some x, st) env (corrupt n e) final calls h = ground arith

-- And the other way: the rest decides where a sound first event leads.
after_event-folded :
    (o : Outcome) (env : Envelope) (rest : Folded) (final other : State)
    (calls calls' cs : List (State × Envelope))
    → after_event o env rest ≡ folded final calls
    → (new : Folded) → new ≡ folded other cs
    → (ds : List (State × Envelope)) × (after_event o env new ≡ folded other ds)
unfolding after_event
after_event-folded (none, st) env rest final other calls calls' cs h new e = ((st, env) ∷ cs, rw e)
after_event-folded (some x, st) env rest final other calls calls' cs h new e =
    elim (Bool-cases (is_unknown_variant x)) [
      | inl u ↦ (cs, rw u e)
      | inr u ↦ absurd (clash (rw u at h))
    ]
  where
    clash : corrupt env.sequence x ≡ folded final calls → ⊥
    clash q = cc

pub FoldsTo-append :
    (st mid final : State) (xs ys : List Envelope)
    → FoldsTo st xs mid
    → FoldsTo mid ys final
    → FoldsTo st (xs ++ ys) final
unfolding fold_from
FoldsTo-append st mid final [] ys (cs, h) k =
    subst (λ s. FoldsTo s ys final) (sym (ap (state_of st) h)) k
FoldsTo-append st mid final (x ∷ xs) ys (cs, h) k =
    let (cs', h') = FoldsTo-cons (apply st x) x (fold_from (apply st x).1 xs) mid cs h in
    let (ds, k') = FoldsTo-append (apply st x).1 mid final xs ys (cs', h') k in
    after_event-folded (apply st x) x (fold_from (apply st x).1 xs) mid final cs cs' ds h _ k'

pub apply_all-cons :
    (st : State) (x : Envelope) (xs : List Envelope)
    → (apply st x).0 ≡ none
    → apply_all st (x ∷ xs) ≡ apply_all (apply st x).1 xs
unfolding apply_all
apply_all-cons st x xs e = rw (e, apply_all)

apply_all-refused :
    (st : State) (x : Envelope) (xs : List Envelope) (err : EngineError)
    → (apply st x).0 ≡ some err
    → (apply_all st (x ∷ xs)).0 ≡ some err
unfolding apply_all
apply_all-refused st x xs err e = rw (e, apply_all)

after_event-applied :
    (o : Outcome) (env : Envelope) (final : State) (cs : List (State × Envelope))
    → o.0 ≡ none
    → after_event o env (folded final cs) ≡ folded final ((o.1, env) ∷ cs)
unfolding after_event
after_event-applied (none, st) env final cs h = refl
after_event-applied (some e, st) env final cs h = cc

-- A batch that is applied without a refusal is a sound log.
pub FoldsTo-apply_all :
    (st : State) (envs : List Envelope)
    → (apply_all st envs).0 ≡ none
    → FoldsTo st envs (apply_all st envs).1
unfolding fold_from
FoldsTo-apply_all st [] h = ([], unfold apply_all in refl)
FoldsTo-apply_all st (x ∷ xs) h = elim (Option-cases (apply st x).0) [
  | inl e ↦
      let (cs, k) = FoldsTo-apply_all (apply st x).1 xs (rw (apply_all-cons st x xs e) at h) in
      rw (apply_all-cons st x xs e, k)
        (((apply st x).1, x) ∷ cs, after_event-applied (apply st x) x _ cs e)
  | inr (err, e) ↦ absurd (clash err (apply_all-refused st x xs err e) h)
]
  where
    clash : (err : EngineError) {o : Option EngineError} → o ≡ some err → o ≡ none → ⊥
    clash err p q = cc
