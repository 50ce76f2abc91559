-- ===== src/Engine/Effects.antt =====
-- The effects on an actor: resources and conditions.
use vtt_platform.Prelude.{
  ℕ, suc, ◌+◌, String, true, false, ◌≡◌, refl, sym, ap, ◌∙◌, length, none, some, List, [], ◌∷◌,
  ◌++◌, ◌==◌, arith, is_some, if◌then◌else◌, Bool-cases, inl, inr, eq_iff, eq_refl,
}
use vtt_platform.Prelude.Int.{ℤ, pos, ltb_ℤ, ◌+ℤ◌}
use vtt_platform.Go.GoMap.{get, put, get-put}
use vtt_platform.Contract.Event.{Resource, Envelope, ConditionApplied, ConditionRemoved}
use vtt_platform.Engine.State.{State, ActorCondition, conditions_of}
use vtt_platform.Engine.Apply.Outcome.{done}
use vtt_platform.Engine.Apply.Pools.{
  has_condition, apply_condition_applied, index_of, cut, apply_condition_removed,
}

-- The specification of the pool after a change: 0 where the sum is below 0, the maximum where that
-- is positive and the sum is over it, and the plain sum elsewhere.
pub record IsClamped (res : Resource) (delta value : ℤ) : Type 0 where
  pub floored : ltb_ℤ (res.current +ℤ delta) (pos 0) ≡ true → value ≡ pos 0
  pub capped :
      ltb_ℤ (pos 0) res.max ≡ true → ltb_ℤ res.max (res.current +ℤ delta) ≡ true → value ≡ res.max
  pub exact :
      ltb_ℤ (res.current +ℤ delta) (pos 0) ≡ false
      → (ltb_ℤ (pos 0) res.max ≡ true → ltb_ℤ res.max (res.current +ℤ delta) ≡ false)
      → value ≡ res.current +ℤ delta

index_of-append :
    (n : ℕ) (id : String) (l : List ActorCondition) (c : ActorCondition)
    → has_condition id l ≡ false
    → c.id ≡ id
    → index_of n id (l ++ c ∷ []) ≡ some (n + length l)
unfolding index_of has_condition
index_of-append n id [] c h e = ground (arith, eq_iff c.id id)
index_of-append n id (d ∷ l) c h e = ground (arith, index_of-append (suc n) id l c, eq_iff d.id id)

cut-append : (l : List ActorCondition) (c : ActorCondition) → cut (length l) (l ++ c ∷ []) ≡ l
unfolding cut
cut-append [] c = refl
cut-append (d ∷ l) c = ap (λ r. d ∷ r) (cut-append l c)

pub conditions_of-put :
    (st : State) (id k : String) (l : List ActorCondition)
    → conditions_of (record st { conditions = put st.conditions id l }) k
      ≡ (if id == k then l else conditions_of st k)
unfolding conditions_of
conditions_of-put st id k l = ground (arith, get-put st.conditions id k l)

-- The state an accepted application leaves.
applied_conditions :
    (st : State) (env : Envelope) (ca : ConditionApplied)
    → (apply_condition_applied st env ca).0 ≡ none
    → (c : ActorCondition) × (c.id ≡ ca.condition_id)
      × (has_condition ca.condition_id (conditions_of st ca.actor_id) ≡ false)
      × (is_some (get st.actors ca.actor_id) ≡ true)
      × ((apply_condition_applied st env ca).1 ≡ record st {
        conditions = put st.conditions ca.actor_id (conditions_of st ca.actor_id ++ c ∷ []);
      })
unfolding apply_condition_applied
applied_conditions st env ca h = (
  record { id = ca.condition_id; source = ca.source; applied_seq = env.sequence },
  refl,
  ground arith,
  ground arith,
  ground arith,
)

removed_last :
    (st : State) (cr : ConditionRemoved) (l : List ActorCondition) (x : ActorCondition)
    → is_some (get st.actors cr.actor_id) ≡ true
    → conditions_of st cr.actor_id ≡ l ++ x ∷ []
    → has_condition cr.condition_id l ≡ false
    → x.id ≡ cr.condition_id
    → apply_condition_removed st cr
      ≡ done (record st { conditions = put st.conditions cr.actor_id l })
unfolding apply_condition_removed
removed_last st cr l x s c n e =
    rw (s, c, index_of-append 0 cr.condition_id l x n e)
      (ap (λ r. done (record st { conditions = put st.conditions cr.actor_id r })) cut_at)
  where
    cut_at : cut (0 + length l) (conditions_of st cr.actor_id) ≡ l
    cut_at = rw c (ap (λ n. cut n (l ++ x ∷ [])) (omega arith) ∙ cut-append l x)

restored :
    (st : State) (id k : String) (l : List ActorCondition)
    → (if id == k then conditions_of st id else (if id == k then l else conditions_of st k))
      ≡ conditions_of st k
restored st id k l = elim (Bool-cases (id == k)) [
  | inl e ↦ rw e (ap (conditions_of st) ((eq_iff id k).0 e))
  | inr e ↦ rw e refl
]

-- A condition that was applied can be removed: after an accepted application the removal of the
-- condition is accepted, and leaves every actor with the conditions it had before.
pub condition_round_trip :
    (st : State) (env : Envelope) (ca : ConditionApplied) (cr : ConditionRemoved) (k : String)
    → (apply_condition_applied st env ca).0 ≡ none
    → cr.actor_id ≡ ca.actor_id
    → cr.condition_id ≡ ca.condition_id
    → ((apply_condition_removed (apply_condition_applied st env ca).1 cr).0 ≡ none)
      × (conditions_of (apply_condition_removed (apply_condition_applied st env ca).1 cr).1 k
          ≡ conditions_of st k)
condition_round_trip st env ca cr k h a c =
    let (x, e, n, s, q) = applied_conditions st env ca h in
    let l = conditions_of st ca.actor_id in
    let mid = record st { conditions = put st.conditions ca.actor_id (l ++ x ∷ []) } in
    let here = conditions_of-put st ca.actor_id cr.actor_id (l ++ x ∷ []) in
    rw
      (
        q,
        removed_last mid cr l x (rw a s) (here ∙ rw (a, eq_refl ca.actor_id) refl) (rw c n)
            (e ∙ sym c),
      )
      (
        refl,
        conditions_of-put mid cr.actor_id k l
            ∙ rw (a, conditions_of-put st ca.actor_id k (l ++ x ∷ []))
                (restored st ca.actor_id k (l ++ x ∷ [])),
      )
