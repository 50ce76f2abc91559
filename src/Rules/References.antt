-- ===== src/Rules/References.antt =====
-- Refs lists every name that the evaluation of an expression looks up.
use vtt_platform.Prelude.{
  ◌≡◌, refl, ap, true, Option, arith, String, List, [], ◌∷◌, eq_iff, contains, contains-append,
}
use vtt_platform.Go.GoMap.{get}
use vtt_platform.Rules.Syntax.{
  Node, Args, Sigil, at, hash, Scope, scope_none, scope_caster, scope_target, int, dice, ref,
  bin_op, func, no_args, arg, Seen, see, refs, refs_from, refs_of_args,
}
use vtt_platform.Rules.Eval.{
  Roller, Outcome, value, error, and_then, eval_tree, eval_args, EvalContext, look_up,
  resolve_single, eval, known,
}

-- The names under a sigil.
abbrev names : Sigil → Seen → List String
names at seen = seen.attrs
names hash seen = seen.resources

-- Collecting more keeps what was collected.
abbrev Grows : Seen → Seen → Type 0
Grows a b =
    (g : Sigil) (id : String) → contains (names g a) id ≡ true → contains (names g b) id ≡ true

see-Grows : (seen : Seen) (g : Sigil) (id : String) → Grows seen (see seen g id)
unfolding see
see-Grows seen at id at k h = ground (arith, contains-append seen.attrs (id ∷ []) k)
see-Grows seen at id hash k h = h
see-Grows seen hash id at k h = h
see-Grows seen hash id hash k h = ground (arith, contains-append seen.resources (id ∷ []) k)

contains-see :
    (seen : Seen) (g : Sigil) (id : String) → contains (names g (see seen g id)) id ≡ true
unfolding see
contains-see seen at id = ground (arith, contains-append seen.attrs (id ∷ []) id, eq_iff id id)
contains-see seen hash id =
    ground (arith, contains-append seen.resources (id ∷ []) id, eq_iff id id)

mutual
  unfolding refs_from

  refs_from-Grows : (seen : Seen) (n : Node) → Grows seen (refs_from seen n)
  refs_from-Grows seen (int n) g id h = h
  refs_from-Grows seen (dice n s) g id h =
      refs_from-Grows (refs_from seen n) s g id (refs_from-Grows seen n g id h)
  refs_from-Grows seen (ref g s i) k id h = see-Grows seen g i k id h
  refs_from-Grows seen (bin_op o n s) g id h =
      refs_from-Grows (refs_from seen n) s g id (refs_from-Grows seen n g id h)
  refs_from-Grows seen (func f xs) g id h = refs_of_args-Grows seen xs g id h

  refs_of_args-Grows : (seen : Seen) (xs : Args) → Grows seen (refs_of_args seen xs)
  refs_of_args-Grows seen no_args g id h = h
  refs_of_args-Grows seen (arg x xs) g id h =
      refs_of_args-Grows (refs_from seen x) xs g id (refs_from-Grows seen x g id h)

-- Two actors have the same numbers under every name that was collected.
abbrev HaveSame : EvalContext → EvalContext → Seen → Type 0
HaveSame c d seen =
    (g : Sigil) (id : String) → contains (names g seen) id ≡ true → look_up c g id ≡ look_up d g id

and_then-same {ℓ κ} :
    {Gen : Type 0} {A : Type ℓ} {B : Type κ} (o o' : Outcome A × Gen)
    → (next next' : A → Gen → Outcome B × Gen) → o ≡ o'
    → ((a : A) (g : Gen) → next a g ≡ next' a g)
    → and_then o next ≡ and_then o' next'
and_then-same o (value a, g) next next' h k = rw h (k a g)
and_then-same o (error e, g) next next' h k = rw h refl

resolve_single-same :
    (c d : EvalContext) (g : Sigil) (s : Scope) (id : String)
    → look_up c g id ≡ look_up d g id
    → resolve_single c g s id ≡ resolve_single d g s id
unfolding resolve_single
resolve_single-same c d g scope_none id h = h
resolve_single-same c d g scope_caster id h = refl
resolve_single-same c d g scope_target id h = refl

module _ {Gen : Type 0} (c d : EvalContext) (roller : Option (Roller Gen)) where
  mutual
    unfolding eval_tree refs_from

    same_tree :
        (n : Node) (seen : Seen) (g : Gen)
        → HaveSame c d (refs_from seen n)
        → eval_tree (resolve_single c) roller n g ≡ eval_tree (resolve_single d) roller n g
    same_tree (int n) seen g h = refl
    same_tree (ref s scope id) seen g h =
        ap (λ o. (o, g)) (resolve_single-same c d s scope id (h s id (contains-see seen s id)))
    same_tree (dice n s) seen g h =
        and_then-same _ _ _ _
          (same_tree n seen g (λ k id m. h k id (refs_from-Grows (refs_from seen n) s k id m)))
          (λ a g₁. and_then-same _ _ _ _ (same_tree s (refs_from seen n) g₁ h) (λ b g₂. refl))
    same_tree (bin_op o n s) seen g h =
        and_then-same _ _ _ _
          (same_tree n seen g (λ k id m. h k id (refs_from-Grows (refs_from seen n) s k id m)))
          (λ a g₁. and_then-same _ _ _ _ (same_tree s (refs_from seen n) g₁ h) (λ b g₂. refl))
    same_tree (func name xs) seen g h =
        and_then-same _ _ _ _ (same_args xs seen g h) (λ vals g₁. refl)

    same_args :
        (xs : Args) (seen : Seen) (g : Gen)
        → HaveSame c d (refs_of_args seen xs)
        → eval_args (resolve_single c) roller xs g ≡ eval_args (resolve_single d) roller xs g
    same_args no_args seen g h = refl
    same_args (arg x xs) seen g h =
        and_then-same _ _ _ _
          (same_tree x seen g (λ k id m. h k id (refs_of_args-Grows (refs_from seen x) xs k id m)))
          (λ v g₁. and_then-same _ _ _ _ (same_args xs (refs_from seen x) g₁ h) (λ vals g₂. refl))

  same_numbers :
      (seen : Seen)
      → ((id : String) → contains seen.attrs id ≡ true → get c.attrs id ≡ get d.attrs id)
      → ((id : String)
          → contains seen.resources id ≡ true
          → get c.resources id ≡ get d.resources id)
      → HaveSame c d seen
  unfolding look_up
  same_numbers seen h k at id m = ap (known _) (h id m)
  same_numbers seen h k hash id m = ap (known _) (k id m)

  -- Refs names everything that an evaluation reads: two actors that agree on the attributes and the
  -- resources of `refs` get the same value or error, and the same rolls.
  pub eval-refs :
      (n : Node) (g : Gen)
      → ((id : String) → contains (refs n).attrs id ≡ true → get c.attrs id ≡ get d.attrs id)
      → ((id : String)
          → contains (refs n).resources id ≡ true
          → get c.resources id ≡ get d.resources id)
      → eval n c roller g ≡ eval n d roller g
  unfolding eval refs
  eval-refs n g h k =
      same_tree n (record { attrs = []; resources = [] }) g (same_numbers (refs n) h k)
