-- ===== src/Gateway/Removing.antt =====
-- The batch of handleRemoveActor of internal/gateway/server.go, folded by the engine.
use vtt_platform.Prelude.{
  String, ◌≡◌, ◌↔◌, refl, sym, subst, ◌∙◌, true, false, none, some, List, [], ◌∷◌, ◌==◌, map,
  is_some, arith, eq_iff, eq_refl, Option-cases, inl, inr, if◌then◌else◌,
}
use vtt_platform.Contract.Event.{Envelope, token_removed, actor_removed}
use vtt_platform.Go.GoMap.{
  Map, get, delete, get-delete, UniqueKeys, delete-UniqueKeys, All-of_lookup,
}
use vtt_platform.Go.Sort.{sort_by, has_key, has_key-sort_by}
use vtt_platform.Engine.State.{State, Token}
use vtt_platform.Engine.Apply.Tokens.{apply_token_removed}
use vtt_platform.Engine.Apply.Actors.{standing_token, apply_actor_removed}
use vtt_platform.Engine.Apply.Dispatch.{apply}
use vtt_platform.Rules.Checks.{token_ids}
use vtt_platform.Rules.Accepted.{Accepts, Accepts-append}
use vtt_platform.Gateway.Handle.{removals}
use vtt_platform.Gateway.ActorTokens.{
  by_itself, AreApart, sort_by-AreApart, token_ids-none, token_ids-AreApart, token_ids-tokens,
  standing_token-none,
}

delete_all : List String → Map Token → Map Token
delete_all [] m = m
delete_all (k ∷ ks) m = delete_all ks (delete m k)

get-delete_all :
    (ks : List String) (m : Map Token) (j : String)
    → get (delete_all ks m) j ≡ (if has_key by_itself j ks then none else get m j)
unfolding delete_all
get-delete_all [] m j = refl
get-delete_all (k ∷ ks) m j = ground (arith, get-delete_all ks (delete m k) j, get-delete m k j)

delete_all-UniqueKeys :
    (ks : List String) (m : Map Token) → UniqueKeys m.entries → UniqueKeys (delete_all ks m).entries
unfolding delete_all
delete_all-UniqueKeys [] m u = u
delete_all-UniqueKeys (k ∷ ks) m u = delete_all-UniqueKeys ks (delete m k) (delete-UniqueKeys m k u)

without : List String → State → State
without ks s = record s { tokens = delete_all ks s.tokens }

removed-done :
    (s : State) (k : String) (env : Envelope)
    → is_some (get s.tokens k) ≡ true
    → env.payload ≡ token_removed k
    → ((apply s env).0 ≡ none) × ((apply s env).1 ≡ record s { tokens = delete s.tokens k })
unfolding apply apply_token_removed
removed-done s k env h e = rw (e, h) (refl, refl)

-- Tokens that stand on the board, each named once, are removed one after the other.
tokens_removed-Accepts :
    (ks : List String) (s : State)
    → AreApart ks
    → ((k : String) → has_key by_itself k ks ≡ true → is_some (get s.tokens k) ≡ true)
    → Accepts (map token_removed ks) (λ t. t ≡ without ks s) s
unfolding without delete_all
tokens_removed-Accepts [] s u h = refl
tokens_removed-Accepts (k ∷ ks) s u h = λ env e.
    let (r, q) = removed-done s k env (h k (rw (eq_refl k) refl)) e in
    (
      r,
      subst (λ x. Accepts (map token_removed ks) (λ t. t ≡ without (k ∷ ks) s) x) (sym q)
          (tokens_removed-Accepts ks (record s { tokens = delete s.tokens k }) u.1
            (λ j i. ground (arith, get-delete s.tokens k j, h j, eq_iff k j, u.0, i))),
    )

actor_removed-done :
    (s : State) (id : String) (env : Envelope)
    → is_some (get s.actors id) ≡ true
    → standing_token id "" s.tokens.entries ≡ ""
    → env.payload ≡ actor_removed id
    → ((apply s env).0 ≡ none)
      × ((apply s env).1
          ≡ record s { actors = delete s.actors id; conditions = delete s.conditions id })
unfolding apply apply_actor_removed
actor_removed-done s id env a h e = rw (e, a, h) (refl, refl)

-- What handleRemoveActor leaves: the actor and its tokens gone, and every other token where it was.
pub IsWithoutActor : State → String → State → Type 0
IsWithoutActor st id t =
    (is_some (get t.actors id) ≡ false)
    × ((k : String) (tok : Token)
        → (get t.tokens k ≡ some tok)
          ↔ ((get st.tokens k ≡ some tok) × ((tok.actor_id == id) ≡ false)))

module _ (st : State) (id : String) (u : UniqueKeys st.tokens.entries) where
  abbrev ids : List String
  ids = sort_by by_itself (token_ids id "" st.tokens.entries)

  kept_token :
      (k : String) (tok : Token)
      → (get (without ids st).tokens k ≡ some tok)
        ↔ ((get st.tokens k ≡ some tok) × ((tok.actor_id == id) ≡ false))
  unfolding without get
  kept_token k tok = (
    (λ h. let q = was h in (q, ground (arith, get-delete_all ids st.tokens k, ids_lem q, h))),
    (λ (q, n). ground (arith, get-delete_all ids st.tokens k, ids_lem q, q, n)),
  )
    where
      was : get (delete_all ids st.tokens) k ≡ some tok → get st.tokens k ≡ some tok
      was h = ground (arith, get-delete_all ids st.tokens k, h)

      ids_lem : get st.tokens k ≡ some tok → has_key by_itself k ids ≡ (tok.actor_id == id)
      ids_lem q =
          has_key-sort_by by_itself k (token_ids id "" st.tokens.entries)
          ∙ token_ids-tokens id k tok st.tokens.entries u q

  none_standing : standing_token id "" (without ids st).tokens.entries ≡ ""
  unfolding without get
  none_standing = standing_token-none id "" (delete_all ids st.tokens).entries (
      All-of_lookup (λ e. (e.1.actor_id == id) ≡ false) (delete_all ids st.tokens).entries
        (delete_all-UniqueKeys ids st.tokens u) (λ k tok h. ((kept_token k tok).0 h).1))

  ids_stand : (k : String) → has_key by_itself k ids ≡ true → is_some (get st.tokens k) ≡ true
  unfolding get
  ids_stand k h = elim (Option-cases (get st.tokens k)) [
    | inl e ↦ ground (
      arith,
      token_ids-none id k st.tokens.entries e,
      has_key-sort_by by_itself k (token_ids id "" st.tokens.entries),
      h,
    )
    | inr (tok, e) ↦ rw e refl
  ]

  actor_goes :
      (env : Envelope)
      → is_some (get st.actors id) ≡ true
      → env.payload ≡ actor_removed id
      → ((apply (without ids st) env).0 ≡ none)
        × IsWithoutActor st id (apply (without ids st) env).1
  unfolding without IsWithoutActor
  actor_goes env a e =
      let (r, q) = actor_removed-done (without ids st) id env a none_standing e in
      (
        r,
        subst (IsWithoutActor st id) (sym q)
            (ground (arith, get-delete st.actors id id, eq_refl id), kept_token),
      )

-- For a state in which each token id stands once, and an actor that it holds: the engine folds the
-- batch that handleRemoveActor makes without an error, however its envelopes are stamped; the
-- actor is then gone, and the tokens on the board are those that stood there less the actor's.
pub removals-IsWithoutActor :
    (st : State) (id : String)
    → UniqueKeys st.tokens.entries
    → is_some (get st.actors id) ≡ true
    → Accepts (removals st id) (IsWithoutActor st id) st
unfolding removals
removals-IsWithoutActor st id u a =
    Accepts-append (map token_removed (ids st id u)) (actor_removed id ∷ [])
      (λ t. t ≡ without (ids st id u) st) (IsWithoutActor st id) st
      (tokens_removed-Accepts (ids st id u) st
        (sort_by-AreApart (token_ids id "" st.tokens.entries)
          (token_ids-AreApart id st.tokens.entries u))
        (ids_stand st id u))
      (λ t q env e.
        subst (λ x. ((apply x env).0 ≡ none) × IsWithoutActor st id (apply x env).1) (sym q)
          (actor_goes st id u env a e))
