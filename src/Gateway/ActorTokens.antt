-- ===== src/Gateway/ActorTokens.antt =====
-- The ids of an actor's tokens, as handleRemoveActor of internal/gateway/server.go collects them.
use vtt_platform.Prelude.{
  String, ◌≡◌, refl, ap, subst, ◌∙◌, true, false, not, ◌||◌, Option, none, some, List, [], ◌∷◌,
  ◌==◌, All, arith, eq_iff, Bool-cases, inl, inr, if◌then◌else◌,
}
use vtt_platform.Go.GoMap.{lookup, UniqueKeys}
use vtt_platform.Go.Text.{str_lt}
use vtt_platform.Go.Sort.{sort_by, insert_by, has_key, has_key-insert_by, has_key-sort_by}
use vtt_platform.Engine.State.{Token}
use vtt_platform.Engine.Apply.Actors.{standing_token}
use vtt_platform.Rules.Checks.{token_ids}

abbrev pub by_itself : String → String
by_itself id = id

-- No id stands twice.
abbrev pub AreApart : List String → Type 0
AreApart [] = Unit
AreApart (a ∷ l) = (has_key by_itself a l ≡ false) × AreApart l

insert_by-AreApart :
    (a : String) (l : List String)
    → has_key by_itself a l ≡ false
    → AreApart l
    → AreApart (insert_by by_itself a l)
unfolding insert_by
insert_by-AreApart a [] h u = (refl, tt)
insert_by-AreApart a (b ∷ l) h u = elim (Bool-cases (str_lt b a)) [
  | inl e ↦ rw e (
    ground (arith, has_key-insert_by by_itself b a l, eq_iff a b, eq_iff b a),
    insert_by-AreApart a l (ground arith) u.1,
  )
  | inr e ↦ rw e (h, u)
]

pub sort_by-AreApart : (l : List String) → AreApart l → AreApart (sort_by by_itself l)
unfolding sort_by
sort_by-AreApart [] u = tt
sort_by-AreApart (a ∷ l) u =
    insert_by-AreApart a (sort_by by_itself l) (has_key-sort_by by_itself a l ∙ u.0)
      (sort_by-AreApart l u.1)

abbrev actor_or : String → Option Token → String
actor_or d none = d
actor_or d (some t) = t.actor_id

module _ (actor_id : String) where
  pub token_ids-none :
      (k : String) (l : List (String × Token))
      → lookup k l ≡ none
      → has_key by_itself k (token_ids actor_id "" l) ≡ false
  unfolding token_ids lookup
  token_ids-none k [] h = refl
  token_ids-none k ((j, t) ∷ l) h = ground (arith, token_ids-none k l)

  pub token_ids-AreApart :
      (l : List (String × Token)) → UniqueKeys l → AreApart (token_ids actor_id "" l)
  unfolding token_ids
  token_ids-AreApart [] u = tt
  token_ids-AreApart ((j, t) ∷ l) u = elim (Bool-cases (t.actor_id == actor_id)) [
    | inl e ↦ rw e (token_ids-none j l u.0, token_ids-AreApart l u.1)
    | inr e ↦ rw e (token_ids-AreApart l u.1)
  ]

  -- The ids are those of the actor's tokens.
  pub token_ids-tokens :
      (k : String) (tok : Token) (l : List (String × Token))
      → UniqueKeys l
      → lookup k l ≡ some tok
      → has_key by_itself k (token_ids actor_id "" l) ≡ (tok.actor_id == actor_id)
  unfolding token_ids lookup
  token_ids-tokens k tok [] u h = cc
  token_ids-tokens k tok ((j, t) ∷ l) u h = elim (Bool-cases (j == k)) [
    | inl e ↦ here e (rw e at h)
    | inr e ↦ ground (arith, token_ids-tokens k tok l u.1 (rw e at h), e)
  ]
    where
      gone : j == k ≡ true → has_key by_itself k (token_ids actor_id "" l) ≡ false
      gone e = token_ids-none k l (subst (λ x. lookup x l ≡ none) ((eq_iff j k).0 e) u.0)

      here :
          j == k ≡ true
          → some t ≡ some tok
          → has_key by_itself k (
              if not (t.actor_id == actor_id) || false
              then token_ids actor_id "" l
              else j ∷ token_ids actor_id "" l)
            ≡ (tok.actor_id == actor_id)
      here e q = ground (arith, gone e, e, ap (actor_or "") q)

  pub standing_token-none :
      (s : String) (l : List (String × Token))
      → All (λ e. (e.1.actor_id == actor_id) ≡ false) l
      → standing_token actor_id s l ≡ s
  unfolding standing_token
  standing_token-none s [] h = refl
  standing_token-none s ((j, t) ∷ l) h = rw h.0 (standing_token-none s l h.1)
