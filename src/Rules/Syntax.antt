-- ===== src/Rules/Syntax.antt =====
-- The syntax trees of internal/rules/expr.go and the walks over them.
use vtt_platform.Prelude.{
  String, Bool, true, false, ◌||◌, List, [], ◌∷◌, ◌++◌, ◌==◌, Option, none, some, contains,
  if◌then◌else◌,
}
use vtt_platform.Prelude.Int.{ℤ}

pub data Scope : Type 0 where
  scope_none scope_caster scope_target : Scope

unfoldable pub parse_scope_name : String → Option Scope
parse_scope_name s =
    if s == "caster" then some scope_caster else if s == "target" then some scope_target else none

-- The sigil of a reference: `@` of an attribute, `#` of a resource.
pub data Sigil : Type 0 where
  at hash : Sigil

pub data Op : Type 0 where
  plus minus times divide : Op

-- Node, one constructor for each nodeKind but the two kinds of reference, told apart by the sigil.
mutual
  pub data Node : Type 0 where
    int : ℤ → Node
    dice : Node → Node → Node
    ref : Sigil → Scope → String → Node
    bin_op : Op → Node → Node → Node
    func : String → Args → Node

  pub data Args : Type 0 where
    no_args : Args
    arg : Node → Args → Args

pub record ScopedRef : Type 0 where
  pub sigil : Sigil
  pub scope : Scope
  pub name : String

-- ScopedRefs: every reference in the order of the walk.
unfoldable mutual
  pub scoped_refs : Node → List ScopedRef
  scoped_refs (int n) = []
  scoped_refs (dice n s) = scoped_refs n ++ scoped_refs s
  scoped_refs (ref g s id) = record { sigil = g; scope = s; name = id } ∷ []
  scoped_refs (bin_op o l r) = scoped_refs l ++ scoped_refs r
  scoped_refs (func f xs) = scoped_refs_of xs

  pub scoped_refs_of : Args → List ScopedRef
  scoped_refs_of no_args = []
  scoped_refs_of (arg x xs) = scoped_refs x ++ scoped_refs_of xs

unfoldable mutual
  pub scopes : Node → List Scope
  scopes (int n) = []
  scopes (dice n s) = scopes n ++ scopes s
  scopes (ref g s id) = s ∷ []
  scopes (bin_op o l r) = scopes l ++ scopes r
  scopes (func f xs) = scopes_of xs

  pub scopes_of : Args → List Scope
  scopes_of no_args = []
  scopes_of (arg x xs) = scopes x ++ scopes_of xs

unfoldable mutual
  pub has_dice : Node → Bool
  has_dice (int n) = false
  has_dice (dice n s) = true
  has_dice (ref g s id) = false
  has_dice (bin_op o l r) = has_dice l || has_dice r
  has_dice (func f xs) = any_dice xs

  pub any_dice : Args → Bool
  any_dice no_args = false
  any_dice (arg x xs) = has_dice x || any_dice xs

-- What Refs has collected: the names of attributes and those of resources, each once.
pub record Seen : Type 0 where
  pub attrs : List String
  pub resources : List String

abbrev add_once : String → List String → List String
add_once id ids = if contains ids id then ids else ids ++ id ∷ []

unfoldable pub see : Seen → Sigil → String → Seen
see seen at id = record seen { attrs = add_once id seen.attrs }
see seen hash id = record seen { resources = add_once id seen.resources }

unfoldable mutual
  unfolding see

  pub refs_from : Seen → Node → Seen
  refs_from seen (int n) = seen
  refs_from seen (dice n s) = refs_from (refs_from seen n) s
  refs_from seen (ref g s id) = see seen g id
  refs_from seen (bin_op o l r) = refs_from (refs_from seen l) r
  refs_from seen (func f xs) = refs_of_args seen xs

  pub refs_of_args : Seen → Args → Seen
  refs_of_args seen no_args = seen
  refs_of_args seen (arg x xs) = refs_of_args (refs_from seen x) xs

unfoldable pub refs : Node → Seen
unfolding refs_from
refs n = refs_from (record { attrs = []; resources = [] }) n
