-- ===== src/Rules/Parser.antt =====
-- The recursive-descent parser of internal/rules/expr.go. What a call leaves of the source is no
-- structural part of it, so a call costs a unit of fuel. The depth is passed down, where the code
-- counts it up and down again.
use Prim.Native.String.{String}
use vtt_platform.Prelude.{
  ℕ, zero, suc, ◌+◌, ◌*◌, code, Bool, true, false, not, ◌&&◌, ◌||◌, ◌==◌, Option, none, some, ltb,
  nat_eq, if◌then◌else◌,
}
use vtt_platform.Rules.Syntax.{
  Node, Args, int, dice, ref, bin_op, func, no_args, arg, Op, plus, minus, times, divide, Sigil, at,
  hash, scope_none, parse_scope_name,
}
use vtt_platform.Rules.Result.{
  Result, ok, out_of_fuel, fail, ◌>>=◌, literal_out_of_range, dice_count_out_of_bounds,
  dice_sides_out_of_bounds, trailing_input, nested_too_deeply, ambiguous_dice_chain,
  expected_rparen, expected_expression, expected_identifier, expected_identifier_after_dot,
  unknown_scope, bare_identifier, unknown_function, expected_rparen_or_comma, wrong_arity,
}
use vtt_platform.Rules.Lexer.{
  Lexer, Token, TokenKind, tok_eof, tok_at, tok_hash, tok_dot, tok_lparen, tok_rparen, tok_comma,
  tok_plus, tok_minus, tok_star, tok_slash, tok_int, tok_dice, tok_ident, next, atoi,
  count_in_bounds, sides_in_bounds, is_digit,
}

abbrev pub max_expr_depth : ℕ
max_expr_depth = 200

pub record Parser : Type 0 where
  pub lex : Lexer
  pub tok : Token

unfoldable pub advance : Parser → Result Parser
unfolding next
advance p = do (t, l) ← next p.lex; ok (record { lex = l; tok = t })

abbrev pub is_eof : TokenKind → Bool
is_eof tok_eof = true
is_eof _ = false

abbrev pub is_rparen : TokenKind → Bool
is_rparen tok_rparen = true
is_rparen _ = false

abbrev pub is_lparen : TokenKind → Bool
is_lparen tok_lparen = true
is_lparen _ = false

abbrev pub is_comma : TokenKind → Bool
is_comma tok_comma = true
is_comma _ = false

abbrev pub is_dot : TokenKind → Bool
is_dot tok_dot = true
is_dot _ = false

abbrev pub name_of : TokenKind → Option String
name_of (tok_ident s) = some s
name_of _ = none

abbrev pub add_op : TokenKind → Option Op
add_op tok_plus = some plus
add_op tok_minus = some minus
add_op _ = none

abbrev pub mul_op : TokenKind → Option Op
mul_op tok_star = some times
mul_op tok_slash = some divide
mul_op _ = none

-- The arity of a function: exactly `exact` arguments, or at least `min` where `exact` is 0.
pub record Arity : Type 0 where
  pub exact : ℕ
  pub min : ℕ

unfoldable pub func_arity : String → Option Arity
func_arity name =
    if name == "floor" || name == "half"
    then some (record { exact = 1; min = 0 })
    else if name == "max" || name == "min"
    then some (record { exact = 0; min = 2 })
    else none

unfoldable pub length_args : Args → ℕ
length_args no_args = 0
length_args (arg x xs) = suc (length_args xs)

unfoldable pub fits : Arity → ℕ → Bool
fits a n = not (ltb 0 a.exact && not (nat_eq n a.exact)) && not (ltb 0 a.min && ltb n a.min)

-- What an identifier behind a primary is: no dice operator, a bare d, or d with the digits behind it.
pub data DiceOp : Type 0 where
  no_dice bare_d : DiceOp
  fused : String → DiceOp

unfoldable pub all_digits : String → Bool
all_digits String.[] = true
all_digits (String.◌∷◌ c s) = is_digit (code c) && all_digits s

unfoldable pub dice_op_suffix : String → DiceOp
unfolding all_digits
dice_op_suffix String.[] = no_dice
dice_op_suffix (String.◌∷◌ d String.[]) = if nat_eq (code d) b'd' then bare_d else no_dice
dice_op_suffix (String.◌∷◌ d (String.◌∷◌ c s)) =
    if nat_eq (code d) b'd' && all_digits (String.◌∷◌ c s) then fused (String.◌∷◌ c s) else no_dice

unfoldable pub dice_op : TokenKind → DiceOp
unfolding dice_op_suffix
dice_op (tok_ident s) = dice_op_suffix s
dice_op _ = no_dice

abbrev pub is_dice_op : DiceOp → Bool
is_dice_op no_dice = false
is_dice_op _ = true

abbrev pub is_dice : Node → Bool
is_dice (dice n s) = true
is_dice _ = false

-- A bare integer is checked where it is read; what else stands there, when it is evaluated.
abbrev pub literal_count_ok : Node → Bool
literal_count_ok (int n) = count_in_bounds n
literal_count_ok _ = true

abbrev pub literal_sides_ok : Node → Bool
literal_sides_ok (int n) = sides_in_bounds n
literal_sides_ok _ = true

-- A primary, whether it came through parentheses, and the parser behind it.
pub record Primary : Type 0 where
  pub node : Node
  pub via_paren : Bool
  pub parser : Parser

abbrev pub plain : Node × Parser → Result Primary
plain (n, p) = ok (record { node = n; via_paren = false; parser = p })

unfoldable pub named_ref : Sigil → Parser → String → Result (Node × Parser)
unfolding advance parse_scope_name
named_ref g p name = do
  q ← advance p
  if is_dot q.tok.kind
      then elim (parse_scope_name name) [
        | none ↦ fail p.tok.pos unknown_scope
        | some scope ↦ do
          r ← advance q
          elim (name_of r.tok.kind) [
            | none ↦ fail q.tok.pos expected_identifier_after_dot
            | some inner ↦ do t ← advance r; ok (ref g scope inner, t)
          ]
      ]
      else ok (ref g scope_none name, q)

unfoldable pub parse_ref : Sigil → Parser → Result (Node × Parser)
unfolding named_ref
parse_ref g p = do
  q ← advance p
  elim (name_of q.tok.kind) [
    | none ↦ fail p.tok.pos expected_identifier
    | some name ↦ named_ref g q name
  ]

-- The end of parseFactor: no second dice operator may follow.
unfoldable pub end_dice : Node → Node → Parser → Result (Node × Parser)
unfolding dice_op
end_dice count sides p =
    if is_dice_op (dice_op p.tok.kind)
    then fail p.tok.pos ambiguous_dice_chain
    else ok (dice count sides, p)

-- The sides operand that is a primary, with the position where it starts.
unfoldable pub check_sides : Node → ℕ → Primary → Result (Node × Parser)
unfolding end_dice
check_sides count sides_pos s =
    if is_dice s.node && not s.via_paren
    then fail sides_pos ambiguous_dice_chain
    else if not (literal_sides_ok s.node)
    then fail sides_pos dice_sides_out_of_bounds
    else end_dice count s.node s.parser

-- The sides that stand in the operator's own token.
unfoldable pub fused_sides : Node → String → Parser → Result (Node × Parser)
unfolding end_dice advance atoi
fused_sides count digits p = elim (atoi digits) [
  | none ↦ fail (p.tok.pos + 1) literal_out_of_range
  | some n ↦
      if not (sides_in_bounds n)
      then fail (p.tok.pos + 1) dice_sides_out_of_bounds
      else do q ← advance p; end_dice count (int n) q
]

abbrev pub check_count : ℕ → Primary → Result (Node × Parser) → Result (Node × Parser)
check_count left_pos left more =
    if is_dice left.node && not left.via_paren
    then fail left_pos ambiguous_dice_chain
    else if not (literal_count_ok left.node)
    then fail left_pos dice_count_out_of_bounds
    else more

-- The end of parseFuncCall, behind its arguments.
unfoldable pub end_call : String → Arity → ℕ → Args → Parser → Result Primary
unfolding advance fits length_args
end_call name arity name_pos xs p =
    if not (is_rparen p.tok.kind) then fail p.tok.pos expected_rparen_or_comma else do
      q ← advance p
      if not (fits arity (length_args xs))
          then fail name_pos wrong_arity
          else plain (func name xs, q)

unfoldable pub end_paren : Node → Parser → Result Primary
unfolding advance
end_paren inner p =
    if not (is_rparen p.tok.kind)
    then fail p.tok.pos expected_rparen
    else do q ← advance p; ok (record { node = inner; via_paren = true; parser = q })

unfoldable mutual
  unfolding advance dice_op check_sides fused_sides parse_ref end_call end_paren func_arity

  pub parse_expr : ℕ → ℕ → Parser → Result (Node × Parser)
  parse_expr zero depth p = out_of_fuel
  parse_expr (suc f) depth p =
      let more = do (left, q) ← parse_term f (suc depth) p; expr_loop f (suc depth) left q
      in if ltb max_expr_depth (suc depth) then fail p.tok.pos nested_too_deeply else more

  pub expr_loop : ℕ → ℕ → Node → Parser → Result (Node × Parser)
  expr_loop zero depth left p = out_of_fuel
  expr_loop (suc f) depth left p = elim (add_op p.tok.kind) [
    | none ↦ ok (left, p)
    | some o ↦ do
      q ← advance p
      (right, r) ← parse_term f depth q
      expr_loop f depth (bin_op o left right) r
  ]

  pub parse_term : ℕ → ℕ → Parser → Result (Node × Parser)
  parse_term zero depth p = out_of_fuel
  parse_term (suc f) depth p = do (left, q) ← parse_factor f depth p; term_loop f depth left q

  pub term_loop : ℕ → ℕ → Node → Parser → Result (Node × Parser)
  term_loop zero depth left p = out_of_fuel
  term_loop (suc f) depth left p = elim (mul_op p.tok.kind) [
    | none ↦ ok (left, p)
    | some o ↦ do
      q ← advance p
      (right, r) ← parse_factor f depth q
      term_loop f depth (bin_op o left right) r
  ]

  pub parse_factor : ℕ → ℕ → Parser → Result (Node × Parser)
  parse_factor zero depth p = out_of_fuel
  parse_factor (suc f) depth p =
      let more = do
        left ← parse_primary f (suc depth) p.tok.kind p
        factor_end f (suc depth) p.tok.pos left (dice_op left.parser.tok.kind)
      in if ltb max_expr_depth (suc depth) then fail p.tok.pos nested_too_deeply else more

  pub factor_end : ℕ → ℕ → ℕ → Primary → DiceOp → Result (Node × Parser)
  factor_end zero depth left_pos left o = out_of_fuel
  factor_end (suc f) depth left_pos left no_dice = ok (left.node, left.parser)
  factor_end (suc f) depth left_pos left bare_d = check_count left_pos left do
    q ← advance left.parser
    s ← parse_primary f depth q.tok.kind q
    check_sides left.node q.tok.pos s
  factor_end (suc f) depth left_pos left (fused digits) =
      check_count left_pos left (fused_sides left.node digits left.parser)

  pub parse_primary : ℕ → ℕ → TokenKind → Parser → Result Primary
  parse_primary zero depth kind p = out_of_fuel
  parse_primary (suc f) depth (tok_int n) p = do q ← advance p; plain (int n, q)
  parse_primary (suc f) depth (tok_dice n s) p = do q ← advance p; plain (dice (int n) (int s), q)
  parse_primary (suc f) depth tok_at p = parse_ref at p >>= plain
  parse_primary (suc f) depth tok_hash p = parse_ref hash p >>= plain
  parse_primary (suc f) depth (tok_ident name) p = do
    q ← advance p
    if not (is_lparen q.tok.kind) then fail p.tok.pos bare_identifier else elim (func_arity name) [
      | none ↦ fail p.tok.pos unknown_function
      | some arity ↦ parse_call f depth name arity p.tok.pos q
    ]
  parse_primary (suc f) depth tok_lparen p = do
    q ← advance p
    (inner, r) ← parse_expr f depth q
    end_paren inner r
  parse_primary (suc f) depth _ p = fail p.tok.pos expected_expression

  -- The arguments of a call, from its parenthesis.
  pub parse_call : ℕ → ℕ → String → Arity → ℕ → Parser → Result Primary
  parse_call zero depth name arity name_pos p = out_of_fuel
  parse_call (suc f) depth name arity name_pos p = do
    q ← advance p
    (first, r) ← parse_expr f depth q
    (xs, t) ← args_loop f depth r
    end_call name arity name_pos (arg first xs) t

  pub args_loop : ℕ → ℕ → Parser → Result (Args × Parser)
  args_loop zero depth p = out_of_fuel
  args_loop (suc f) depth p =
      let more = do
        q ← advance p
        (x, r) ← parse_expr f depth q
        (xs, t) ← args_loop f depth r
        ok (arg x xs, t)
      in if is_comma p.tok.kind then more else ok (no_args, p)

unfoldable pub chars : String → ℕ
chars String.[] = 0
chars (String.◌∷◌ c s) = suc (chars s)

-- The parser before its first advance; its token is Go's zero token.
abbrev pub initial : String → Parser
initial s = record { lex = record { rest = s; pos = 0 }; tok = record { kind = tok_eof; pos = 0 } }

unfoldable pub finish : Node × Parser → Result Node
finish (root, p) = if is_eof p.tok.kind then ok root else fail p.tok.pos trailing_input

-- Four units of fuel for each character, and four more.
unfoldable pub parse : String → Result Node
unfolding advance parse_expr finish chars
parse s = do p ← advance (initial s); r ← parse_expr (4 * chars s + 4) 0 p; finish r
