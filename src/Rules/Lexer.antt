-- ===== src/Rules/Lexer.antt =====
-- The lexer of internal/rules/expr.go. It walks the source by characters: it stops at the first one
-- that is not ASCII, so every position it reaches counts bytes too.
use Prim.Native.String.{String}
use vtt_platform.Prelude.{
  ℕ, suc, ◌+◌, ◌-◌, ◌*◌, ◌^◌, code, Bool, false, not, ◌&&◌, ◌||◌, Option, none, some, ltb, leb,
  nat_eq, if◌then◌else◌,
}
use vtt_platform.Prelude.Int.{ℤ, pos, ltb_ℤ}
use vtt_platform.Rules.Result.{
  Result, ok, fail, unexpected_character, literal_out_of_range, dice_count_out_of_bounds,
  dice_sides_out_of_bounds,
}

pub data TokenKind : Type 0 where
  tok_eof tok_at tok_hash tok_dot tok_lparen tok_rparen tok_comma : TokenKind
  tok_plus tok_minus tok_star tok_slash : TokenKind
  tok_int : ℤ → TokenKind
  tok_dice : ℤ → ℤ → TokenKind
  tok_ident : String → TokenKind

pub record Token : Type 0 where
  pub kind : TokenKind
  pub pos : ℕ

-- What is left of the source, and the position of its first byte.
pub record Lexer : Type 0 where
  pub rest : String
  pub pos : ℕ

abbrev pub is_digit : ℕ → Bool
is_digit c = leb b'0' c && leb c b'9'

abbrev pub is_ident_start : ℕ → Bool
is_ident_start c = nat_eq c b'_' || (leb b'A' c && leb c b'Z') || (leb b'a' c && leb c b'z')

abbrev pub is_ident_cont : ℕ → Bool
is_ident_cont c = is_ident_start c || is_digit c

abbrev pub is_space : ℕ → Bool
is_space c = nat_eq c b' ' || nat_eq c b'\t' || nat_eq c b'\n' || nat_eq c b'\r'

-- The loop that walks on while a class of characters lasts: the text it passes, its length, and
-- what is left.
pub record Walk : Type 0 where
  pub taken : String
  pub count : ℕ
  pub left : String

unfoldable pub walk : (ℕ → Bool) → String → Walk
walk holds String.[] = record { taken = String.[]; count = 0; left = String.[] }
walk holds (String.◌∷◌ c s) =
    let r = walk holds s in
    if holds (code c)
    then record { taken = String.◌∷◌ c r.taken; count = suc r.count; left = r.left }
    else record { taken = String.[]; count = 0; left = String.◌∷◌ c s }

unfoldable pub digits_value : ℕ → String → ℕ
digits_value n String.[] = n
digits_value n (String.◌∷◌ c s) = digits_value (n * 10 + (code c - b'0')) s

-- strconv.Atoi on a run of digits: `none` is its range error.
unfoldable pub atoi : String → Option ℤ
unfolding digits_value
atoi s = let n = digits_value 0 s in if ltb n (2 ^ 63) then some (pos n) else none

abbrev pub min_dice_count : ℤ
min_dice_count = pos 1

abbrev pub max_dice_count : ℤ
max_dice_count = pos 100

abbrev pub min_dice_sides : ℤ
min_dice_sides = pos 1

abbrev pub max_dice_sides : ℤ
max_dice_sides = pos 1000

abbrev pub count_in_bounds : ℤ → Bool
count_in_bounds n = not (ltb_ℤ n min_dice_count || ltb_ℤ max_dice_count n)

abbrev pub sides_in_bounds : ℤ → Bool
sides_in_bounds n = not (ltb_ℤ n min_dice_sides || ltb_ℤ max_dice_sides n)

abbrev pub token : TokenKind → ℕ → ℕ → String → Token × Lexer
token kind start end rest = (record { kind = kind; pos = start }, record { rest = rest; pos = end })

-- A 'd' with a digit behind it.
abbrev pub dice_follows : String → Bool
dice_follows (String.◌∷◌ d (String.◌∷◌ c s)) = nat_eq (code d) b'd' && is_digit (code c)
dice_follows _ = false

abbrev pub past_first : String → String
past_first String.[] = String.[]
past_first (String.◌∷◌ c s) = s

-- The second half of lexNumber: the sides of a dice literal, from the position behind the 'd'.
unfoldable pub lex_sides : ℕ → ℤ → ℕ → Walk → Result (Token × Lexer)
unfolding atoi
lex_sides start count sides_start w = elim (atoi w.taken) [
  | none ↦ fail sides_start literal_out_of_range
  | some sides ↦
      if not (count_in_bounds count)
      then fail start dice_count_out_of_bounds
      else if not (sides_in_bounds sides)
      then fail sides_start dice_sides_out_of_bounds
      else ok (token (tok_dice count sides) start (sides_start + w.count) w.left)
]

unfoldable pub lex_number : ℕ → Walk → Result (Token × Lexer)
unfolding lex_sides walk
lex_number start w = elim (atoi w.taken) [
  | none ↦ fail start literal_out_of_range
  | some count ↦
      if dice_follows w.left
      then lex_sides start count (start + w.count + 1) (walk is_digit (past_first w.left))
      else ok (token (tok_int count) start (start + w.count) w.left)
]

unfoldable pub lex_ident : ℕ → Walk → Result (Token × Lexer)
lex_ident start w = ok (token (tok_ident w.taken) start (start + w.count) w.left)

-- The single characters of the switch in `next`.
unfoldable pub punctuation : ℕ → Option TokenKind
punctuation c =
    if nat_eq c b'@'
    then some tok_at
    else if nat_eq c b'#'
    then some tok_hash
    else if nat_eq c b'.'
    then some tok_dot
    else if nat_eq c b'('
    then some tok_lparen
    else if nat_eq c b')'
    then some tok_rparen
    else if nat_eq c b','
    then some tok_comma
    else if nat_eq c b'+'
    then some tok_plus
    else if nat_eq c b'-'
    then some tok_minus
    else if nat_eq c b'*'
    then some tok_star
    else if nat_eq c b'/'
    then some tok_slash
    else none

-- The switch of `next`, past the spaces.
unfoldable pub lex_at : ℕ → String → Result (Token × Lexer)
unfolding lex_number lex_ident punctuation
lex_at start String.[] = ok (token tok_eof start start String.[])
lex_at start (String.◌∷◌ c s) =
    if is_digit (code c)
    then lex_number start (walk is_digit (String.◌∷◌ c s))
    else if is_ident_start (code c)
    then lex_ident start (walk is_ident_cont (String.◌∷◌ c s))
    else elim (punctuation (code c)) [
      | none ↦ fail start unexpected_character
      | some kind ↦ ok (token kind start (start + 1) s)
    ]

unfoldable pub next : Lexer → Result (Token × Lexer)
unfolding lex_at walk
next l = let w = walk is_space l.rest in lex_at (l.pos + w.count) w.left
