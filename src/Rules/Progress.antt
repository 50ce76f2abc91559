-- ===== src/Rules/Progress.antt =====
-- What a call of the lexer leaves of the source.
use Prim.Native.String.{String}
use vtt_platform.Prelude.{
  ℕ, suc, ◌+◌, ◌^◌, ◌≤◌, ◌<◌, Char, code, not, ◌≡◌, Bool, true, Option, none, some, arith, inl, inr,
  Option-cases, if◌then◌else◌,
}
use vtt_platform.Prelude.Int.{ℤ, pos_part, neg_part}
use vtt_platform.Rules.Result.{
  unexpected_character, Result, ok, fail, Yields, yields, refuses, Yields-test, Yields-then,
}
use vtt_platform.Rules.Lexer.{
  Lexer, Token, TokenKind, tok_int, tok_dice, walk, Walk, lex_sides, lex_number, lex_ident, lex_at,
  next, atoi, punctuation, is_digit, is_ident_cont, is_ident_start, is_space, token,
  count_in_bounds, sides_in_bounds, dice_follows, past_first,
}
use vtt_platform.Rules.Parser.{Parser, advance, is_eof, chars}

-- A token counts for one, the end of the source for none.
abbrev pub weight : TokenKind → ℕ
weight k = if is_eof k then 0 else 1

-- A parser's token and the source behind it.
abbrev pub size : Parser → ℕ
size p = weight p.tok.kind + chars p.lex.rest

chars-walk : (holds : ℕ → Bool) (s : String) → chars (walk holds s).left ≤ chars s
unfolding walk chars
chars-walk holds String.[] = omega arith
chars-walk holds (String.◌∷◌ c s) = ground (arith, chars-walk holds s)

chars-past_first : (s : String) → chars (past_first s) ≤ chars s
unfolding chars
chars-past_first String.[] = omega arith
chars-past_first (String.◌∷◌ c s) = omega arith

-- A walk that passes its first character leaves less.
chars-walk_lt :
    (holds : ℕ → Bool) (c : Char) (s : String)
    → holds (code c) ≡ true
    → chars (walk holds (String.◌∷◌ c s)).left ≤ chars s
unfolding walk chars
chars-walk_lt holds c s h = rw h (chars-walk holds s)

-- An integer literal is not negative and fits in an int.
abbrev pub IsLiteral : ℤ → Type 0
IsLiteral n = (neg_part n ≡ 0) × (pos_part n < 2 ^ 63)

-- The numbers of a token are within their bounds.
abbrev pub IsToken : TokenKind → Type 0
IsToken (tok_int n) = IsLiteral n
IsToken (tok_dice c s) = (count_in_bounds c ≡ true) × (sides_in_bounds s ≡ true)
IsToken _ = Unit

abbrev IsLexed : ℕ → Token × Lexer → Type 0
IsLexed n (t, l) = IsToken t.kind × (weight t.kind + chars l.rest ≤ n)

pub atoi-IsLiteral : (s : String) (n : ℤ) → atoi s ≡ some n → IsLiteral n
unfolding atoi
atoi-IsLiteral s n h = ground arith

lex_sides-IsLexed :
    (start : ℕ) (count : ℤ) (at : ℕ) (w : Walk) (n : ℕ)
    → chars w.left < n
    → Yields (IsLexed n) (lex_sides start count at w)
unfolding lex_sides
lex_sides-IsLexed start count at w n h = elim (Option-cases (atoi w.taken)) [
  | inl e ↦ rw (e, lex_sides) refuses
  | inr (s, e) ↦
      rw (e, lex_sides)
        (Yields-test (not (count_in_bounds count)) (λ _. refuses)
          (λ a.
            Yields-test (not (sides_in_bounds s)) (λ _. refuses)
              (λ b. yields ((ground arith, ground arith), omega arith))))
]

lex_number-IsLexed :
    (start : ℕ) (w : Walk) (n : ℕ) → chars w.left < n → Yields (IsLexed n) (lex_number start w)
unfolding lex_number
lex_number-IsLexed start w n h = elim (Option-cases (atoi w.taken)) [
  | inl e ↦ rw (e, lex_number) refuses
  | inr (count, e) ↦
      rw (e, lex_number)
        (Yields-test (dice_follows w.left)
          (λ _.
            lex_sides-IsLexed start count (start + w.count + 1) (walk is_digit (past_first w.left))
              n (omega (arith, chars-walk is_digit (past_first w.left), chars-past_first w.left)))
          (λ _. yields (atoi-IsLiteral w.taken count e, omega arith)))
]

lex_ident-IsLexed :
    (start : ℕ) (w : Walk) (n : ℕ) → chars w.left < n → Yields (IsLexed n) (lex_ident start w)
unfolding lex_ident
lex_ident-IsLexed start w n h = yields (tt, omega arith)

abbrev IsMark : Option TokenKind → Type 0
IsMark none = Unit
IsMark (some k) = IsToken k × (weight k ≡ 1)

punctuation-IsMark : (c : ℕ) → IsMark (punctuation c)
unfolding punctuation
punctuation-IsMark c = ground arith

lex_punctuation-IsLexed :
    (start : ℕ) (k : Option TokenKind) (s : String)
    → IsMark k
    → Yields (IsLexed (suc (chars s))) (elim k [
      | none ↦ fail start unexpected_character
      | some kind ↦ ok (token kind start (start + 1) s)
    ])
lex_punctuation-IsLexed start none s h = refuses
lex_punctuation-IsLexed start (some k) s h = yields (h.0, omega (arith, h.1))

IsLexed-mono :
    {r : Result (Token × Lexer)} {m : ℕ} (n : ℕ)
    → m ≤ n
    → Yields (IsLexed m) r
    → Yields (IsLexed n) r
IsLexed-mono n h (yields p) = yields (p.0, omega (arith, p.1))
IsLexed-mono n h refuses = refuses

lex_at-IsLexed : (start : ℕ) (s : String) → Yields (IsLexed (chars s)) (lex_at start s)
unfolding lex_at chars
lex_at-IsLexed start String.[] = yields (tt, omega arith)
lex_at-IsLexed start (String.◌∷◌ c s) =
    Yields-test (is_digit (code c))
      (λ h.
        lex_number-IsLexed start (walk is_digit (String.◌∷◌ c s)) (suc (chars s))
          (omega (arith, chars-walk_lt is_digit c s h)))
      (λ _.
        Yields-test (is_ident_start (code c))
          (λ h.
            lex_ident-IsLexed start (walk is_ident_cont (String.◌∷◌ c s)) (suc (chars s))
              (omega (arith, chars-walk_lt is_ident_cont c s (rw h))))
          (λ _.
            lex_punctuation-IsLexed start (punctuation (code c)) s (punctuation-IsMark (code c))))

next-IsLexed : (l : Lexer) → Yields (IsLexed (chars l.rest)) (next l)
unfolding next
next-IsLexed l =
    let w = walk is_space l.rest in
    IsLexed-mono _ (chars-walk is_space l.rest) (lex_at-IsLexed (l.pos + w.count) w.left)

-- Progress of a parser: a token in its bounds, and a smaller size.
abbrev pub IsBelow : ℕ → Parser → Type 0
IsBelow n p = IsToken p.tok.kind × (size p < n)

pub advance-IsBelow : (p : Parser) → Yields (IsBelow (suc (chars p.lex.rest))) (advance p)
unfolding advance
advance-IsBelow p = Yields-then (λ a h. yields (h.0, omega (arith, h.1))) (next-IsLexed p.lex)
