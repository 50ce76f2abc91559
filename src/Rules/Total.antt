-- ===== src/Rules/Total.antt =====
-- The parser ends within its fuel and returns legal trees.
use vtt_platform.Prelude.{
  ℕ, zero, suc, ◌+◌, ◌*◌, ◌≤◌, ◌<◌, not, ◌&&◌, ◌≡◌, ◌≢◌, refl, ap, true, some, arith, String, ltb,
}
use vtt_platform.Prelude.Int.{ℤ}
use vtt_platform.Rules.Syntax.{Node, Args, at, hash, bin_op, arg}
use vtt_platform.Rules.Result.{
  Result, ◌>>=◌, out_of_fuel, Yields, yields, refuses, Yields-test, Yields-then, Yields-option,
  Yields-map, Yields-fuel,
}
use vtt_platform.Rules.Lexer.{
  count_in_bounds, sides_in_bounds, TokenKind, tok_eof, tok_at, tok_hash, tok_dot, tok_lparen,
  tok_rparen, tok_comma, tok_plus, tok_minus, tok_star, tok_slash, tok_int, tok_dice, tok_ident,
}
use vtt_platform.Rules.Parser.{
  Parser, Primary, Arity, DiceOp, no_dice, bare_d, fused, plain, advance, is_eof, is_dice,
  is_lparen, is_comma, add_op, mul_op, dice_op, check_count, literal_count_ok, func_arity, chars,
  max_expr_depth, initial, parse, parse_expr, expr_loop, parse_term, term_loop, parse_factor,
  factor_end, parse_primary, parse_call, args_loop,
}
use vtt_platform.Rules.Progress.{IsLiteral, IsToken, IsBelow, size, weight, advance-IsBelow}
use vtt_platform.Rules.Legal.{IsLegal, IsRead, AreRead, IsReadPrimary}
use vtt_platform.Rules.Pieces.{
  behind, add_op-weight, mul_op-weight, dice_op-weight, is_lparen-weight, is_comma-weight,
  parse_ref-IsRead, check_sides-IsRead, fused_sides-IsRead, end_call-IsReadPrimary,
  end_paren-IsReadPrimary,
}

count-IsLiteral : (n : ℤ) → count_in_bounds n ≡ true → IsLiteral n
count-IsLiteral n h = ground arith

sides-IsLiteral : (n : ℤ) → sides_in_bounds n ≡ true → IsLiteral n
sides-IsLiteral n h = ground arith

check_count-IsRead :
    (pos n : ℕ) (left : Primary) (more : Result (Node × Parser))
    → (literal_count_ok left.node ≡ true → Yields (IsRead n) more)
    → Yields (IsRead n) (check_count pos left more)
check_count-IsRead pos n left more h =
    Yields-test (is_dice left.node && not left.via_paren) (λ _. refuses)
      (λ _. Yields-test (not (literal_count_ok left.node)) (λ _. refuses) (λ e. h (ground arith)))

IsRead-mono :
    {r : Result (Node × Parser)} {m n : ℕ} → m ≤ n → Yields (IsRead m) r → Yields (IsRead n) r
IsRead-mono l = Yields-map (λ a h. (h.0, (h.1.0, omega arith)))

IsReadPrimary-mono :
    {r : Result Primary} {m n : ℕ} → m ≤ n → Yields (IsReadPrimary m) r → Yields (IsReadPrimary n) r
IsReadPrimary-mono l = Yields-map (λ a h. (h.0, (h.1.0, omega arith)))

AreRead-mono :
    {r : Result (Args × Parser)} {m n : ℕ} → m ≤ n → Yields (AreRead m) r → Yields (AreRead n) r
AreRead-mono l = Yields-map (λ a h. (h.0, (h.1.0, omega arith)))

plain-IsReadPrimary :
    (n : ℕ) (r : Result (Node × Parser))
    → Yields (IsRead n) r
    → Yields (IsReadPrimary n) (r >>= plain)
plain-IsReadPrimary n r h = Yields-then (λ a k. yields k) h

mutual
  unfolding parse_expr

  expr-IsRead :
      (f depth : ℕ) (p : Parser)
      → IsToken p.tok.kind
      → 4 * size p + 3 < f
      → Yields (IsRead (size p)) (parse_expr f depth p)
  expr-IsRead zero depth p t h = absurd (omega arith)
  expr-IsRead (suc f) depth p t h =
      Yields-test (ltb max_expr_depth (suc depth)) (λ _. refuses)
        (λ _.
          Yields-then
            (λ (x, q) r. expr_loop-IsRead f (suc depth) (size p) x q r (omega (arith, r.1.1)))
            (term-IsRead f (suc depth) p t (omega arith)))

  expr_loop-IsRead :
      (f depth n : ℕ) (x : Node) (p : Parser)
      → IsRead n (x, p)
      → 4 * size p + 3 < f
      → Yields (IsRead n) (expr_loop f depth x p)
  expr_loop-IsRead zero depth n x p t h = absurd (omega arith)
  expr_loop-IsRead (suc f) depth n x p t h =
      Yields-option (add_op p.tok.kind) (λ _. yields t)
        (λ o e.
          Yields-then
            (λ q a.
              Yields-then
                (λ (y, r) b.
                  expr_loop-IsRead f depth n (bin_op o x y) r
                    (
                      (t.0, b.0),
                      (b.1.0, omega (arith, a.1, b.1.1, t.1.1, add_op-weight p.tok.kind e)),
                    )
                    (omega (arith, a.1, b.1.1, add_op-weight p.tok.kind e)))
                (term-IsRead f depth q a.0 (omega (arith, a.1, add_op-weight p.tok.kind e))))
            (advance-IsBelow p))

  term-IsRead :
      (f depth : ℕ) (p : Parser)
      → IsToken p.tok.kind
      → 4 * size p + 2 < f
      → Yields (IsRead (size p)) (parse_term f depth p)
  term-IsRead zero depth p t h = absurd (omega arith)
  term-IsRead (suc f) depth p t h =
      Yields-then (λ (x, q) r. term_loop-IsRead f depth (size p) x q r (omega (arith, r.1.1)))
        (factor-IsRead f depth p t (omega arith))

  term_loop-IsRead :
      (f depth n : ℕ) (x : Node) (p : Parser)
      → IsRead n (x, p)
      → 4 * size p + 2 < f
      → Yields (IsRead n) (term_loop f depth x p)
  term_loop-IsRead zero depth n x p t h = absurd (omega arith)
  term_loop-IsRead (suc f) depth n x p t h =
      Yields-option (mul_op p.tok.kind) (λ _. yields t)
        (λ o e.
          Yields-then
            (λ q a.
              Yields-then
                (λ (y, r) b.
                  term_loop-IsRead f depth n (bin_op o x y) r
                    (
                      (t.0, b.0),
                      (b.1.0, omega (arith, a.1, b.1.1, t.1.1, mul_op-weight p.tok.kind e)),
                    )
                    (omega (arith, a.1, b.1.1, mul_op-weight p.tok.kind e)))
                (factor-IsRead f depth q a.0 (omega (arith, a.1, mul_op-weight p.tok.kind e))))
            (advance-IsBelow p))

  factor-IsRead :
      (f depth : ℕ) (p : Parser)
      → IsToken p.tok.kind
      → 4 * size p + 1 < f
      → Yields (IsRead (size p)) (parse_factor f depth p)
  factor-IsRead zero depth p t h = absurd (omega arith)
  factor-IsRead (suc f) depth p t h =
      Yields-test (ltb max_expr_depth (suc depth)) (λ _. refuses)
        (λ _.
          Yields-then
            (λ left a.
              factor_end-IsRead f (suc depth) p.tok.pos (size p) left (dice_op left.parser.tok.kind)
                refl a (omega (arith, a.1.1)))
            (primary-IsReadPrimary f (suc depth) p.tok.kind p refl t (omega arith)))

  factor_end-IsRead :
      (f depth pos n : ℕ) (left : Primary) (o : DiceOp)
      → dice_op left.parser.tok.kind ≡ o
      → IsReadPrimary n left
      → 4 * size left.parser + 1 < f
      → Yields (IsRead n) (factor_end f depth pos left o)
  factor_end-IsRead zero depth pos n left o e t h = absurd (omega arith)
  factor_end-IsRead (suc f) depth pos n left no_dice e t h = yields t
  factor_end-IsRead (suc f) depth pos n left bare_d e t h = check_count-IsRead pos n left _ (λ c.
      Yields-then
        (λ q a.
          Yields-then
            (λ s b.
              IsRead-mono {m = size q}
                (omega (arith, a.1, t.1.1, dice_op-weight left.parser.tok.kind (rw e)))
                (check_sides-IsRead left.node q.tok.pos (size q) s t.0 c b))
            (primary-IsReadPrimary f depth q.tok.kind q refl a.0
              (omega (arith, a.1, dice_op-weight left.parser.tok.kind (rw e)))))
        (advance-IsBelow left.parser))
  factor_end-IsRead (suc f) depth pos n left (fused digits) e t h =
      check_count-IsRead pos n left _ (λ c.
        IsRead-mono {m = behind left.parser}
          (omega (arith, t.1.1, dice_op-weight left.parser.tok.kind (rw e)))
          (fused_sides-IsRead left.node digits left.parser t.0 c))

  primary-IsReadPrimary :
      (f depth : ℕ) (k : TokenKind) (p : Parser)
      → p.tok.kind ≡ k
      → IsToken k
      → 4 * size p < f
      → Yields (IsReadPrimary (size p)) (parse_primary f depth k p)
  primary-IsReadPrimary zero depth k p e t h = absurd (omega arith)
  primary-IsReadPrimary (suc f) depth (tok_int n) p e t h =
      Yields-then (λ q a. yields (t, (a.0, omega (arith, a.1, ap weight e)))) (advance-IsBelow p)
  primary-IsReadPrimary (suc f) depth (tok_dice n s) p e t h =
      Yields-then
        (λ q a. yields (
          (count-IsLiteral n t.0, sides-IsLiteral s t.1, t.0, t.1),
          (a.0, omega (arith, a.1, ap weight e)),
        ))
        (advance-IsBelow p)
  primary-IsReadPrimary (suc f) depth tok_at p e t h =
      plain-IsReadPrimary (size p) _
        (IsRead-mono {m = behind p} (omega (arith, ap weight e)) (parse_ref-IsRead at p))
  primary-IsReadPrimary (suc f) depth tok_hash p e t h =
      plain-IsReadPrimary (size p) _
        (IsRead-mono {m = behind p} (omega (arith, ap weight e)) (parse_ref-IsRead hash p))
  primary-IsReadPrimary (suc f) depth (tok_ident name) p e t h =
      Yields-then
        (λ q a.
          Yields-test (not (is_lparen q.tok.kind)) (λ _. refuses)
            (λ l.
              Yields-option (func_arity name) (λ _. refuses)
                (λ arity known.
                  IsReadPrimary-mono {m = behind q}
                    (omega (arith, a.1, ap weight e, is_lparen-weight q.tok.kind (ground arith)))
                    (call-IsReadPrimary f depth name arity p.tok.pos q known (
                      omega
                        (arith, a.1, ap weight e, is_lparen-weight q.tok.kind (ground arith)))))))
        (advance-IsBelow p)
  primary-IsReadPrimary (suc f) depth tok_lparen p e t h =
      Yields-then
        (λ q a.
          Yields-then
            (λ (x, r) b.
              end_paren-IsReadPrimary x r (size p) b.0
                (b.1.0, omega (arith, a.1, b.1.1, ap weight e)))
            (expr-IsRead f depth q a.0 (omega (arith, a.1, ap weight e))))
        (advance-IsBelow p)
  primary-IsReadPrimary (suc f) depth tok_eof p e t h = refuses
  primary-IsReadPrimary (suc f) depth tok_dot p e t h = refuses
  primary-IsReadPrimary (suc f) depth tok_rparen p e t h = refuses
  primary-IsReadPrimary (suc f) depth tok_comma p e t h = refuses
  primary-IsReadPrimary (suc f) depth tok_plus p e t h = refuses
  primary-IsReadPrimary (suc f) depth tok_minus p e t h = refuses
  primary-IsReadPrimary (suc f) depth tok_star p e t h = refuses
  primary-IsReadPrimary (suc f) depth tok_slash p e t h = refuses

  call-IsReadPrimary :
      (f depth : ℕ) (name : String) (a : Arity) (pos : ℕ) (p : Parser)
      → func_arity name ≡ some a
      → 4 * behind p + 3 < f
      → Yields (IsReadPrimary (behind p)) (parse_call f depth name a pos p)
  call-IsReadPrimary zero depth name a pos p e h = absurd (omega arith)
  call-IsReadPrimary (suc f) depth name a pos p e h =
      Yields-then
        (λ q b.
          Yields-then
            (λ (x, r) c.
              Yields-then
                (λ (xs, u) d.
                  end_call-IsReadPrimary name a pos (arg x xs) u (behind p) e (c.0, d.0) d.1)
                (args-AreRead f depth (behind p) r (c.1.0, omega (arith, b.1, c.1.1))
                  (omega (arith, b.1, c.1.1))))
            (expr-IsRead f depth q b.0 (omega (arith, b.1))))
        (advance-IsBelow p)

  args-AreRead :
      (f depth n : ℕ) (p : Parser)
      → IsBelow n p
      → 4 * size p + 3 < f
      → Yields (AreRead n) (args_loop f depth p)
  args-AreRead zero depth n p t h = absurd (omega arith)
  args-AreRead (suc f) depth n p t h =
      Yields-test (is_comma p.tok.kind)
        (λ e.
          Yields-then
            (λ q a.
              Yields-then
                (λ (x, r) b.
                  Yields-then (λ (xs, u) c. yields ((b.0, c.0), c.1))
                    (args-AreRead f depth n r
                      (b.1.0, omega (arith, a.1, b.1.1, t.1, is_comma-weight p.tok.kind e))
                      (omega (arith, a.1, b.1.1, is_comma-weight p.tok.kind e))))
                (expr-IsRead f depth q a.0 (omega (arith, a.1, is_comma-weight p.tok.kind e))))
            (advance-IsBelow p))
        (λ _. yields (tt, t))

initial-IsBelow : (s : String) → Yields (IsBelow (suc (chars s))) (advance (initial s))
initial-IsBelow s = advance-IsBelow (initial s)

pub parse-IsLegal : (s : String) → Yields IsLegal (parse s)
unfolding parse
parse-IsLegal s =
    Yields-then
      (λ p a.
        Yields-then
          (λ (root, q) r. Yields-test (is_eof q.tok.kind) (λ _. yields r.0) (λ _. refuses))
          (expr-IsRead (4 * chars s + 4) 0 p a.0 (omega (arith, a.1))))
      (initial-IsBelow s)

-- Parsing ends on every text: with the fuel that the model gives, four units for each character and
-- four more, no call runs out.
pub parse-ends : (s : String) → parse s ≢ out_of_fuel
parse-ends s = Yields-fuel (parse-IsLegal s)
