-- ===== src/Rules/Pieces.antt =====
-- The steps of the parser that do not recurse: they read legal trees and move on.
use vtt_platform.Prelude.{ℕ, suc, not, ◌&&◌, ◌≡◌, true, some, arith, String}
use vtt_platform.Rules.Syntax.{Node, Args, Sigil, Op, int, dice, parse_scope_name}
use vtt_platform.Rules.Result.{
  Yields, yields, refuses, Yields-test, Yields-then, Yields-option, Yields-map,
}
use vtt_platform.Rules.Lexer.{TokenKind, atoi, sides_in_bounds}
use vtt_platform.Rules.Parser.{
  Parser, Primary, Arity, is_dot, is_rparen, is_lparen, is_comma, add_op, mul_op, is_dice,
  is_dice_op, dice_op, name_of, named_ref, parse_ref, end_dice, check_sides, fused_sides, end_call,
  end_paren, literal_sides_ok, literal_count_ok, fits, length_args, func_arity, chars,
}
use vtt_platform.Rules.Progress.{IsBelow, weight, advance-IsBelow, atoi-IsLiteral}
use vtt_platform.Rules.Legal.{IsLegal, AreLegal, IsRead, IsReadPrimary, call_ok}

abbrev pub behind : Parser → ℕ
behind p = suc (chars p.lex.rest)

-- These tokens are no end of the source.
module _ (k : TokenKind) where
  pub is_dot-weight : is_dot k ≡ true → weight k ≡ 1
  is_dot-weight h = ground arith

  pub is_rparen-weight : is_rparen k ≡ true → weight k ≡ 1
  is_rparen-weight h = ground arith

  pub is_lparen-weight : is_lparen k ≡ true → weight k ≡ 1
  is_lparen-weight h = ground arith

  pub is_comma-weight : is_comma k ≡ true → weight k ≡ 1
  is_comma-weight h = ground arith

  pub name_of-weight : {s : String} → name_of k ≡ some s → weight k ≡ 1
  name_of-weight h = ground arith

  pub add_op-weight : {o : Op} → add_op k ≡ some o → weight k ≡ 1
  add_op-weight h = ground arith

  pub dice_op-weight : is_dice_op (dice_op k) ≡ true → weight k ≡ 1
  unfolding dice_op
  dice_op-weight h = ground arith

  pub mul_op-weight : {o : Op} → mul_op k ≡ some o → weight k ≡ 1
  mul_op-weight h = ground arith

named_ref-IsRead :
    (g : Sigil) (p : Parser) (name : String) → Yields (IsRead (behind p)) (named_ref g p name)
unfolding named_ref
named_ref-IsRead g p name =
    Yields-then
      (λ q h.
        Yields-test (is_dot q.tok.kind)
          (λ dot.
            Yields-option (parse_scope_name name) (λ _. refuses)
              (λ scope _.
                Yields-then
                  (λ r k.
                    Yields-option (name_of r.tok.kind) (λ _. refuses)
                      (λ inner e.
                        Yields-then
                          (λ t m. yields (
                            tt,
                            (
                              m.0,
                              omega (
                                arith,
                                is_dot-weight q.tok.kind dot,
                                name_of-weight r.tok.kind e,
                              ),
                            ),
                          ))
                          (advance-IsBelow r)))
                  (advance-IsBelow q)))
          (λ _. yields (tt, h)))
      (advance-IsBelow p)

pub parse_ref-IsRead : (g : Sigil) (p : Parser) → Yields (IsRead (behind p)) (parse_ref g p)
unfolding parse_ref
parse_ref-IsRead g p =
    Yields-then
      (λ q h.
        Yields-option (name_of q.tok.kind) (λ _. refuses)
          (λ name e.
            Yields-map (λ a k. (k.0, (k.1.0, omega (arith, name_of-weight q.tok.kind e))))
              (named_ref-IsRead g q name)))
      (advance-IsBelow p)

end_dice-IsRead :
    (count sides : Node) (p : Parser) (n : ℕ)
    → IsLegal (dice count sides)
    → IsBelow n p
    → Yields (IsRead n) (end_dice count sides p)
unfolding end_dice
end_dice-IsRead count sides p n legal below =
    Yields-test (is_dice_op (dice_op p.tok.kind)) (λ _. refuses) (λ _. yields (legal, below))

pub check_sides-IsRead :
    (count : Node) (at n : ℕ) (s : Primary)
    → IsLegal count
    → literal_count_ok count ≡ true
    → IsReadPrimary n s
    → Yields (IsRead n) (check_sides count at s)
unfolding check_sides
check_sides-IsRead count at n s legal fine h =
    Yields-test (is_dice s.node && not s.via_paren) (λ _. refuses)
      (λ _.
        Yields-test (not (literal_sides_ok s.node)) (λ _. refuses)
          (λ e. end_dice-IsRead count s.node s.parser n (legal, h.0, fine, ground arith) h.1))

pub fused_sides-IsRead :
    (count : Node) (digits : String) (p : Parser)
    → IsLegal count
    → literal_count_ok count ≡ true
    → Yields (IsRead (behind p)) (fused_sides count digits p)
unfolding fused_sides
fused_sides-IsRead count digits p legal fine =
    Yields-option (atoi digits) (λ _. refuses)
      (λ n e.
        Yields-test (not (sides_in_bounds n)) (λ _. refuses)
          (λ b.
            Yields-then
              (λ q h.
                end_dice-IsRead count (int n) q (behind p)
                  (legal, atoi-IsLiteral digits n e, fine, ground arith) h)
              (advance-IsBelow p)))

pub end_call-IsReadPrimary :
    (name : String) (a : Arity) (at : ℕ) (xs : Args) (p : Parser) (n : ℕ)
    → func_arity name ≡ some a
    → AreLegal xs
    → IsBelow n p
    → Yields (IsReadPrimary n) (end_call name a at xs p)
unfolding end_call
end_call-IsReadPrimary name a at xs p n e legal below =
    Yields-test (not (is_rparen p.tok.kind)) (λ _. refuses)
      (λ r.
        Yields-then
          (λ q h.
            Yields-test (not (fits a (length_args xs))) (λ _. refuses)
              (λ t. yields (
                (rw (e, call_ok) (ground arith), legal),
                (h.0, omega (arith, is_rparen-weight p.tok.kind (ground arith))),
              )))
          (advance-IsBelow p))

pub end_paren-IsReadPrimary :
    (inner : Node) (p : Parser) (n : ℕ)
    → IsLegal inner
    → IsBelow n p
    → Yields (IsReadPrimary n) (end_paren inner p)
unfolding end_paren
end_paren-IsReadPrimary inner p n legal below =
    Yields-test (not (is_rparen p.tok.kind)) (λ _. refuses)
      (λ r.
        Yields-then
          (λ q h. yields (legal, (h.0, omega (arith, is_rparen-weight p.tok.kind (ground arith)))))
          (advance-IsBelow p))
