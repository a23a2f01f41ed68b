-- ===== src/Config/Fuel.antt =====
-- The loop of `Parse` ends: each round takes a byte, so the fuel of `parse` is never used up, and
-- the loop can be followed without it.
use spaceteam.Common.{ℕ, zero, suc, ◌≤◌, ◌<◌, Text, [], ◌∷◌, length, ◌≡◌, ◌≢◌, refl, ap, ◌∙◌, arith}
use spaceteam.Config.Lexer.{
  TokenType, TokenState, Round, go_on, found, found_before, initial_whitespace, single_quote,
  double_quote, token_type_comment, token_type_normal, round_in, resume, scan, parse_token, eof,
}
use spaceteam.Config.Parser.{
  Loop, Turn, stop, accept, fault, next, turn, Outcome, out_of_fuel, settle, run, initial, parse,
}

resume-le :
    (again : TokenState → Text → TokenType × Text × Text) (c : ℕ) (cs : Text) (r : Round)
    → ((s : TokenState) (v : Text) → length (again s v).2 ≤ length cs)
    → length (resume again c cs r).2 ≤ suc (length cs)
resume-le again c cs (go_on s v) h = omega (arith, h s v)
resume-le again c cs (found t v) h = omega arith
resume-le again c cs (found_before t v) h = omega arith

scan-le : (state : TokenState) (v input : Text) → length (scan state v input).2 ≤ length input
unfolding scan
scan-le state v [] = omega arith
scan-le state v (c ∷ cs) =
    resume-le (λ s w. scan s w cs) c cs (round_in state v c) (λ s w. scan-le s w cs)

-- `ParseToken` takes at least one byte of an input that has one.
parse_token-lt : (c : ℕ) (cs : Text) → length (parse_token (c ∷ cs)).2 ≤ length cs
unfolding scan
parse_token-lt c cs = ground (
  arith,
  scan-le initial_whitespace [] cs,
  scan-le token_type_comment (c ∷ []) cs,
  scan-le single_quote (c ∷ []) cs,
  scan-le double_quote (c ∷ []) cs,
  scan-le token_type_normal (c ∷ []) cs,
)

settle_congr :
    (again again' : Loop → Outcome) (l : Loop) (t : Turn)
    → ((l' : Loop) → again l' ≡ again' l')
    → settle again l t ≡ settle again' l t
settle_congr again again' l stop h = refl
settle_congr again again' l accept h = refl
settle_congr again again' l fault h = refl
settle_congr again again' l (next l') h = h l'

settle_eof :
    (again again' : Loop → Outcome) (v : Text) (l : Loop)
    → settle again l (turn eof v l) ≡ settle again' l (turn eof v l)
unfolding turn
settle_eof again again' v l = ground arith

run_fuel :
    (f g : ℕ) (l : Loop) (input : Text)
    → length input < f
    → length input < g
    → run f l input ≡ run g l input
unfolding run
run_fuel zero g l input h k = absurd (omega arith)
run_fuel (suc f) zero l input h k = absurd (omega arith)
run_fuel (suc f) (suc g) l [] h k = settle_eof (λ l'. run f l' []) (λ l'. run g l' []) [] l
run_fuel (suc f) (suc g) l (c ∷ cs) h k = settle_congr _ _ l _ λ l'.
    run_fuel f g l' _ (omega (arith, parse_token-lt c cs)) (omega (arith, parse_token-lt c cs))

settle-ne-out_of_fuel :
    (again : Loop → Outcome) (l : Loop) (t : Turn)
    → ((l' : Loop) → again l' ≢ out_of_fuel)
    → settle again l t ≢ out_of_fuel
settle-ne-out_of_fuel again l stop h = cc
settle-ne-out_of_fuel again l accept h = cc
settle-ne-out_of_fuel again l fault h = cc
settle-ne-out_of_fuel again l (next l') h = h l'

settle_eof-ne-out_of_fuel :
    (again : Loop → Outcome) (v : Text) (l : Loop) → settle again l (turn eof v l) ≢ out_of_fuel
unfolding turn
settle_eof-ne-out_of_fuel again v l = ground arith

run-ne-out_of_fuel :
    (f : ℕ) (l : Loop) (input : Text) → length input < f → run f l input ≢ out_of_fuel
unfolding run
run-ne-out_of_fuel zero l input h = absurd (omega arith)
run-ne-out_of_fuel (suc f) l [] h = settle_eof-ne-out_of_fuel (λ l'. run f l' []) [] l
run-ne-out_of_fuel (suc f) l (c ∷ cs) h =
    settle-ne-out_of_fuel _ l _ λ l'. run-ne-out_of_fuel f l' _ (omega (arith, parse_token-lt c cs))

-- `Parse` always ends: on every input the loop returns or runs into undefined behaviour within
-- the rounds that `parse` allows.
pub parse-ne-out_of_fuel : (input : Text) → parse input ≢ out_of_fuel
unfolding parse
parse-ne-out_of_fuel input = run-ne-out_of_fuel _ initial input (omega arith)

-- the loop from any state, with the fuel that is always enough
pub parse_from : Loop → Text → Outcome
parse_from l input = run (suc (length input)) l input

pub parse-parse_from : (input : Text) → parse input ≡ parse_from initial input
unfolding parse parse_from
parse-parse_from input = refl

-- what a round does with a token
abbrev pub round_of : Loop → TokenType × Text × Text → Outcome
round_of l (type, v, rest) = settle (λ l'. parse_from l' rest) l (turn type v l)

-- One round of the loop.
pub parse_from-round :
    (l : Loop) (input : Text) → parse_from l input ≡ round_of l (parse_token input)
unfolding parse_from run
parse_from-round l [] = settle_eof _ _ [] l
parse_from-round l (c ∷ cs) = settle_congr _ _ l _ λ l'.
    let rest = (parse_token (c ∷ cs)).2 in
    run_fuel (suc (length cs)) (suc (length rest)) l' rest (omega (arith, parse_token-lt c cs))
      (omega arith)

-- A round that goes on.
pub parse_from_next :
    (l l' : Loop) (input : Text) {type : TokenType} {v rest : Text}
    → parse_token input ≡ (type, v, rest)
    → turn type v l ≡ next l'
    → parse_from l input ≡ parse_from l' rest
parse_from_next l l' input {rest} p e =
    parse_from-round l input ∙ ap (round_of l) p ∙ ap (settle (λ m. parse_from m rest) l) e
