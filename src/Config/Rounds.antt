-- ===== src/Config/Rounds.antt =====
-- How the parser's loop reads words and the braces that open a block.
use spaceteam.Common.{
  ℕ, zero, suc, Text, codes, List, [], ◌∷◌, ◌++◌, append_assoc, append-nil, ◌≡◌, refl, sym, ap, ◌∙◌,
  arith, Bool, true, ◌||◌, All, ℤ, succ,
}
use spaceteam.Config.Fuel.{parse_from, parse_from-round, parse_from_next, round_of}
use spaceteam.Config.Lexer.{
  TokenType, start, normal, start_block, end_block, statement_end, is, is_blank, ends_token,
  parse_token, scan,
}
use spaceteam.Config.Parser.{Loop, stack, turn, next}
use spaceteam.Config.Printable.{HasWords}
use spaceteam.Config.Printer.{indent, join, join_rest}
use spaceteam.Config.Syntax.{Config, nil, cons, simple, append, update_back-append}
use spaceteam.Config.Words.{IsWord, parse_token-IsWord}

abbrev pub at : Config → List Config → TokenType → ℤ → Loop
at top below last n = record { config_stack = stack top below; last = last; num_open_blocks = n }

-- a state in which a statement may begin
abbrev pub is_between : TokenType → Bool
is_between t = is t start || is t statement_end || is t start_block || is t end_block

-- a state in which a block may end
abbrev pub is_closing : TokenType → Bool
is_closing t = is t statement_end || is t end_block || is t start_block

pub parse_from_blank :
    (l : Loop) (c : ℕ) (rest : Text)
    → is_blank c ≡ true
    → parse_from l (c ∷ rest) ≡ parse_from l rest
parse_from_blank l c rest h =
    parse_from-round l (c ∷ rest) ∙ ap (round_of l) same ∙ sym (parse_from-round l rest)
  where
    same : parse_token (c ∷ rest) ≡ parse_token rest
    same = unfold scan in ground arith

pub parse_from-indent :
    (l : Loop) (d : ℕ) (rest : Text) → parse_from l (indent d ++ rest) ≡ parse_from l rest
parse_from-indent l zero rest = refl
parse_from-indent l (suc d) rest =
    parse_from_blank l b' ' _ refl ∙ parse_from_blank l b' ' _ refl ∙ parse_from-indent l d rest

abbrev pub opened : Config → List Text → Config
opened top ws = append top (cons (simple ws) nil)

turn_first :
    (top : Config) (below : List Config) (last : TokenType) (n : ℤ) (w : Text)
    → is_between last ≡ true
    → turn normal w (at top below last n) ≡ next (at (opened top (w ∷ [])) below normal n)
unfolding turn
turn_first top below start n w b = rw update_back-append
turn_first top below statement_end n w b = rw update_back-append
turn_first top below start_block n w b = rw update_back-append
turn_first top below end_block n w b = rw update_back-append
turn_first top below _ n w b = cc

turn_more :
    (top : Config) (ws : List Text) (below : List Config) (n : ℤ) (w : Text)
    → turn normal w (at (opened top ws) below normal n)
      ≡ next (at (opened top (ws ++ w ∷ [])) below normal n)
unfolding turn
turn_more top ws below n w = rw update_back-append

-- a round in which a word is read
parse_from_word :
    {w : Text} (l l' : Loop) (c : ℕ) (rest : Text)
    → IsWord w
    → ends_token c ≡ true
    → turn normal w l ≡ next l'
    → parse_from l (w ++ c ∷ rest) ≡ parse_from l' (c ∷ rest)
parse_from_word l l' c rest h k e = parse_from_next l l' _ (parse_token-IsWord c rest h k) e

-- The further words join the statement that is open.
parse_from_more :
    (ts : List Text) (top : Config) (ws : List Text) (below : List Config) (n : ℤ) (c : ℕ)
    (rest : Text)
    → All IsWord ts
    → ends_token c ≡ true
    → parse_from (at (opened top ws) below normal n) (join_rest ts ++ c ∷ rest)
      ≡ parse_from (at (opened top (ws ++ ts)) below normal n) (c ∷ rest)
parse_from_more [] top ws below n c rest h k = rw append-nil
parse_from_more (t ∷ []) top ws below n c rest h k =
    parse_from_blank _ b' ' _ refl
    ∙ rw append-nil (parse_from_word _ _ c rest h.0 k (turn_more top ws below n t))
parse_from_more (t ∷ u ∷ ts) top ws below n c rest h k =
    parse_from_blank _ b' ' _ refl
    ∙ rw append_assoc (
        parse_from_word _ _ b' ' _ h.0 refl (turn_more top ws below n t)
        ∙ parse_from_more (u ∷ ts) top (ws ++ t ∷ []) below n c rest h.1 k
        ∙ rw append_assoc)

-- The words of a statement open it, and are its tokens.
pub parse_from-join :
    (ts : List Text) (top : Config) (below : List Config) (last : TokenType) (n : ℤ) (c : ℕ)
    (rest : Text)
    → HasWords ts
    → is_between last ≡ true
    → ends_token c ≡ true
    → parse_from (at top below last n) (join ts ++ c ∷ rest)
      ≡ parse_from (at (opened top ts) below normal n) (c ∷ rest)
parse_from-join [] top below last n c rest h b k = absurd h
parse_from-join (t ∷ []) top below last n c rest h b k =
    rw append-nil (parse_from_word _ _ c rest h.0 k (turn_first top below last n t b))
parse_from-join (t ∷ u ∷ ts) top below last n c rest h b k = rw append_assoc (
    parse_from_word _ _ b' ' _ h.0 refl (turn_first top below last n t b)
    ∙ parse_from_more (u ∷ ts) top (t ∷ []) below n c rest h.1 k)

pub parse_from_end :
    (top : Config) (ts : List Text) (below : List Config) (n : ℤ) (rest : Text)
    → parse_from (at (opened top ts) below normal n) (codes ";\n" ++ rest)
      ≡ parse_from (at (opened top ts) below statement_end n) rest
unfolding scan turn
parse_from_end top ts below n rest =
    parse_from_next _ (at (opened top ts) below statement_end n) _ refl refl
    ∙ parse_from_blank _ b'\n' rest refl

pub parse_from_open :
    (top : Config) (ts : List Text) (below : List Config) (n : ℤ) (rest : Text)
    → parse_from (at (opened top ts) below normal n) (codes " {\n" ++ rest)
      ≡ parse_from (at nil (opened top ts ∷ below) start_block (succ n)) rest
unfolding scan turn
parse_from_open top ts below n rest =
    parse_from_blank _ b' ' _ refl
    ∙ parse_from_next _ (at nil (opened top ts ∷ below) start_block (succ n)) _ refl refl
    ∙ parse_from_blank _ b'\n' rest refl
