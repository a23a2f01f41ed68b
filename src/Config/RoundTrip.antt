-- ===== src/Config/RoundTrip.antt =====
-- What `ToString` prints, `Parse` reads back. Each lemma follows the loop over one piece of the
-- text, with any `rest` behind it.
use spaceteam.Common.{
  ℕ, zero, suc, Text, codes, List, [], ◌∷◌, ◌++◌, append_assoc, append-nil, ◌≡◌, refl, sym, ap, ◌∙◌,
  Bool, true, ◌||◌, ℤ, pos, negsuc, succ, pred,
}
use spaceteam.Config.Fuel.{
  parse_from, parse_from-round, parse_from_next, parse-parse_from, round_of,
}
use spaceteam.Config.Lexer.{
  TokenType, start, start_block, end_block, statement_end, eof, is, ends_token, scan,
}
use spaceteam.Config.Parser.{turn, next, emptied, accepted, undefined, parse}
use spaceteam.Config.Printable.{IsPrintable, IsStatement, done, more, has_words, has_block}
use spaceteam.Config.Printer.{config_to_string, statement_to_string, to_string}
use spaceteam.Config.Syntax.{
  Config, Statement, nil, cons, simple, block, append, update_back-append, append-append,
  append-nil_config,
}
use spaceteam.Config.Words.{IsWord, parse_token-IsWord}
use spaceteam.Config.Rounds.{
  at, is_between, is_closing, parse_from_blank, parse_from-indent, opened, parse_from-join,
  parse_from_end, parse_from_open,
}

pred-succ : (n : ℤ) → pred (succ n) ≡ n
pred-succ (pos n) = refl
pred-succ (negsuc zero) = refl
pred-succ (negsuc (suc n)) = refl

turn_close :
    (c top : Config) (ts : List Text) (below : List Config) (t : TokenType) (n : ℤ) (v : Text)
    → is_closing t ≡ true
    → turn end_block v (at c (opened top ts ∷ below) t (succ n))
      ≡ next (at (append top (cons (block ts c) nil)) below end_block n)
unfolding turn
turn_close c top ts below statement_end n v h = rw (update_back-append, pred-succ)
turn_close c top ts below end_block n v h = rw (update_back-append, pred-succ)
turn_close c top ts below start_block n v h = rw (update_back-append, pred-succ)
turn_close c top ts below _ n v h = cc

parse_from_close :
    (c top : Config) (ts : List Text) (below : List Config) (last : TokenType) (n : ℤ) (rest : Text)
    → is_closing last ≡ true
    → parse_from (at c (opened top ts ∷ below) last (succ n)) (codes "}\n" ++ rest)
      ≡ parse_from (at (append top (cons (block ts c) nil)) below end_block n) rest
unfolding scan
parse_from_close c top ts below last n rest h =
    parse_from_next _ _ _ refl (turn_close c top ts below last n (b'}' ∷ []) h)
    ∙ parse_from_blank _ b'\n' rest refl

-- the last token of a statement, and of a configuration read from state `t`
abbrev last_of_statement : Statement → TokenType
last_of_statement (simple ts) = statement_end
last_of_statement (block ts c) = end_block

abbrev last_of : TokenType → Config → TokenType
last_of t nil = t
last_of t (cons s c) = last_of (last_of_statement s) c

last_of-is_closing :
    (t : TokenType) (c : Config) → is_closing t ≡ true → is_closing (last_of t c) ≡ true
last_of-is_closing t nil h = h
last_of-is_closing t (cons (simple ts) c) h = last_of-is_closing statement_end c refl
last_of-is_closing t (cons (block ts d) c) h = last_of-is_closing end_block c refl

last_of_statement-is_closing : (s : Statement) → is_closing (last_of_statement s) ≡ true
last_of_statement-is_closing (simple ts) = refl
last_of_statement-is_closing (block ts c) = refl

last_of_statement-is_between : (s : Statement) → is_between (last_of_statement s) ≡ true
last_of_statement-is_between (simple ts) = refl
last_of_statement-is_between (block ts c) = refl

mutual
  unfolding config_to_string

  parse_from-config :
      {c : Config} (top : Config) (below : List Config) (last : TokenType) (n : ℤ) (d : ℕ)
      (rest : Text)
      → IsPrintable c
      → is_between last ≡ true
      → parse_from (at top below last n) (config_to_string d c ++ rest)
        ≡ parse_from (at (append top c) below (last_of last c) n) rest
  parse_from-config top below last n d rest done b = rw append-nil_config
  parse_from-config top below last n d rest (more {s} {c} p q) b = rw append_assoc (
      parse_from-statement top below last n d _ p b
      ∙ parse_from-config (append top (cons s nil)) below (last_of_statement s) n d rest q
          (last_of_statement-is_between s)
      ∙ rw append-append)

  parse_from-statement :
      {s : Statement} (top : Config) (below : List Config) (last : TokenType) (n : ℤ) (d : ℕ)
      (rest : Text)
      → IsStatement s
      → is_between last ≡ true
      → parse_from (at top below last n) (statement_to_string d s ++ rest)
        ≡ parse_from (at (append top (cons s nil)) below (last_of_statement s) n) rest
  parse_from-statement top below last n d rest (has_words {ts} h) b = simp append_assoc (
      parse_from-indent _ d _
      ∙ parse_from-join ts top below last n b';' _ h b refl
      ∙ parse_from_end top ts below n rest)
  parse_from-statement top below last n d rest (has_block {ts} {c} h p) b = simp append_assoc (
      parse_from-indent _ d _
      ∙ parse_from-join ts top below last n b' ' _ h b refl
      ∙ parse_from_open top ts below n _
      ∙ parse_from-config nil (opened top ts ∷ below) start_block (succ n) (suc d) _ p refl
      ∙ parse_from-indent _ d _
      ∙ parse_from_close c top ts below (last_of start_block c) n rest
          (last_of-is_closing start_block c refl))

-- a state in which the file may end, if no block is open
abbrev is_final : TokenType → Bool
is_final t = is t start || is t statement_end || is t end_block

last_of-is_final : (t : TokenType) (c : Config) → is_final t ≡ true → is_final (last_of t c) ≡ true
last_of-is_final t nil h = h
last_of-is_final t (cons (simple ts) c) h = last_of-is_final statement_end c refl
last_of-is_final t (cons (block ts d) c) h = last_of-is_final end_block c refl

parse_from_eof :
    (c : Config) (t : TokenType)
    → is_final t ≡ true
    → round_of (at c [] t (pos 0)) (eof, [], []) ≡ accepted c
unfolding turn
parse_from_eof c start h = refl
parse_from_eof c statement_end h = refl
parse_from_eof c end_block h = refl
parse_from_eof c _ h = cc

-- What `ToString` prints for a configuration in which every statement has words, `Parse` accepts,
-- and it reads back that configuration.
pub parse-to_string : {c : Config} → IsPrintable c → parse (to_string c) ≡ accepted c
unfolding scan
parse-to_string {c} p =
    ap parse (sym (append-nil (to_string c)))
    ∙ parse-parse_from _
    ∙ parse_from-config nil [] start (pos 0) 0 [] p refl
    ∙ parse_from-round _ []
    ∙ parse_from_eof c (last_of start c) (last_of-is_final start c refl)

turn_close_root :
    (c : Config) (t : TokenType) (v : Text)
    → is_closing t ≡ true
    → turn end_block v (at c [] t (pos 0))
      ≡ next (record { config_stack = emptied c; last = end_block; num_open_blocks = negsuc 0 })
unfolding turn
turn_close_root c statement_end v h = refl
turn_close_root c end_block v h = refl
turn_close_root c start_block v h = refl
turn_close_root c _ v h = cc

-- The print of a configuration that has a statement, and in which every statement has words, followed
-- by one closing brace, a word and a byte that ends a word: `Parse` takes the top of a stack that has
-- no element, whatever follows.
pub parse_extra_close-undefined :
    {s : Statement} {c : Config} {w : Text} (d : ℕ) (rest : Text)
    → IsPrintable (cons s c)
    → IsWord w
    → ends_token d ≡ true
    → parse (to_string (cons s c) ++ (b'}' ∷ (w ++ d ∷ rest))) ≡ undefined
unfolding scan turn
parse_extra_close-undefined {s} {c} d rest p w k =
    parse-parse_from _
    ∙ parse_from-config nil [] start (pos 0) 0 _ p refl
    ∙ parse_from_next _ _ _ refl
        (turn_close_root (cons s c) (last_of start (cons s c)) (b'}' ∷ []) closing)
    ∙ parse_from-round _ _
    ∙ ap (round_of _) (parse_token-IsWord d rest w k)
  where
    closing : is_closing (last_of start (cons s c)) ≡ true
    closing = last_of-is_closing (last_of_statement s) c (last_of_statement-is_closing s)
