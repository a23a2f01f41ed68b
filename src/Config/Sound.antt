-- ===== src/Config/Sound.antt =====
-- What `Parse` accepts is printable: every statement has words, at every depth.
use spaceteam.Common.{
  ℕ, zero, suc, Text, List, [], ◌∷◌, ◌++◌, ◌≡◌, refl, sym, ◌∙◌, subst, All, ℤ, pos, length,
}
use spaceteam.Config.Lexer.{
  TokenType, normal, start, start_block, end_block, comment, statement_end, eof, error,
  initial_whitespace,
}
use spaceteam.Config.Parser.{
  ConfigStack, stack, emptied, close, whole, Loop, Turn, stop, accept, fault, next, turn, Outcome,
  accepted, settle, run, initial, parse, advance, pop_block,
}
use spaceteam.Config.Printable.{
  IsPrintable, HasWords, done, more, has_words, has_block, IsPrintable-append, HasWords-append,
}
use spaceteam.Config.Syntax.{
  Config, nil, cons, simple, append, emplace_back, update_back, push_token, set_child,
  update_back-append,
}
use spaceteam.Config.RoundTrip.{parse-to_string}
use spaceteam.Config.Printer.{to_string}
use spaceteam.Config.Scan.{Fits, scan-Fits}
use spaceteam.Config.Words.{IsWord}

-- the last statement of a block, whose words are being read or whose child is open
data Pending (c : Config) : Type 0 where
  pending :
      (before : Config) (ts : List Text)
      → IsPrintable before
      → HasWords ts
      → c ≡ append before (cons (simple ts) nil)
      → Pending c

abbrev Top : TokenType → Config → Type 0
Top normal c = Pending c
Top _ c = IsPrintable c

abbrev StackInv : TokenType → ConfigStack → Type 0
StackInv t (stack top below) = Top t top × All Pending below
StackInv t (emptied c) = Top t c × IsPrintable c

Pending-set_child :
    (c top : Config) → Pending c → IsPrintable top → IsPrintable (update_back (set_child top) c)
Pending-set_child c top (pending before ts p h e) q =
    rw (e, update_back-append) (IsPrintable-append p (more (has_block h q) done))

Pending-end : (c : Config) → Pending c → IsPrintable c
Pending-end c (pending before ts p h e) = rw e (IsPrintable-append p (more (has_words h) done))

Pending-first :
    (c : Config) (w : Text)
    → IsPrintable c
    → IsWord w
    → Pending (update_back (push_token w) (emplace_back c))
Pending-first c w p h = pending c (w ∷ []) p (h, tt) (update_back-append _ c (simple []))

Pending-more :
    (c : Config) (w : Text) → Pending c → IsWord w → Pending (update_back (push_token w) c)
Pending-more c w (pending before ts p h e) k =
    pending before (ts ++ w ∷ []) p (HasWords-append ts w h k) (rw (e, update_back-append))

close-IsPrintable :
    (top : Config) (below : List Config)
    → IsPrintable top
    → All Pending below
    → IsPrintable (close top below)
close-IsPrintable top [] p h = p
close-IsPrintable top (c ∷ below) p h =
    close-IsPrintable _ below (Pending-set_child c top h.0 p) h.1

-- what a round leaves
abbrev Sound : Loop → Turn → Type 0
Sound l stop = Unit
Sound l accept = IsPrintable (whole l.config_stack)
Sound l fault = Unit
Sound l (next l') = StackInv l'.last l'.config_stack

abbrev loop : ConfigStack → TokenType → ℤ → Loop
loop s last n = record { config_stack = s; last = last; num_open_blocks = n }

turn_normal-Sound :
    (v : Text) (s : ConfigStack) (last : TokenType) (n : ℤ)
    → IsWord v
    → StackInv last s
    → Sound (loop s last n) (turn normal v (loop s last n))
unfolding turn
turn_normal-Sound v (stack top below) normal n w (p, q) = (Pending-more top v p w, q)
turn_normal-Sound v (stack top below) start n w (p, q) = (Pending-first top v p w, q)
turn_normal-Sound v (stack top below) statement_end n w (p, q) = (Pending-first top v p w, q)
turn_normal-Sound v (stack top below) start_block n w (p, q) = (Pending-first top v p w, q)
turn_normal-Sound v (stack top below) end_block n w (p, q) = (Pending-first top v p w, q)
turn_normal-Sound v (emptied c) normal n w h = tt
turn_normal-Sound v _ _ n w h = tt

turn_end-Sound :
    (v : Text) (s : ConfigStack) (last : TokenType) (n : ℤ)
    → StackInv last s
    → Sound (loop s last n) (turn statement_end v (loop s last n))
unfolding turn
turn_end-Sound v (stack top below) normal n (p, q) = (Pending-end top p, q)
turn_end-Sound v (emptied c) normal n (p, q) = (q, q)
turn_end-Sound v _ _ n h = tt

turn_open-Sound :
    (v : Text) (s : ConfigStack) (last : TokenType) (n : ℤ)
    → StackInv last s
    → Sound (loop s last n) (turn start_block v (loop s last n))
unfolding turn
turn_open-Sound v (stack top below) normal n (p, q) = (done, (p, q))
turn_open-Sound v (emptied c) normal n h = tt
turn_open-Sound v _ _ n h = tt

pop-Sound :
    (top : Config) (below : List Config) (t : TokenType) (n m : ℤ)
    → IsPrintable top
    → All Pending below
    → Sound
        (loop (stack top below) t n)
        (advance (loop (stack top below) t n) end_block m (pop_block (stack top below)))
pop-Sound top [] t n m p q = (p, p)
pop-Sound top (c ∷ below) t n m p q = (Pending-set_child c top q.0 p, q.1)

turn_close-Sound :
    (v : Text) (s : ConfigStack) (last : TokenType) (n : ℤ)
    → StackInv last s
    → Sound (loop s last n) (turn end_block v (loop s last n))
unfolding turn
turn_close-Sound v (stack top below) statement_end n (p, q) =
    pop-Sound top below statement_end n _ p q
turn_close-Sound v (stack top below) end_block n (p, q) = pop-Sound top below end_block n _ p q
turn_close-Sound v (stack top below) start_block n (p, q) = pop-Sound top below start_block n _ p q
turn_close-Sound v (emptied c) statement_end n h = tt
turn_close-Sound v _ _ n h = tt

whole-IsPrintable :
    (s : ConfigStack) (t : TokenType) → (Top t ≡ IsPrintable) → StackInv t s → IsPrintable (whole s)
whole-IsPrintable (stack top below) t e (p, q) =
    close-IsPrintable top below (subst (λ f. f top) e p) q
whole-IsPrintable (emptied c) t e (p, q) = q

turn_eof-Sound :
    (v : Text) (s : ConfigStack) (last : TokenType) (n : ℤ)
    → StackInv last s
    → Sound (loop s last n) (turn eof v (loop s last n))
unfolding turn
turn_eof-Sound v s statement_end (pos zero) h = whole-IsPrintable s statement_end refl h
turn_eof-Sound v s end_block (pos zero) h = whole-IsPrintable s end_block refl h
turn_eof-Sound v s start (pos zero) h = whole-IsPrintable s start refl h
turn_eof-Sound v s normal (pos zero) h = tt
turn_eof-Sound v s start_block (pos zero) h = tt
turn_eof-Sound v s comment (pos zero) h = tt
turn_eof-Sound v s eof (pos zero) h = tt
turn_eof-Sound v s error (pos zero) h = tt
turn_eof-Sound v s _ _ h = tt

turn-Sound :
    (type : TokenType) (v : Text) (l : Loop)
    → Fits type v
    → StackInv l.last l.config_stack
    → Sound l (turn type v l)
turn-Sound normal v l f h = turn_normal-Sound v l.config_stack l.last l.num_open_blocks f h
turn-Sound statement_end v l f h = turn_end-Sound v l.config_stack l.last l.num_open_blocks h
turn-Sound start_block v l f h = turn_open-Sound v l.config_stack l.last l.num_open_blocks h
turn-Sound end_block v l f h = turn_close-Sound v l.config_stack l.last l.num_open_blocks h
turn-Sound eof v l f h = turn_eof-Sound v l.config_stack l.last l.num_open_blocks h
turn-Sound comment v l f h = unfold turn in h
turn-Sound _ v l f h = unfold turn in tt

abbrev Ensures : Outcome → Type 0
Ensures (accepted c) = IsPrintable c
Ensures _ = Unit

settle-Ensures :
    (again : Loop → Outcome) (l : Loop) (t : Turn)
    → ((l' : Loop) → StackInv l'.last l'.config_stack → Ensures (again l'))
    → Sound l t
    → Ensures (settle again l t)
settle-Ensures again l stop k h = tt
settle-Ensures again l accept k h = h
settle-Ensures again l fault k h = tt
settle-Ensures again l (next l') k h = k l' h

run-Ensures :
    (f : ℕ) (l : Loop) (input : Text) → StackInv l.last l.config_stack → Ensures (run f l input)
unfolding run
run-Ensures zero l input h = tt
run-Ensures (suc f) l input h =
    settle-Ensures _ l _ (λ l' h'. run-Ensures f l' _ h')
      (turn-Sound _ _ l (scan-Fits initial_whitespace [] input refl) h)

-- Whatever `Parse` accepts has a word or more in each statement, at every depth, and its words are
-- unquoted words or texts in quotes.
parse-IsPrintable : (input : Text) {c : Config} → parse input ≡ accepted c → IsPrintable c
unfolding parse
parse-IsPrintable input e =
    subst Ensures e (run-Ensures (suc (length input)) initial input (done, tt))

-- To print an accepted configuration and parse the print gives the same configuration.
pub parse-to_string-parse :
    (input : Text) {c : Config} → parse input ≡ accepted c → parse (to_string c) ≡ parse input
parse-to_string-parse input e = parse-to_string (parse-IsPrintable input e) ∙ sym e
