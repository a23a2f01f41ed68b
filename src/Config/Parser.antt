-- ===== src/Config/Parser.antt =====
-- `NginxConfigParser::Parse`: the loop over the tokens, with its stack of open blocks.
use spaceteam.Common.{
  ℕ, zero, suc, Text, Bool, not, ◌&&◌, ◌||◌, List, [], ◌∷◌, length, if◌then◌else◌, ℤ, pos, succ,
  pred, is_nonzero, Option, none, some,
}
use spaceteam.Config.Lexer.{
  TokenType, start, normal, start_block, end_block, comment, statement_end, eof, error, is, scan,
  parse_token,
}
use spaceteam.Config.Syntax.{Config, nil, emplace_back, update_back, push_token, set_child}

-- `config_stack`: the block at the top and those below it. The last statement of each block below
-- owns the block above it, and gets it here when that one is popped. `emptied` holds the whole
-- configuration after the last pop, when the stack has no element.
pub data ConfigStack : Type 0 where
  stack : Config → List Config → ConfigStack
  emptied : Config → ConfigStack

-- the configuration that the caller holds
abbrev pub close : Config → List Config → Config
close top [] = top
close top (parent ∷ below) = close (update_back (set_child top) parent) below

abbrev pub whole : ConfigStack → Config
whole (stack top below) = close top below
whole (emptied c) = c

-- the variables of the loop
pub record Loop : Type 0 where
  pub config_stack : ConfigStack
  pub last : TokenType
  pub num_open_blocks : ℤ

-- One round: break, return true, an undefined operation on an empty stack, or another round.
pub data Turn : Type 0 where
  stop accept fault : Turn
  next : Loop → Turn

-- `continue` after a change of the stack, with `last_token_type = token_type`
abbrev pub advance : Loop → TokenType → ℤ → Option ConfigStack → Turn
advance l type n none = fault
advance l type n (some s) = next (record l { config_stack = s; last = type; num_open_blocks = n })

-- a word: it opens a statement unless it follows another word
abbrev pub add_token : Bool → Text → ConfigStack → Option ConfigStack
add_token opens v (stack top below) =
    some (stack (update_back (push_token v) (if opens then emplace_back top else top)) below)
add_token opens v (emptied c) = none

abbrev pub push_block : ConfigStack → Option ConfigStack
push_block (stack top below) = some (stack nil (top ∷ below))
push_block (emptied c) = none

abbrev pub pop_block : ConfigStack → Option ConfigStack
pop_block (stack top []) = some (emptied top)
pop_block (stack top (parent ∷ below)) = some (stack (update_back (set_child top) parent) below)
pop_block (emptied c) = none

unfoldable pub turn : TokenType → Text → Loop → Turn
turn error v l = stop
turn comment v l = next l
turn start v l = stop
turn normal v l =
    if is l.last start
      || is l.last statement_end
      || is l.last start_block
      || is l.last end_block
      || is l.last normal
    then advance l normal l.num_open_blocks (add_token (not (is l.last normal)) v l.config_stack)
    else stop
turn statement_end v l =
    if not (is l.last normal) then stop else next (record l { last = statement_end })
turn start_block v l =
    if not (is l.last normal)
    then stop
    else advance l start_block (succ l.num_open_blocks) (push_block l.config_stack)
turn end_block v l =
    if not (is l.last statement_end) && not (is l.last end_block) && not (is l.last start_block)
    then stop
    else advance l end_block (pred l.num_open_blocks) (pop_block l.config_stack)
turn eof v l =
    if is_nonzero l.num_open_blocks
      || not (is l.last statement_end) && not (is l.last end_block) && not (is l.last start)
    then stop
    else accept

-- `Parse` returns true or false, with the configuration that it has filled in; it runs into
-- undefined behaviour; or the fuel of the model ran out.
pub data Outcome : Type 0 where
  accepted rejected : Config → Outcome
  undefined out_of_fuel : Outcome

-- how the loop goes on after a round
abbrev pub settle : (Loop → Outcome) → Loop → Turn → Outcome
settle again l stop = rejected (whole l.config_stack)
settle again l accept = accepted (whole l.config_stack)
settle again l fault = undefined
settle again l (next l') = again l'

unfoldable pub run : ℕ → Loop → Text → Outcome
unfolding scan turn
run zero l input = out_of_fuel
run (suc f) l input =
    let (type, value, rest) = parse_token input in
    settle (λ l'. run f l' rest) l (turn type value l)

abbrev pub initial : Loop
initial = record { config_stack = stack nil []; last = start; num_open_blocks = pos zero }

-- `Parse(std::istream*, NginxConfig*)` on a configuration that is empty, as all callers pass it.
-- Every round but the last takes a byte, so one more round than bytes is enough.
unfoldable pub parse : Text → Outcome
parse input = run (suc (length input)) initial input

-- `Parse(const char*, NginxConfig*)`: `none` is a file that cannot be opened.
unfoldable pub parse_file : Option Text → Outcome
unfolding parse
parse_file none = rejected nil
parse_file (some bytes) = parse bytes
