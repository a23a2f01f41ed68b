-- ===== src/Config/Syntax.antt =====
-- `NginxConfig` and `NginxConfigStatement` of include/config_parser.h. A configuration owns its
-- statements and a statement owns its child block, so both are trees of values.
use spaceteam.Common.{Text, List, [], ◌∷◌, ◌++◌, Option, none, some, ◌≡◌, refl, ap}

-- `statements_` is spelled out by `nil` and `cons`. A statement holds `tokens_`; `simple` has a
-- null `child_block_`, and `block` one that is set.
mutual
  pub data Config : Type 0 where
    nil : Config
    cons : Statement → Config → Config

  pub data Statement : Type 0 where
    simple : List Text → Statement
    block : List Text → Config → Statement

abbrev pub tokens : Statement → List Text
tokens (simple ts) = ts
tokens (block ts c) = ts

abbrev pub child_block : Statement → Option Config
child_block (simple ts) = none
child_block (block ts c) = some c

abbrev pub statements : Config → List Statement
statements nil = []
statements (cons s c) = s ∷ statements c

abbrev pub append : Config → Config → Config
append nil d = d
append (cons s c) d = cons s (append c d)

-- `statements_.emplace_back(new NginxConfigStatement)`
abbrev pub emplace_back : Config → Config
emplace_back c = append c (cons (simple []) nil)

-- A change of `statements_.back()`. The parser makes it only where there is a last statement.
abbrev pub update_back : (Statement → Statement) → Config → Config
update_back f nil = nil
update_back f (cons s nil) = cons (f s) nil
update_back f (cons s (cons t c)) = cons s (update_back f (cons t c))

-- `tokens_.push_back(token)`
abbrev pub push_token : Text → Statement → Statement
push_token v (simple ts) = simple (ts ++ v ∷ [])
push_token v (block ts c) = block (ts ++ v ∷ []) c

-- `child_block_.reset(child)`
abbrev pub set_child : Config → Statement → Statement
set_child child (simple ts) = block ts child
set_child child (block ts c) = block ts child

pub update_back-append :
    (f : Statement → Statement) (c : Config) (s : Statement)
    → update_back f (append c (cons s nil)) ≡ append c (cons (f s) nil)
update_back-append f nil s = refl
update_back-append f (cons t nil) s = refl
update_back-append f (cons t (cons u c)) s = ap (cons t) (update_back-append f (cons u c) s)

pub append-append : (c d e : Config) → append (append c d) e ≡ append c (append d e)
append-append nil d e = refl
append-append (cons s c) d e = ap (cons s) (append-append c d e)

pub append-nil_config : (c : Config) → append c nil ≡ c
append-nil_config nil = refl
append-nil_config (cons s c) = ap (cons s) (append-nil_config c)
