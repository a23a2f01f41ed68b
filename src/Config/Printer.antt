-- ===== src/Config/Printer.antt =====
-- `NginxConfig::ToString` and `NginxConfigStatement::ToString`.
use spaceteam.Common.{ℕ, zero, suc, Text, codes, List, [], ◌∷◌, ◌++◌}
use spaceteam.Config.Syntax.{Config, Statement, nil, cons, simple, block}

-- the loop that appends two blanks for each level
abbrev pub indent : ℕ → Text
indent zero = []
indent (suc d) = b' ' ∷ b' ' ∷ indent d

-- the loop over the tokens, a blank before each but the first
abbrev pub join_rest : List Text → Text
join_rest [] = []
join_rest (t ∷ ts) = b' ' ∷ (t ++ join_rest ts)

abbrev pub join : List Text → Text
join [] = []
join (t ∷ ts) = t ++ join_rest ts

unfoldable mutual
  pub config_to_string : ℕ → Config → Text
  config_to_string d nil = []
  config_to_string d (cons s c) = statement_to_string d s ++ config_to_string d c

  pub statement_to_string : ℕ → Statement → Text
  statement_to_string d (simple ts) = indent d ++ (join ts ++ codes ";\n")
  statement_to_string d (block ts c) =
      indent d
      ++ (join ts ++ (codes " {\n" ++ (config_to_string (suc d) c ++ (indent d ++ codes "}\n"))))

-- `ToString()` with its default depth
abbrev pub to_string : Config → Text
to_string c = config_to_string 0 c
