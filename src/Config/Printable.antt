-- ===== src/Config/Printable.antt =====
-- The configurations that the format can express.
use spaceteam.Common.{Text, List, [], ◌∷◌, ◌++◌, All, All-append}
use spaceteam.Config.Syntax.{Config, Statement, nil, cons, simple, block, append}
use spaceteam.Config.Words.{IsWord}

-- one word or more
abbrev pub HasWords : List Text → Type 0
HasWords [] = ⊥
HasWords (t ∷ ts) = IsWord t × All IsWord ts

-- Every statement, at every depth, has words.
mutual
  pub data IsPrintable : Config → Type 0 where
    done : IsPrintable nil
    more : {s : Statement} {c : Config} → IsStatement s → IsPrintable c → IsPrintable (cons s c)

  pub data IsStatement : Statement → Type 0 where
    has_words : {ts : List Text} → HasWords ts → IsStatement (simple ts)
    has_block :
        {ts : List Text} {c : Config} → HasWords ts → IsPrintable c → IsStatement (block ts c)

pub IsPrintable-append : {c d : Config} → IsPrintable c → IsPrintable d → IsPrintable (append c d)
IsPrintable-append done q = q
IsPrintable-append (more s p) q = more s (IsPrintable-append p q)

pub HasWords-append : (ts : List Text) (t : Text) → HasWords ts → IsWord t → HasWords (ts ++ t ∷ [])
HasWords-append [] t h w = absurd h
HasWords-append (u ∷ ts) t h w = (h.0, All-append IsWord ts (t ∷ []) h.1 (w, tt))
