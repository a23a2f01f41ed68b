-- ===== src/Server/Pool/Threads.antt =====
-- The threads that are in a connection.
use spaceteam.Common.{ℕ, ◌+◌, ◌==◌, ==_iff, Text, false, List, [], ◌∷◌, ◌++◌, ◌≡◌, refl, ap, arith}
use spaceteam.Http.Response.{ResponseCode}
use spaceteam.Server.Pool.Lives.{one_if, held_by, uncounted, texts_of}
use spaceteam.Server.Pool.{Thread, holding, counting}

-- The threads of one list are in the same connections as those of another, but for one connection, and
-- the texts of two lists are of the same connections, but for the same one.
abbrev pub SameBut : ℕ → List Thread → List Thread → List (ℕ × Text) → List (ℕ × Text) → Type 0
SameBut k ts us ws vs =
    (j : ℕ)
    → (k == j) ≡ false
    → (held_by j us ≡ held_by j ts)
      × (uncounted j us ≡ uncounted j ts)
      × (texts_of j vs ≡ texts_of j ws)

pub SameBut-refl : (k : ℕ) (ts : List Thread) (ws : List (ℕ × Text)) → SameBut k ts ts ws ws
SameBut-refl k ts ws j e = (refl, refl, refl)

pub SameBut-holding :
    (k : ℕ) (ts : List Thread) (ws : List (ℕ × Text)) → SameBut k ts (holding k ∷ ts) ws ws
SameBut-holding k ts ws j e = (rw e (omega arith), refl, refl)

pub SameBut-counting :
    (k : ℕ) (uri : Text) (code : ResponseCode) (text : Text) (ts : List Thread)
    (ws : List (ℕ × Text))
    → SameBut k ts (counting k uri code ∷ ts) ws ((k, text) ∷ ws)
SameBut-counting k uri code text ts ws j e = (refl, rw e (omega arith), rw e refl)

-- A text belongs to its connection.
pub texts_of_same :
    (k : ℕ) (text : Text) (ws : List (ℕ × Text))
    → texts_of k ((k, text) ∷ ws) ≡ text ∷ texts_of k ws
texts_of_same k text ws = rw ((==_iff k k).1 refl) refl

pub one_of_same : (k : ℕ) → one_if (k == k) ≡ 1
one_of_same k = ap one_if ((==_iff k k).1 refl)

pub held_by-append :
    (k : ℕ) (ts us : List Thread) → held_by k (ts ++ us) ≡ held_by k ts + held_by k us
held_by-append k [] us = omega arith
held_by-append k (holding j ∷ ts) us = omega (arith, held_by-append k ts us)
held_by-append k (counting j uri code ∷ ts) us = held_by-append k ts us

pub uncounted-append :
    (k : ℕ) (ts us : List Thread) → uncounted k (ts ++ us) ≡ uncounted k ts + uncounted k us
uncounted-append k [] us = omega arith
uncounted-append k (holding j ∷ ts) us = uncounted-append k ts us
uncounted-append k (counting j uri code ∷ ts) us = omega (arith, uncounted-append k ts us)
