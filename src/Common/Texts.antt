-- ===== src/Common/Texts.antt =====
-- Texts as lists of bytes (0 to 255), as `std::string` holds them, and comparison of texts.
use Prim.Native.Char.{code}
use Prim.Native.Nat.{ℕ}
use Prim.Native.String.{String}
use mathlib.Core.Path.{◌≡◌, refl}
use mathlib.Core.Logic.{◌↔◌}
use mathlib.Core.Bool.{Bool, true, false, ◌&&◌}
use mathlib.Core.List.{List, [], ◌∷◌}
use native.Mathlib.Omega.{arith}
use spaceteam.Common.Tests.{◌==◌, ltb, if◌then◌else◌}

abbrev pub Text : Type 0
Text = List ℕ

-- A literal of the source; every one is ASCII.
abbrev pub codes : String → Text
codes String.[] = []
codes (String.◌∷◌ c s) = code c ∷ codes s

-- `operator==` of `std::string`
unfoldable pub equal : Text → Text → Bool
equal [] [] = true
equal (x ∷ xs) (y ∷ ys) = x == y && equal xs ys
equal _ _ = false

pub equal_iff : (a b : Text) → (equal a b ≡ true) ↔ (a ≡ b)
unfolding equal
equal_iff (x ∷ a) (y ∷ b) = ground (arith, equal_iff a b)
equal_iff _ _ = ground arith

pub equal_refl : (a : Text) → equal a a ≡ true
equal_refl a = (equal_iff a a).1 refl

-- `operator<` of `std::string`: bytes are compared as unsigned numbers.
unfoldable pub less : Text → Text → Bool
less _ [] = false
less [] (y ∷ ys) = true
less (x ∷ xs) (y ∷ ys) =
    let rest = less xs ys in if ltb x y then true else if ltb y x then false else rest

pub less_trans : (a b c : Text) → less a b ≡ true → less b c ≡ true → less a c ≡ true
unfolding less
less_trans a b [] h k = ground arith
less_trans a [] (z ∷ c) h k = ground arith
less_trans [] (y ∷ b) (z ∷ c) h k = refl
less_trans (x ∷ a) (y ∷ b) (z ∷ c) h k = ground (arith, less_trans a b c)

pub less_total : (a b : Text) → equal a b ≡ false → less a b ≡ false → less b a ≡ true
unfolding less equal
less_total [] [] h k = cc
less_total (x ∷ a) [] h k = refl
less_total [] (y ∷ b) h k = cc
less_total (x ∷ a) (y ∷ b) h k = ground (arith, less_total a b)

pub less_irrefl : (a : Text) → less a a ≡ false
unfolding less
less_irrefl [] = refl
less_irrefl (x ∷ a) = ground (arith, less_irrefl a)

-- a text as a C string: up to its first zero
abbrev pub c_string : Text → Text
c_string [] = []
c_string (c ∷ text) = if c == 0 then [] else c ∷ c_string text

abbrev pub NoZero : Text → Type 0
NoZero [] = Unit
NoZero (c ∷ text) = ((c == 0) ≡ false) × NoZero text

pub c_string_id : (text : Text) → NoZero text → c_string text ≡ text
c_string_id [] h = refl
c_string_id (c ∷ text) h = rw (h.0, c_string_id text h.1) refl
