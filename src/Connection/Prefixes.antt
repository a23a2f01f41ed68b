-- ===== src/Connection/Prefixes.antt =====
-- The prefixes that the search tries.
use spaceteam.Common.{
  ℕ, zero, suc, ◌≤◌, ◌<◌, Text, false, [], ◌∷◌, some, equal, length, take, Map, find, text_order,
  Bool-cases, Option-cases, inl, inr, ◌≡◌, refl, ap, arith,
}
use spaceteam.Connection.{
  last_index_of, shorten_at, shorten_uri_prefix, is_empty, search, search_step, find_handler,
}

last_index_of-lt : (c : ℕ) (text : Text) (i : ℕ) → last_index_of c text ≡ some i → i < length text
unfolding last_index_of
last_index_of-lt c [] i h = cc
last_index_of-lt c (d ∷ text) i h = elim (Option-cases (last_index_of c text)) [
  | inl e ↦ ground arith
  | inr (j, e) ↦ ground (arith, last_index_of-lt c text j e)
]

length-take_le : (n : ℕ) (text : Text) → length (take n text) ≤ n
length-take_le zero text = omega arith
length-take_le (suc n) [] = omega arith
length-take_le (suc n) (c ∷ text) = omega (arith, length-take_le n text)

shorten_at-lt :
    (c : ℕ) (cs : Text) (i : ℕ)
    → equal (c ∷ cs) (b'/' ∷ []) ≡ false
    → last_index_of b'/' (c ∷ cs) ≡ some i
    → length (shorten_at (c ∷ cs) (some i)) < length (c ∷ cs)
unfolding last_index_of equal
shorten_at-lt c [] i e at = ground arith
shorten_at-lt c (d ∷ cs) i e at = elim (Bool-cases (is_empty (take i (c ∷ d ∷ cs)))) [
  | inl n ↦ rw n (omega arith)
  | inr n ↦
      rw n (omega (arith, length-take_le i (c ∷ d ∷ cs), last_index_of-lt b'/' (c ∷ d ∷ cs) i at))
]

-- A prefix that is not empty gets shorter.
pub shorten_uri_prefix-lt :
    (c : ℕ) (cs : Text) → length (shorten_uri_prefix (c ∷ cs)) < length (c ∷ cs)
unfolding shorten_uri_prefix
shorten_uri_prefix-lt c cs = elim (Bool-cases (equal (c ∷ cs) (b'/' ∷ []))) [
  | inl e ↦ rw e (omega arith)
  | inr e ↦ elim (Option-cases (last_index_of b'/' (c ∷ cs))) [
    | inl n ↦ rw (e, n) (omega arith)
    | inr (i, at) ↦ rw (e, at) (shorten_at-lt c cs i e at)
  ]
]

search_fuel {ℓ} :
    {H : Type ℓ} (f g : ℕ) (handlers : Map Text H) (p : Text)
    → length p < f
    → length p < g
    → search f handlers p ≡ search g handlers p
unfolding search
search_fuel zero g handlers p h k = absurd (omega arith)
search_fuel (suc f) zero handlers p h k = absurd (omega arith)
search_fuel (suc f) (suc g) handlers [] h k = refl
search_fuel (suc f) (suc g) handlers (c ∷ cs) h k =
    let shorter = shorten_uri_prefix-lt c cs in
    ap (search_step (c ∷ cs) (find (c ∷ cs) handlers))
      (search_fuel f g handlers (shorten_uri_prefix (c ∷ cs)) (omega arith) (omega arith))

-- The search of a prefix, without fuel.
pub find_handler-cons {ℓ} :
    {H : Type ℓ} (handlers : Map Text H) (c : ℕ) (cs : Text)
    → find_handler handlers (c ∷ cs)
      ≡ search_step
          (c ∷ cs)
          (find (c ∷ cs) handlers)
          (find_handler handlers (shorten_uri_prefix (c ∷ cs)))
unfolding search
find_handler-cons handlers c cs =
    let p = shorten_uri_prefix (c ∷ cs) in
    ap (search_step (c ∷ cs) (find (c ∷ cs) handlers)) (
      search_fuel (suc (length cs)) (suc (length p)) handlers p
        (omega (arith, shorten_uri_prefix-lt c cs)) (omega arith))
