-- ===== src/Connection/Paths.antt =====
-- Paths, their prefixes by whole segments, and what `ShortenUriPrefix` makes of them.
use spaceteam.Common.{
  ℕ, ◌≤◌, Text, false, [], ◌∷◌, ◌++◌, none, some, equal, length, length-append, take-append, ◌==◌,
  ==_iff, append_assoc, text_order, All, Bool-cases, inl, inr, ◌⊎◌, ◌≡◌, ◌≢◌, refl, ap, sym, ◌∙◌,
  arith, subst,
}
use spaceteam.Connection.{last_index_of, shorten_uri_prefix}

abbrev pub NoSlash : Text → Type 0
NoSlash = All (λ c. (c == b'/') ≡ false)

last_index_of-NoSlash : (seg : Text) → NoSlash seg → last_index_of b'/' seg ≡ none
unfolding last_index_of
last_index_of-NoSlash [] h = refl
last_index_of-NoSlash (c ∷ seg) h = rw (h.0, last_index_of-NoSlash seg h.1)

last_index_of-append :
    (p seg : Text) → NoSlash seg → last_index_of b'/' (p ++ b'/' ∷ seg) ≡ some (length p)
unfolding last_index_of
last_index_of-append [] seg h = rw (last_index_of-NoSlash seg h)
last_index_of-append (c ∷ p) seg h = rw (last_index_of-append p seg h)

not_root : (c : ℕ) (p seg : Text) → equal ((c ∷ p) ++ b'/' ∷ seg) (b'/' ∷ []) ≡ false
unfolding equal
not_root c [] seg = ground arith
not_root c (d ∷ p) seg = ground arith

-- A path that has something before its last slash is cut before that slash.
shorten_uri_prefix-append :
    (c : ℕ) (p seg : Text) → NoSlash seg → shorten_uri_prefix ((c ∷ p) ++ b'/' ∷ seg) ≡ c ∷ p
unfolding shorten_uri_prefix
shorten_uri_prefix-append c p seg h =
    rw (not_root c p seg, last_index_of-append (c ∷ p) seg h, take-append)

shorten_uri_prefix-segment :
    (c : ℕ) (seg : Text) → NoSlash (c ∷ seg) → shorten_uri_prefix (b'/' ∷ c ∷ seg) ≡ b'/' ∷ []
unfolding shorten_uri_prefix equal
shorten_uri_prefix-segment c seg h = rw (last_index_of-append [] (c ∷ seg) h)

-- `q` is a prefix of the path `uri` by whole segments.
pub data IsPathPrefix (q uri : Text) : Type 0 where
  whole : q ≡ uri → IsPathPrefix q uri
  root : q ≡ b'/' ∷ [] → IsPathPrefix q uri
  below : (rest : Text) → q ≢ [] → uri ≡ q ++ b'/' ∷ rest → IsPathPrefix q uri

record Cut (u : Text) : Type 0 where
  before : Text
  segment : Text
  joined : b'/' ∷ u ≡ before ++ b'/' ∷ segment
  last : NoSlash segment

cut_text : (u : Text) → NoSlash u ⊎ ((b : Text) × (s : Text) × (u ≡ b ++ b'/' ∷ s) × NoSlash s)
cut_text [] = inl tt
cut_text (c ∷ u) = elim (cut_text u) [
  | inr (b, s, e, n) ↦ inr (c ∷ b, s, ap (◌∷◌ c) e, n)
  | inl n ↦ elim (Bool-cases (c == b'/')) [
    | inl e ↦ inr ([], u, ap (λ d. d ∷ u) ((==_iff c b'/').0 e), n)
    | inr e ↦ inl (e, n)
  ]
]

-- Every path has a last slash.
cut : (u : Text) → Cut u
cut u = elim (cut_text u) [
  | inl n ↦ record { before = []; segment = u; joined = refl; last = n }
  | inr (b, s, e, n) ↦ record { before = b'/' ∷ b; segment = s; joined = ap (◌∷◌ b'/') e; last = n }
]

not-NoSlash : (q rest : Text) → NoSlash (q ++ b'/' ∷ rest) → ⊥
not-NoSlash [] rest h = cc (h.0)
not-NoSlash (c ∷ q) rest h = not-NoSlash q rest h.1

nil-ne-append : (q r : Text) → [] ≢ q ++ b'/' ∷ r
nil-ne-append [] r = cc
nil-ne-append (c ∷ q) r = cc

tail_eq : {c d : ℕ} {s t : Text} → c ∷ s ≡ d ∷ t → s ≡ t
tail_eq e = cc

-- A slash is the last one of a path, or stands before the last one.
same_slash :
    (p seg q rest : Text)
    → NoSlash seg
    → p ++ b'/' ∷ seg ≡ q ++ b'/' ∷ rest
    → (q ≡ p) ⊎ ((r : Text) × (p ≡ q ++ b'/' ∷ r))
same_slash [] seg [] rest h e = inl refl
same_slash [] seg (d ∷ q) rest h e = absurd (not-NoSlash q rest (subst NoSlash (tail_eq e) h))
same_slash (c ∷ p) seg [] rest h e = inr (p, cc)
same_slash (c ∷ p) seg (d ∷ q) rest h e = elim (same_slash p seg q rest h (tail_eq e)) [
  | inl f ↦ inl cc
  | inr (r, f) ↦ inr (r, cc)
]

-- what a path is shortened to
pub data Shortened (u : Text) : Type 0 where
  up :
      (v seg : Text)
      → shorten_uri_prefix (b'/' ∷ u) ≡ b'/' ∷ v
      → b'/' ∷ u ≡ (b'/' ∷ v) ++ b'/' ∷ seg
      → NoSlash seg
      → Shortened u
  top : shorten_uri_prefix (b'/' ∷ u) ≡ b'/' ∷ [] → NoSlash u → Shortened u
  end : shorten_uri_prefix (b'/' ∷ u) ≡ [] → u ≡ [] → Shortened u

Shortened-at : (u b s : Text) → b'/' ∷ u ≡ b ++ b'/' ∷ s → NoSlash s → Shortened u
Shortened-at u [] [] e n = end (unfold shorten_uri_prefix equal in rw (tail_eq e)) (tail_eq e)
Shortened-at u [] (c ∷ s) e n =
    top (ap shorten_uri_prefix e ∙ shorten_uri_prefix-segment c s n)
      (subst NoSlash (sym (tail_eq e)) n)
Shortened-at u (c ∷ b) s e n =
    let head : c ≡ b'/' = cc in
    up b s (ap shorten_uri_prefix e ∙ shorten_uri_prefix-append c b s n ∙ ap (λ d. d ∷ b) head)
      (e ∙ ap (λ d. d ∷ (b ++ b'/' ∷ s)) head) n

pub shortened : (u : Text) → Shortened u
shortened u = let k = cut u in Shortened-at u k.before k.segment k.joined k.last

-- The prefixes of a path are the path and the prefixes of what it is shortened to.
pub IsPathPrefix-down :
    (u v seg q : Text)
    → b'/' ∷ u ≡ (b'/' ∷ v) ++ b'/' ∷ seg
    → NoSlash seg
    → IsPathPrefix q (b'/' ∷ u)
    → (q ≡ b'/' ∷ u) ⊎ IsPathPrefix q (b'/' ∷ v)
IsPathPrefix-down u v seg q e n (whole f) = inl f
IsPathPrefix-down u v seg q e n (root f) = inr (root f)
IsPathPrefix-down u v seg q e n (below rest ne f) =
    elim (same_slash (b'/' ∷ v) seg q rest n (sym e ∙ f)) [
      | inl g ↦ inr (whole g)
      | inr (r, g) ↦ inr (below r ne g)
    ]

pub IsPathPrefix-up :
    (u v seg q : Text)
    → b'/' ∷ u ≡ (b'/' ∷ v) ++ b'/' ∷ seg
    → IsPathPrefix q (b'/' ∷ v)
    → IsPathPrefix q (b'/' ∷ u)
IsPathPrefix-up u v seg q e (whole f) = below seg (λ z. cc) (e ∙ ap (λ t. t ++ b'/' ∷ seg) (sym f))
IsPathPrefix-up u v seg q e (root f) = root f
IsPathPrefix-up u v seg q e (below rest ne f) =
    below (rest ++ b'/' ∷ seg) ne
      (e ∙ ap (λ t. t ++ b'/' ∷ seg) f ∙ append_assoc q (b'/' ∷ rest) (b'/' ∷ seg))

-- a path with one slash has itself and "/"
pub IsPathPrefix-top :
    (u q : Text) → NoSlash u → IsPathPrefix q (b'/' ∷ u) → (q ≡ b'/' ∷ u) ⊎ (q ≡ b'/' ∷ [])
IsPathPrefix-top u q n (whole f) = inl f
IsPathPrefix-top u q n (root f) = inr f
IsPathPrefix-top u q n (below rest ne f) = elim (same_slash [] u q rest n f) [
  | inl g ↦ absurd (ne g)
  | inr (r, g) ↦ absurd (nil-ne-append q r g)
]

pub length-IsPathPrefix :
    (q uri : Text) (c : ℕ) → IsPathPrefix q (c ∷ uri) → length q ≤ length (c ∷ uri)
length-IsPathPrefix q uri c (whole e) = omega (arith, ap length e)
length-IsPathPrefix q uri c (root e) = omega (arith, ap length e)
length-IsPathPrefix q uri c (below rest ne e) =
    omega (arith, ap length e, length-append q (b'/' ∷ rest))

pub IsPathPrefix-root : (q : Text) → IsPathPrefix q (b'/' ∷ []) → q ≡ b'/' ∷ []
IsPathPrefix-root q (whole e) = e
IsPathPrefix-root q (root e) = e
IsPathPrefix-root [] (below rest ne e) = absurd (ne refl)
IsPathPrefix-root (c ∷ q) (below rest ne e) = absurd (nil-ne-append q rest (tail_eq e))
