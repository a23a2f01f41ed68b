-- ===== src/Connection/Longest.antt =====
-- The search finds the longest registered prefix of a path.
use spaceteam.Common.{
  ℕ, zero, suc, ◌≤◌, ◌<◌, Text, [], ◌∷◌, none, some, length, length-append, Map, find, text_order,
  Option-cases, inl, inr, ◌≡◌, ◌≢◌, refl, ap, sym, ◌∙◌, arith, subst,
}
use spaceteam.Connection.Prefixes.{shorten_uri_prefix-lt}
use spaceteam.Connection.{Search, matched, search, find_handler}
use spaceteam.Connection.Paths.{
  IsPathPrefix, whole, root, up, top, end, shortened, IsPathPrefix-down, IsPathPrefix-up,
  IsPathPrefix-top, length-IsPathPrefix, IsPathPrefix-root,
}

module _ {ℓ} {H : Type ℓ} (handlers : Map Text H) where
  -- a registered prefix `p` of `uri`, found, that is no shorter than `n`
  abbrev pub Matches : Text → ℕ → Search H → Type ℓ
  Matches uri n s =
      (p : Text) × (h : H) × (s ≡ matched p h)
      × (find p handlers ≡ some h)
      × IsPathPrefix p uri
      × (n ≤ length p)

  Matches-up :
      (u v : Text) (n : ℕ) (s : Search H)
      → ((p : Text) → IsPathPrefix p v → IsPathPrefix p u)
      → Matches v n s
      → Matches u n s
  Matches-up u v n s lift (p, h, e, at, pre, le) = (p, h, e, at, lift p pre, le)

  unregistered : (u q : Text) (h : H) → find u handlers ≡ none → find q handlers ≡ some h → q ≢ u
  unregistered u q h no_entry e f = let g = ap (λ t. find t handlers) f in cc

  search-longest :
      (f : ℕ) (u q : Text) (h : H)
      → length (b'/' ∷ u) < f
      → IsPathPrefix q (b'/' ∷ u)
      → find q handlers ≡ some h
      → Matches (b'/' ∷ u) (length q) (search f handlers (b'/' ∷ u))
  unfolding search
  search-longest zero u q h l pre e = absurd (omega arith)
  search-longest (suc f) u q h l pre e = elim (Option-cases (find (b'/' ∷ u) handlers)) [
    | inr (g, at) ↦ rw at (b'/' ∷ u, g, refl, at, whole refl, length-IsPathPrefix q u b'/' pre)
    | inl off ↦ elim (shortened u) [
      | up v seg s e' n ↦ elim (IsPathPrefix-down u v seg q e' n pre) [
        | inl g ↦ absurd (unregistered (b'/' ∷ u) q h off e g)
        | inr lower ↦
            rw (off, s)
              (Matches-up (b'/' ∷ u) (b'/' ∷ v) (length q) (search f handlers (b'/' ∷ v))
                (λ p. IsPathPrefix-up u v seg p e')
                (search-longest f v q h (omega (arith, ap length e', length-append v (b'/' ∷ seg)))
                  lower e))
      ]
      | top s n ↦ elim (IsPathPrefix-top u q n pre) [
        | inl g ↦ absurd (unregistered (b'/' ∷ u) q h off e g)
        | inr g ↦
            rw (off, s)
              (Matches-up (b'/' ∷ u) (b'/' ∷ []) (length q) (search f handlers (b'/' ∷ []))
                (λ p r. root (IsPathPrefix-root p r))
                (search-longest f [] q h (omega (arith, ap length s, shorten_uri_prefix-lt b'/' u))
                  (whole g) e))
      ]
      | end s n ↦ absurd (
          unregistered (b'/' ∷ u) q h off e (
            IsPathPrefix-root q (subst (λ t. IsPathPrefix q (b'/' ∷ t)) n pre)
            ∙ ap (◌∷◌ b'/') (sym n)))
    ]
  ]

  nothing_left : (f : ℕ) (p : Text) (h : H) → search f handlers [] ≢ matched p h
  unfolding search
  nothing_left zero p h = cc
  nothing_left (suc f) p h = cc

  matched_here :
      (u : Text) (g : H) (p : Text) (h : H)
      → find (b'/' ∷ u) handlers ≡ some g
      → Search.matched (b'/' ∷ u) g ≡ matched p h
      → (find p handlers ≡ some h) × IsPathPrefix p (b'/' ∷ u)
  matched_here u g p h here e =
      let same : b'/' ∷ u ≡ p = cc in
      (subst (λ t. find t handlers ≡ some h) same cc, whole (sym same))

  search_sound :
      (f : ℕ) (u p : Text) (h : H)
      → search f handlers (b'/' ∷ u) ≡ matched p h
      → (find p handlers ≡ some h) × IsPathPrefix p (b'/' ∷ u)
  unfolding search
  search_sound zero u p h e = cc
  search_sound (suc f) u p h e = elim (Option-cases (find (b'/' ∷ u) handlers)) [
    | inr (g, here) ↦ matched_here u g p h here (rw here at e)
    | inl off ↦ elim (shortened u) [
      | up v seg s e' n ↦
          let r = search_sound f v p h (rw (off, s) at e) in (r.0, IsPathPrefix-up u v seg p e' r.1)
      | top s n ↦
          let r = search_sound f [] p h (rw (off, s) at e) in (r.0, root (IsPathPrefix-root p r.1))
      | end s n ↦ absurd (nothing_left f p h (rw (off, s) at e))
    ]
  ]

  -- A search for the handler of a path that begins with a slash: if some prefix `q` of the path by
  -- whole segments (the path itself and "/" among them) is registered, the search ends with a
  -- registered prefix of the path that is at least as long as `q`.
  pub find_handler-longest :
      (u q : Text) (h : H)
      → IsPathPrefix q (b'/' ∷ u)
      → find q handlers ≡ some h
      → Matches (b'/' ∷ u) (length q) (find_handler handlers (b'/' ∷ u))
  find_handler-longest u q h pre e =
      search-longest (suc (length (b'/' ∷ u))) u q h (omega arith) pre e

  -- What a search for the handler of a path that begins with a slash ends with is registered, under a
  -- prefix of the path by whole segments.
  pub find_handler_sound :
      (u p : Text) (h : H)
      → find_handler handlers (b'/' ∷ u) ≡ matched p h
      → (find p handlers ≡ some h) × IsPathPrefix p (b'/' ∷ u)
  find_handler_sound u = search_sound (suc (length (b'/' ∷ u))) u
