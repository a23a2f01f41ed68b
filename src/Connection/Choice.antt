-- ===== src/Connection/Choice.antt =====
-- The search against its specification: the registered prefix than which none is longer.
use spaceteam.Common.{
  ℕ, zero, suc, ◌<◌, Text, [], ◌∷◌, none, some, length, take, take-append, Map, find, text_order,
  Option-cases, inl, inr, ◌↔◌, ◌≡◌, ◌≢◌, refl, ap, sym, ◌∙◌, arith, subst,
}
use native.Mathlib.Decide.{dec_lt}
use spaceteam.Connection.Longest.{find_handler-longest, find_handler_sound}
use spaceteam.Connection.Paths.{IsPathPrefix, whole, root, below}
use spaceteam.Connection.Prefixes.{shorten_uri_prefix-lt}
use spaceteam.Connection.{
  Search, matched, unmatched, out_of_fuel, search, find_handler, shorten_uri_prefix,
}

take_all : (t : Text) → take (length t) t ≡ t
take_all [] = refl
take_all (c ∷ t) = ap (◌∷◌ c) (take_all t)

-- A prefix by segments is the path's beginning.
take-IsPathPrefix : (q u : Text) → IsPathPrefix q (b'/' ∷ u) → take (length q) (b'/' ∷ u) ≡ q
take-IsPathPrefix q u (whole e) =
    ap (λ t. take (length t) (b'/' ∷ u)) e ∙ take_all (b'/' ∷ u) ∙ sym e
take-IsPathPrefix q u (root e) = rw e refl
take-IsPathPrefix q u (below rest ne e) = ap (take (length q)) e ∙ take-append q (b'/' ∷ rest)

-- So two prefixes of one length are the same.
same_prefix :
    (p q u : Text)
    → IsPathPrefix p (b'/' ∷ u)
    → IsPathPrefix q (b'/' ∷ u)
    → length p ≡ length q
    → p ≡ q
same_prefix p q u hp hq e =
    sym (take-IsPathPrefix p u hp) ∙ ap (λ n. take n (b'/' ∷ u)) e ∙ take-IsPathPrefix q u hq

module _ {ℓ} {H : Type ℓ} (handlers : Map Text H) where
  pub search-ne-out_of_fuel : (f : ℕ) (p : Text) → length p < f → search f handlers p ≢ out_of_fuel
  unfolding search
  search-ne-out_of_fuel zero p l e = absurd (omega arith)
  search-ne-out_of_fuel (suc f) [] l e = cc
  search-ne-out_of_fuel (suc f) (c ∷ cs) l e = elim (Option-cases (find (c ∷ cs) handlers)) [
    | inr (h, at) ↦ let m = rw at at e in cc
    | inl off ↦
        search-ne-out_of_fuel f (shorten_uri_prefix (c ∷ cs))
          (omega (arith, shorten_uri_prefix-lt c cs)) (rw off at e)
  ]

  -- `q` is registered, and no longer prefix of `uri` is
  pub record IsBest (uri q : Text) (h : H) : Type ℓ where
    pub prefix : IsPathPrefix q uri
    pub registered : find q handlers ≡ some h
    pub longest : (p : Text) → IsPathPrefix p uri → length q < length p → find p handlers ≡ none

  -- If a prefix by whole segments of a path that begins with a slash is registered, and no
  -- longer prefix of the path is, the search for the path finds that prefix and its handler.
  pub find_handler_best :
      (u q : Text) (h : H) → IsBest (b'/' ∷ u) q h → find_handler handlers (b'/' ∷ u) ≡ matched q h
  find_handler_best u q h best =
      let (p, g, found, registered, prefix, long) =
        find_handler-longest handlers u q h best.prefix best.registered in
      elim (dec_lt (length q) (length p)) [
        | yes longer ↦ let off = best.longest p prefix longer in cc
        | no not_longer ↦
            let same : p ≡ q = same_prefix p q u prefix best.prefix (omega arith) in
            let at : find q handlers ≡ some g =
              subst (λ t. find t handlers ≡ some g) same registered in
            let there = best.registered in found ∙ cc
      ]

  -- On a path that begins with a slash and has no registered prefix the search finds nothing.
  pub find_handler-unmatched :
      (u : Text)
      → ((p : Text) → IsPathPrefix p (b'/' ∷ u) → find p handlers ≡ none)
      → find_handler handlers (b'/' ∷ u) ≡ unmatched
  find_handler-unmatched u off = none_found (find_handler handlers (b'/' ∷ u)) refl
    where
      none_found : (s : Search H) → find_handler handlers (b'/' ∷ u) ≡ s → s ≡ unmatched
      none_found unmatched e = refl
      none_found (matched p h) e =
          let (registered, prefix) = find_handler_sound handlers u p h e in
          let off' = off p prefix in cc
      none_found out_of_fuel e = absurd (search-ne-out_of_fuel _ (b'/' ∷ u) (omega arith) e)

  found-IsBest :
      (u q : Text) (h : H) → find_handler handlers (b'/' ∷ u) ≡ matched q h → IsBest (b'/' ∷ u) q h
  found-IsBest u q h e =
      let (registered, prefix) = find_handler_sound handlers u q h e in
      record {
        prefix = prefix;
        registered = registered;
        longest = λ p pre longer. elim (Option-cases (find p handlers)) [
          | inl off ↦ off
          | inr (g, at) ↦
              let (k, i, found, here, fits, long) = find_handler-longest handlers u p g pre at in
              let same : k ≡ q = matched_inj (sym found ∙ e) in
              absurd (omega (arith, ap length same))
        ];
      }
    where
      matched_inj : {k q : Text} {i h : H} → matched k i ≡ matched q h → k ≡ q
      matched_inj e = cc

  none_registered :
      (u : Text)
      → find_handler handlers (b'/' ∷ u) ≡ unmatched
      → (p : Text) → IsPathPrefix p (b'/' ∷ u)
      → find p handlers ≡ none
  none_registered u e p pre = elim (Option-cases (find p handlers)) [
    | inl off ↦ off
    | inr (g, at) ↦
        let (k, i, found, here, fits, long) = find_handler-longest handlers u p g pre at in
        let both = sym found ∙ e in cc
  ]

  -- The search for a path that begins with a slash ends with a prefix and a handler exactly if the
  -- prefix is one of the path by whole segments that is registered with this handler, and no longer
  -- prefix of the path is registered. It ends with nothing exactly if no prefix of the path is
  -- registered.
  pub find_handler_iff :
      (u : Text)
      → ((q : Text) (h : H)
          → (find_handler handlers (b'/' ∷ u) ≡ matched q h) ↔ IsBest (b'/' ∷ u) q h)
        × ((find_handler handlers (b'/' ∷ u) ≡ unmatched)
            ↔ ((p : Text) → IsPathPrefix p (b'/' ∷ u) → find p handlers ≡ none))
  find_handler_iff u = (
    λ q h. (found-IsBest u q h, find_handler_best u q h),
    (none_registered u, find_handler-unmatched u),
  )
