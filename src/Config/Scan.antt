-- ===== src/Config/Scan.antt =====
-- What `ParseToken` returns with type NORMAL is a word.
use spaceteam.Common.{
  ℕ, Text, [], ◌∷◌, ◌++◌, ◌≡◌, refl, ap, Bool, true, false, All, All-append, ◌==◌, ==_iff,
  if◌then◌else◌, ◌||◌,
}
use spaceteam.Config.Lexer.{
  TokenType, TokenState, Round, go_on, found, found_before, initial_whitespace, single_quote,
  double_quote, token_type_comment, token_type_normal, normal, is_blank, ends_token, round_in,
  at_end, resume, scan,
}
use spaceteam.Config.Words.{IsWord, plain, quoted, is_quote, starts_word}

-- an unquoted word that may go on
pub data IsPlain (v : Text) : Type 0 where
  is_plain :
      (c : ℕ) (cs : Text)
      → starts_word c ≡ true
      → All (λ d. ends_token d ≡ false) cs
      → v ≡ c ∷ cs
      → IsPlain v

-- a quoted word that is not closed
pub data IsOpen (q : ℕ) (v : Text) : Type 0 where
  is_open : (body : Text) → All (λ d. (d == q) ≡ false) body → v ≡ q ∷ body → IsOpen q v

IsPlain-start : (c : ℕ) → starts_word c ≡ true → IsPlain (c ∷ [])
IsPlain-start c h = is_plain c [] h tt refl

IsPlain-concat : (v : Text) (c : ℕ) → ends_token c ≡ false → IsPlain v → IsPlain (v ++ c ∷ [])
IsPlain-concat v c h (is_plain d cs s k e) =
    is_plain d (cs ++ c ∷ []) s (All-append _ cs (c ∷ []) k (h, tt)) (rw e)

IsPlain-IsWord : (v : Text) → IsPlain v → IsWord v
IsPlain-IsWord v (is_plain c cs s k e) = plain c cs s k e

IsOpen-start : (q c : ℕ) → (c == q) ≡ true → IsOpen q (c ∷ [])
IsOpen-start q c h = is_open [] tt (ap (λ d. d ∷ []) ((==_iff c q).0 h))

IsOpen-concat : (q : ℕ) (v : Text) (c : ℕ) → (c == q) ≡ false → IsOpen q v → IsOpen q (v ++ c ∷ [])
IsOpen-concat q v c h (is_open body k e) =
    is_open (body ++ c ∷ []) (All-append _ body (c ∷ []) k (h, tt)) (rw e)

IsOpen-close :
    (q : ℕ) (v : Text) (c : ℕ)
    → is_quote q ≡ true
    → (c == q) ≡ true
    → IsOpen q v
    → IsWord (v ++ c ∷ [])
IsOpen-close q v c h e (is_open body k p) = quoted q body h k (rw (p, (==_iff c q).0 e))

-- what each state knows of the value
abbrev pub Partial : TokenState → Text → Type 0
Partial initial_whitespace v = v ≡ []
Partial single_quote v = IsOpen b'\'' v
Partial double_quote v = IsOpen b'"' v
Partial token_type_comment v = Unit
Partial token_type_normal v = IsPlain v

abbrev pub Fits : TokenType → Text → Type 0
Fits normal v = IsWord v
Fits _ v = Unit

abbrev After : Round → Type 0
After (go_on s v) = Partial s v
After (found t v) = Fits t v
After (found_before t v) = Fits t v

After-if :
    (b : Bool) (r r' : Round)
    → (b ≡ true → After r)
    → (b ≡ false → After r')
    → After (if b then r else r')
After-if true r r' h k = h refl
After-if false r r' h k = k refl

round_in-After : (s : TokenState) (v : Text) (c : ℕ) → Partial s v → After (round_in s v c)
unfolding round_in
round_in-After initial_whitespace v c h =
    After-if (c == b'{') _ _ (λ _. tt)
      λ p₁.
        After-if (c == b'}') _ _ (λ _. tt)
          λ p₂.
            After-if (c == b'#') _ _ (λ _. tt)
              λ p₃.
                After-if (c == b'"') _ _ (λ e. IsOpen-start b'"' c e)
                  λ p₄.
                    After-if (c == b'\'') _ _ (λ e. IsOpen-start b'\'' c e)
                      λ p₅.
                        After-if (c == b';') _ _ (λ _. tt)
                          λ p₆.
                            After-if (is_blank c) _ _ (λ _. h)
                              λ p₇. rw h (IsPlain-start c (rw (p₁, p₂, p₃, p₄, p₅, p₆, p₇)))
round_in-After single_quote v c h =
    After-if (c == b'\'') _ _ (λ e. IsOpen-close b'\'' v c refl e h)
      λ e. IsOpen-concat b'\'' v c e h
round_in-After double_quote v c h =
    After-if (c == b'"') _ _ (λ e. IsOpen-close b'"' v c refl e h) λ e. IsOpen-concat b'"' v c e h
round_in-After token_type_comment v c h = After-if (c == b'\n' || c == b'\r') _ _ (λ _. tt) λ _. tt
round_in-After token_type_normal v c h =
    After-if (ends_token c) _ _ (λ _. IsPlain-IsWord v h) λ e. IsPlain-concat v c e h

resume-After :
    (again : TokenState → Text → TokenType × Text × Text) (c : ℕ) (cs : Text) (r : Round)
    → ((s : TokenState) (v : Text) → Partial s v → Fits (again s v).0 (again s v).1)
    → After r
    → Fits (resume again c cs r).0 (resume again c cs r).1
resume-After again c cs (go_on s v) k h = k s v h
resume-After again c cs (found t v) k h = h
resume-After again c cs (found_before t v) k h = h

Fits-at_end : (s : TokenState) (v : Text) → Fits (at_end s) v
Fits-at_end single_quote v = tt
Fits-at_end double_quote v = tt
Fits-at_end _ v = tt

-- A token is a word if its type says so.
pub scan-Fits :
    (s : TokenState) (v input : Text) → Partial s v → Fits (scan s v input).0 (scan s v input).1
unfolding scan
scan-Fits s v [] h = Fits-at_end s v
scan-Fits s v (c ∷ cs) h =
    resume-After _ c cs _ (λ s' v' h'. scan-Fits s' v' cs h') (round_in-After s v c h)
