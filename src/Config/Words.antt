-- ===== src/Config/Words.antt =====
-- The words that `ParseToken` returns with type NORMAL, and how it reads them.
use spaceteam.Common.{
  ℕ, Text, [], ◌∷◌, ◌++◌, append-nil, append_assoc, ◌≡◌, arith, Bool, true, false, not, ◌||◌, ◌==◌,
  if◌then◌else◌, All,
}
use spaceteam.Config.Lexer.{
  single_quote, double_quote, token_type_normal, TokenState, is_blank, ends_token, normal, scan,
  parse_token,
}

abbrev pub is_quote : ℕ → Bool
is_quote c = c == b'"' || c == b'\''

-- what an unquoted word can begin with
abbrev pub starts_word : ℕ → Bool
starts_word c = not (c == b'{' || c == b'}' || c == b'#' || is_quote c || c == b';' || is_blank c)

-- A word: an unquoted one, or a text between two quotes of one kind, which it does not hold.
pub data IsWord (w : Text) : Type 0 where
  plain :
      (c : ℕ) (cs : Text)
      → starts_word c ≡ true
      → All (λ d. ends_token d ≡ false) cs
      → w ≡ c ∷ cs
      → IsWord w
  quoted :
      (q : ℕ) (body : Text)
      → is_quote q ≡ true
      → All (λ d. (d == q) ≡ false) body
      → w ≡ q ∷ (body ++ q ∷ [])
      → IsWord w

scan_plain :
    (v cs : Text) (c : ℕ) (rest : Text)
    → All (λ d. ends_token d ≡ false) cs
    → ends_token c ≡ true
    → scan token_type_normal v (cs ++ c ∷ rest) ≡ (normal, v ++ cs, c ∷ rest)
unfolding scan
scan_plain v [] c rest h k = ground (arith, append-nil v)
scan_plain v (d ∷ cs) c rest h k =
    ground (arith, scan_plain (v ++ d ∷ []) cs c rest h.1 k, append_assoc v (d ∷ []) cs)

abbrev quote_state : ℕ → TokenState
quote_state q = if q == b'"' then double_quote else single_quote

scan_quoted :
    (q : ℕ) (v body rest : Text)
    → is_quote q ≡ true
    → All (λ d. (d == q) ≡ false) body
    → scan (quote_state q) v (body ++ q ∷ rest) ≡ (normal, v ++ (body ++ q ∷ []), rest)
unfolding scan
scan_quoted q v [] rest h k = ground arith
scan_quoted q v (d ∷ body) rest h k =
    ground
      (arith, scan_quoted q (v ++ d ∷ []) body rest h k.1, append_assoc v (d ∷ []) (body ++ q ∷ []))

-- A word before a byte that ends words is read whole.
pub parse_token-IsWord :
    {w : Text} (c : ℕ) (rest : Text)
    → IsWord w
    → ends_token c ≡ true
    → parse_token (w ++ c ∷ rest) ≡ (normal, w, c ∷ rest)
unfolding scan
parse_token-IsWord c rest (plain d cs s h e) k =
    rw e (ground (arith, scan_plain (d ∷ []) cs c rest h k))
parse_token-IsWord c rest (quoted q body s h e) k =
    rw (e, append_assoc) (ground (arith, scan_quoted q (q ∷ []) body (c ∷ rest) s h))
