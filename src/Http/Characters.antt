-- ===== src/Http/Characters.antt =====
-- The character tests of `Request`. A byte is passed as a `char`, which is signed: the bytes from
-- 128 on are negative numbers to the tests.
use spaceteam.Common.{ℕ, Bool, not, ◌&&◌, ◌||◌, ◌==◌, ltb, leb, ◌≡◌, true, false, arith}

-- `c >= 0`
abbrev is_nonnegative : ℕ → Bool
is_nonnegative c = ltb c 128

unfoldable pub is_char : ℕ → Bool
is_char c = is_nonnegative c && leb c 127

unfoldable pub is_ctl : ℕ → Bool
is_ctl c = is_nonnegative c && leb c 31 || c == 127

unfoldable pub is_tspecial : ℕ → Bool
is_tspecial c =
    c == b'('
    || c == b')'
    || c == b'<'
    || c == b'>'
    || c == b'@'
    || c == b','
    || c == b';'
    || c == b':'
    || c == b'\\'
    || c == b'"'
    || c == b'/'
    || c == b'['
    || c == b']'
    || c == b'?'
    || c == b'='
    || c == b'{'
    || c == b'}'
    || c == b' '
    || c == b'\t'

unfoldable pub is_digit : ℕ → Bool
is_digit c = leb b'0' c && leb c b'9'

-- the test that methods and header names fail by
abbrev pub is_no_token : ℕ → Bool
is_no_token c = not (is_char c) || is_ctl c || is_tspecial c

-- No character of a token ends it.
pub token-ne :
    (c : ℕ)
    → is_no_token c ≡ false
    → ((c == b' ') ≡ false)
      × ((c == b':') ≡ false)
      × ((c == b'\r') ≡ false)
      × ((c == b'\t') ≡ false)
unfolding is_char is_ctl is_tspecial
token-ne c h = ground arith

pub ctl-ne_return : (c : ℕ) → is_ctl c ≡ false → (c == b'\r') ≡ false
unfolding is_ctl
ctl-ne_return c h = ground arith

pub digit-ne : (c : ℕ) → is_digit c ≡ true → ((c == b'.') ≡ false) × ((c == b'\r') ≡ false)
unfolding is_digit
digit-ne c h = ground arith
