-- ===== src/Config/Lexer.antt =====
-- `NginxConfigParser::ParseToken`. The stream is the list of the bytes that it still holds.
use spaceteam.Common.{ℕ, Text, codes, Bool, ◌||◌, [], ◌∷◌, ◌++◌, ◌==◌, if◌then◌else◌}

pub data TokenType : Type 0 where
  start normal start_block end_block comment statement_end eof error : TokenType

-- the enumeration's values, by which it is compared
abbrev pub token_number : TokenType → ℕ
token_number start = 0
token_number normal = 1
token_number start_block = 2
token_number end_block = 3
token_number comment = 4
token_number statement_end = 5
token_number eof = 6
token_number error = 7

abbrev pub is : TokenType → TokenType → Bool
is a b = token_number a == token_number b

-- `TokenTypeAsString`, which only messages use
abbrev pub token_type_as_string : TokenType → Text
token_type_as_string start = codes "TOKEN_TYPE_START"
token_type_as_string normal = codes "TOKEN_TYPE_NORMAL"
token_type_as_string start_block = codes "TOKEN_TYPE_START_BLOCK"
token_type_as_string end_block = codes "TOKEN_TYPE_END_BLOCK"
token_type_as_string comment = codes "TOKEN_TYPE_COMMENT"
token_type_as_string statement_end = codes "TOKEN_TYPE_STATEMENT_END"
token_type_as_string eof = codes "TOKEN_TYPE_EOF"
token_type_as_string error = codes "TOKEN_TYPE_ERROR"

pub data TokenState : Type 0 where
  initial_whitespace single_quote double_quote token_type_comment token_type_normal : TokenState

-- One round of the loop: go on with a state and a value, return a token, or return one after
-- `input->unget()`.
pub data Round : Type 0 where
  go_on : TokenState → Text → Round
  found : TokenType → Text → Round
  found_before : TokenType → Text → Round

abbrev pub is_blank : ℕ → Bool
is_blank c = c == b' ' || c == b'\t' || c == b'\n' || c == b'\r'

-- what ends an unquoted token; the source tests '\t' twice, and never '\r'
abbrev pub ends_token : ℕ → Bool
ends_token c =
    c == b' ' || c == b'\t' || c == b'\n' || c == b'\t' || c == b';' || c == b'{' || c == b'}'

unfoldable pub round_in : TokenState → Text → ℕ → Round
round_in initial_whitespace value c =
    if c == b'{'
    then found start_block (c ∷ [])
    else if c == b'}'
    then found end_block (c ∷ [])
    else if c == b'#'
    then go_on token_type_comment (c ∷ [])
    else if c == b'"'
    then go_on double_quote (c ∷ [])
    else if c == b'\''
    then go_on single_quote (c ∷ [])
    else if c == b';'
    then found statement_end (c ∷ [])
    else if is_blank c
    then go_on initial_whitespace value
    else go_on token_type_normal (value ++ c ∷ [])
round_in single_quote value c =
    if c == b'\'' then found normal (value ++ c ∷ []) else go_on single_quote (value ++ c ∷ [])
round_in double_quote value c =
    if c == b'"' then found normal (value ++ c ∷ []) else go_on double_quote (value ++ c ∷ [])
round_in token_type_comment value c =
    if c == b'\n' || c == b'\r'
    then found comment value
    else go_on token_type_comment (value ++ c ∷ [])
round_in token_type_normal value c =
    if ends_token c then found_before normal value else go_on token_type_normal (value ++ c ∷ [])

-- what is returned when the stream has no more bytes
abbrev pub at_end : TokenState → TokenType
at_end single_quote = error
at_end double_quote = error
at_end _ = eof

-- how a round ends, with the byte that it read and the bytes behind it
abbrev pub resume :
    (TokenState → Text → TokenType × Text × Text) → ℕ → Text → Round → TokenType × Text × Text
resume again c cs (go_on state value) = again state value
resume again c cs (found type value) = (type, value, cs)
resume again c cs (found_before type value) = (type, value, c ∷ cs)

-- the loop; it returns the token's type, its value and the stream
unfoldable pub scan : TokenState → Text → Text → TokenType × Text × Text
unfolding round_in
scan state value [] = (at_end state, value, [])
scan state value (c ∷ cs) = resume (λ s v. scan s v cs) c cs (round_in state value c)

abbrev pub parse_token : Text → TokenType × Text × Text
parse_token input = scan initial_whitespace [] input
