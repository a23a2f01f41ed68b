-- ===== src/Handler/Streams.antt =====
-- What `ProxyHandler` reads from a stream: src/proxy_handler.cc, from the status line to the headers.
use spaceteam.Common.{
  ℕ, zero, suc, ◌+◌, ◌-◌, ◌*◌, ◌^◌, Text, codes, Bool, true, false, not, ◌&&◌, ◌||◌, [], ◌∷◌,
  Option, none, some, equal, length, take, drop, ltb, leb, ◌==◌, if◌then◌else◌,
}
use spaceteam.Connection.{index_of}
use spaceteam.Http.Response.{Response, add_header}

-- What a host sends: what the buffer holds after the first `read_until`, what the second one adds if
-- it reads (`none` if a read fails), what follows, and whether the end of it is the end of the stream.
pub record Conversation : Type 0 where
  pub line : Text
  pub more : Option Text
  pub tail : Text
  pub at_eof : Bool

abbrev pub is_space : ℕ → Bool
is_space c = c == b' ' || leb 9 c && leb c 13

unfoldable pub skip_spaces : Text → Text
skip_spaces [] = []
skip_spaces (c ∷ cs) = let more = skip_spaces cs in if is_space c then more else c ∷ cs

abbrev pub before : ℕ → Text × Text → Text × Text
before c (word, rest) = (c ∷ word, rest)

-- `stream >> word`: the word, and what is left
unfoldable pub word_of : Text → Text × Text
word_of [] = ([], [])
word_of (c ∷ cs) = let more = before c (word_of cs) in if is_space c then ([], c ∷ cs) else more

-- the digits of a number, and what is left
unfoldable pub digits_of : Text → Text × Text
digits_of [] = ([], [])
digits_of (c ∷ cs) =
    let more = before c (digits_of cs) in if leb b'0' c && leb c b'9' then more else ([], c ∷ cs)

abbrev pub number_of : ℕ → Text → ℕ
number_of n [] = n
number_of n (c ∷ ds) = number_of (10 * n + (c - b'0')) ds

abbrev unsigned_of : Bool → Text × Text → Option (ℕ × Text)
unsigned_of minus ([], rest) = none
unsigned_of minus (d ∷ ds, rest) =
    let n = number_of 0 (d ∷ ds) in
    if not (ltb n (2 ^ 32)) then none else some (if minus && ltb 0 n then 2 ^ 32 - n else n, rest)

-- `stream >> number` for an `unsigned`: the number, and what is left; `none` if the stream fails
abbrev pub read_unsigned : Text → Option (ℕ × Text)
read_unsigned [] = none
read_unsigned (c ∷ cs) =
    if c == b'-'
    then unsigned_of true (digits_of cs)
    else if c == b'+'
    then unsigned_of false (digits_of cs)
    else unsigned_of false (digits_of (c ∷ cs))

-- `std::getline`: the line, and what is behind its newline, or `none` where there is no newline
abbrev pub longer_line : ℕ → Text × Option Text → Text × Option Text
longer_line c (line, rest) = (c ∷ line, rest)

unfoldable pub get_line : Text → Text × Option Text
get_line [] = ([], none)
get_line (c ∷ cs) =
    let more = longer_line c (get_line cs) in if c == b'\n' then ([], some cs) else more

-- The line of a status: the version, the code, and what is left for the headers (`none` where the
-- stream is at its end). The whole is `none` where the stream has failed.
abbrev pub behind_code : Text → ℕ → Text × Option Text → Option (Text × ℕ × Option Text)
behind_code version code ([], none) = none
behind_code version code (message, rest) = some (version, code, rest)

abbrev pub with_code : Text → Option (ℕ × Text) → Option (Text × ℕ × Option Text)
with_code version none = none
with_code version (some (code, rest)) = behind_code version code (get_line rest)

abbrev pub with_version : Text × Text → Option (Text × ℕ × Option Text)
with_version ([], rest) = none
with_version (c ∷ version, rest) = with_code (c ∷ version) (read_unsigned (skip_spaces rest))

unfoldable pub status_of : Text → Option (Text × ℕ × Option Text)
unfolding skip_spaces word_of digits_of get_line
status_of line = with_version (word_of (skip_spaces line))

-- `text.substr(n)`; `none` is an exception
abbrev pub substr : ℕ → Text → Option Text
substr n text = if ltb (length text) n then none else some (drop n text)

-- one header line: its name and its value
abbrev pub valued : Text → Option Text → Option (Text × Text)
valued name none = none
valued name (some value) = some (name, value)

abbrev pub cut_header : Text → Option ℕ → Option (Text × Text)
cut_header line none = valued line (substr 1 line)
cut_header line (some pos) = valued (take pos line) (substr (pos + 2) line)

abbrev pub behind_scheme : Text → Option ℕ → Option Text
behind_scheme value none = substr 2 value
behind_scheme value (some pos) = substr (pos + 3) value

-- `substr(0, length() - 2)`, where a length below 2 wraps around to a large number
abbrev pub without_end : Text → Text
without_end host = if ltb (length host) 2 then host else take (length host - 2) host

abbrev pub location : Text → Option Text
location value = elim (behind_scheme value (index_of b':' value)) [
  | none ↦ none
  | some h ↦ some (without_end h)
]

-- the host and the response after a header
abbrev pub follow : Option Text → Response → Option (Text × Response)
follow none r = none
follow (some host) r = some (host, r)

abbrev pub take_header : ℕ → Option (Text × Text) → Text × Response → Option (Text × Response)
take_header code none (host, r) = none
take_header code (some (name, value)) (host, r) =
    if code == 302 && equal name (codes "Location")
    then follow (location value) (add_header name value r)
    else some (host, add_header name value r)

-- how the headers end: what is left of the buffer, the host and the response
pub data Heading : Type 0 where
  heading : Text → Text × Response → Heading
  threw_heading unfinished : Heading

abbrev pub go_on : (Text × Response → Heading) → Option (Text × Response) → Heading
go_on again none = threw_heading
go_on again (some s) = again s

abbrev pub or_nothing : Option Text → Text
or_nothing none = []
or_nothing (some text) = text

-- The loop over the header lines; each round but the last takes a byte.
abbrev pub behind_header :
    (Text → Text × Response → Heading) → Option Text → Text × Response → Heading
behind_header again none s = heading [] s
behind_header again (some text) s = again text s

abbrev pub read_line :
    (Text → Text × Response → Heading) → ℕ → Text × Option Text → Text × Response → Heading
read_line again code (line, rest) s =
    let next =
      go_on (behind_header again rest)
        (take_header code (cut_header line (index_of b':' line)) s) in
    if equal line (b'\r' ∷ []) then heading (or_nothing rest) s else next

unfoldable pub read_headers : ℕ → ℕ → Text → Text × Response → Heading
unfolding get_line index_of add_header
read_headers zero code text s = unfinished
read_headers (suc f) code [] s = heading [] s
read_headers (suc f) code (c ∷ cs) s =
    read_line (λ t s'. read_headers f code t s') code (get_line (c ∷ cs)) s
