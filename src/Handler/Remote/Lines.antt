-- ===== src/Handler/Remote/Lines.antt =====
-- How the proxy reads one header line.
use spaceteam.Common.{
  ℕ, suc, ◌+◌, Text, false, [], ◌∷◌, ◌++◌, List, some, equal, length, length-append, take,
  take-append, drop, ◌==◌, ltb, All, ◌≡◌, refl, ap, ◌∙◌, arith,
}
use spaceteam.Connection.{index_of}
use spaceteam.Handler.Streams.{
  get_line, valued, read_line, Heading, cut_header, read_headers, substr, go_on, take_header,
}
use spaceteam.Http.Response.{Response, add_header}

-- a header without a colon in its name, and without newlines
abbrev pub IsLine : Text × Text → Type 0
IsLine (name, value) =
    All (λ c. ((c == b':') ≡ false) × ((c == b'\n') ≡ false)) name
    × All (λ c. (c == b'\n') ≡ false) value

-- what stands in a line behind the name
abbrev pub colon_value : Text → Text
colon_value value = b':' ∷ b' ' ∷ (value ++ b'\r' ∷ [])

abbrev pub line_text : Text × Text → Text
line_text (name, value) = name ++ colon_value value

abbrev pub lines_text : List (Text × Text) → Text
lines_text [] = []
lines_text (h ∷ hs) = line_text h ++ (b'\n' ∷ lines_text hs)

-- the headers as they are passed on: each value has the carriage return of its line
abbrev pub passed : List (Text × Text) → List (Text × Text)
passed [] = []
passed ((name, value) ∷ hs) = (name, value ++ b'\r' ∷ []) ∷ passed hs

get_line-value :
    (value rest : Text)
    → All (λ c. (c == b'\n') ≡ false) value
    → get_line ((value ++ b'\r' ∷ []) ++ b'\n' ∷ rest) ≡ (value ++ b'\r' ∷ [], some rest)
unfolding get_line
get_line-value [] rest h = refl
get_line-value (c ∷ value) rest h = rw (h.0, get_line-value value rest h.1)

pub get_line-line :
    (name value rest : Text)
    → IsLine (name, value)
    → get_line (line_text (name, value) ++ b'\n' ∷ rest) ≡ (line_text (name, value), some rest)
unfolding get_line
get_line-line [] value rest h = rw (get_line-value value rest h.1)
get_line-line (c ∷ name) value rest h = rw (h.0.0.1, get_line-line name value rest (h.0.1, h.1))

index_of-line :
    (name value : Text)
    → IsLine (name, value)
    → index_of b':' (line_text (name, value)) ≡ some (length name)
unfolding index_of
index_of-line [] value h = refl
index_of-line (c ∷ name) value h = rw (h.0.0.0, index_of-line name value (h.0.1, h.1))

equal-line : (name value : Text) → equal (line_text (name, value)) (b'\r' ∷ []) ≡ false
unfolding equal
equal-line [] value = refl
equal-line (c ∷ []) value = ground arith
equal-line (c ∷ d ∷ name) value = ground arith

drop_two : (name v : Text) (a b : ℕ) → drop (suc (suc (length name))) (name ++ a ∷ b ∷ v) ≡ v
drop_two [] v a b = refl
drop_two (c ∷ name) v a b = drop_two name v a b

drop-line :
    (name value : Text) → drop (length name + 2) (line_text (name, value)) ≡ value ++ b'\r' ∷ []
drop-line name value =
    let two : length name + 2 ≡ suc (suc (length name)) = omega arith in
    ap (λ n. drop n (line_text (name, value))) two ∙ drop_two name (value ++ b'\r' ∷ []) b':' b' '

long-line : (name value : Text) → ltb (length (line_text (name, value))) (length name + 2) ≡ false
long-line name value = ground (arith, length-append name (colon_value value))

substr_within :
    (n : ℕ) (text : Text) → ltb (length text) n ≡ false → substr n text ≡ some (drop n text)
substr_within n text h = rw h refl

cut_header-line :
    (name value : Text)
    → cut_header (line_text (name, value)) (some (length name)) ≡ some (name, value ++ b'\r' ∷ [])
cut_header-line name value =
    let text = line_text (name, value) in
    ap (valued (take (length name) text))
      (substr_within (length name + 2) text (long-line name value) ∙ ap some (drop-line name value))
    ∙ ap (λ n. some (n, value ++ b'\r' ∷ [])) (take-append name (colon_value value))

-- A header line is taken, and the loop goes on behind it.
pub read_line-taken :
    (again : Text → Text × Response → Heading) (code : ℕ) (name value rest : Text)
    (s : Text × Response)
    → IsLine (name, value)
    → read_line again code (line_text (name, value), some rest) s
      ≡ go_on (again rest) (take_header code (some (name, value ++ b'\r' ∷ [])) s)
unfolding index_of
read_line-taken again code name value rest s h =
    rw (equal-line name value, index_of-line name value h, cut_header-line name value) refl

pub read_line-line :
    (again : Text → Text × Response → Heading) (code : ℕ) (name value rest host : Text)
    (r : Response)
    → (code == 302) ≡ false
    → IsLine (name, value)
    → read_line again code (line_text (name, value), some rest) (host, r)
      ≡ again rest (host, add_header name (value ++ b'\r' ∷ []) r)
read_line-line again code name value rest host r k h =
    read_line-taken again code name value rest (host, r) h ∙ rw k refl

pub read_headers-step :
    (f code : ℕ) (name value rest : Text) (s : Text × Response)
    → read_headers (suc f) code (line_text (name, value) ++ rest) s
      ≡ read_line
          (λ t s'. read_headers f code t s')
          code
          (get_line (line_text (name, value) ++ rest))
          s
unfolding read_headers
read_headers-step f code [] value rest s = refl
read_headers-step f code (c ∷ name) value rest s = refl
