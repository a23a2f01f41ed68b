-- ===== src/Http/Request/Pieces.antt =====
-- How the parser reads each piece of a request, with any `rest` behind it.
use spaceteam.Common.{
  Text, codes, Bool, true, false, [], ◌∷◌, ◌++◌, append-nil, append_assoc, ◌≡◌, ◌≢◌, refl, ap, ◌∙◌,
  All, ◌&&◌,
}
use spaceteam.Http.Characters.{is_ctl, token-ne, ctl-ne_return}
use spaceteam.Http.Request.{consume_in, parse_loop}
use spaceteam.Http.Fields.{
  Request, Headers, good, header_line_start, header_name, space_before_header_value, header_value,
  expecting_newline_2, body_state, update_back,
}
use spaceteam.Http.Request.Line.{at, took, parse_loop-next, IsToken}

pub update_back-append :
    (f : Text × Text → Text × Text) (hs : Headers) (h : Text × Text)
    → update_back f (hs ++ h ∷ []) ≡ hs ++ f h ∷ []
update_back-append f [] h = refl
update_back-append f (k ∷ []) h = refl
update_back-append f (k ∷ l ∷ hs) h = ap (◌∷◌ k) (update_back-append f (l ∷ hs) h)

-- with one more header
abbrev with_header : Request → Text → Text → Request
with_header r name value = record r { headers = r.headers ++ (name, value) ∷ [] }

parse_loop-name :
    (n m : Text) (r : Request) (rest : Text)
    → IsToken n
    → parse_loop (at header_name (with_header r m [])) (n ++ rest)
      ≡ parse_loop (at header_name (with_header (took n r) (m ++ n) [])) rest
unfolding consume_in
parse_loop-name [] m r rest h = simp append-nil
parse_loop-name (c ∷ n) m r rest h =
    parse_loop-next header_name header_name (with_header r m [])
      (with_header (took (c ∷ []) r) (m ++ c ∷ []) []) c _
      (rw ((token-ne c h.0).1, h.0, update_back-append))
    ∙ parse_loop-name n (m ++ c ∷ []) (took (c ∷ []) r) rest h.1
    ∙ simp append_assoc

-- what a header's value may hold
abbrev pub IsValue : Text → Type 0
IsValue = All (λ c. is_ctl c ≡ false)

parse_loop-value :
    (v w name : Text) (r : Request) (rest : Text)
    → IsValue v
    → parse_loop (at header_value (with_header r name w)) (v ++ rest)
      ≡ parse_loop (at header_value (with_header (took v r) name (w ++ v))) rest
unfolding consume_in
parse_loop-value [] w name r rest h = simp append-nil
parse_loop-value (c ∷ v) w name r rest h =
    parse_loop-next header_value header_value (with_header r name w)
      (with_header (took (c ∷ []) r) name (w ++ c ∷ [])) c _
      (rw (ctl-ne_return c h.0, h.0, update_back-append))
    ∙ parse_loop-value v (w ++ c ∷ []) name (took (c ∷ []) r) rest h.1
    ∙ simp append_assoc

-- a header: a token, and a value without control characters
abbrev pub IsHeader : Text × Text → Type 0
IsHeader (name, value) = (name ≢ []) × IsToken name × IsValue value

abbrev pub header_text : Text × Text → Text
header_text (name, value) = name ++ (codes ": " ++ (value ++ codes "\r\n"))

and_false : (b : Bool) → (b && false) ≡ false
and_false true = refl
and_false false = refl

parse_loop-header :
    (name value : Text) (r : Request) (rest : Text)
    → IsHeader (name, value)
    → parse_loop (at header_line_start r) (header_text (name, value) ++ rest)
      ≡ parse_loop
          (at header_line_start (with_header (took (header_text (name, value)) r) name value))
          rest
unfolding consume_in
parse_loop-header [] value r rest (ne, h, k) = absurd (ne refl)
parse_loop-header (c ∷ name) value r rest (ne, h, k) =
    let t = token-ne c h.0 in
    let q₁ = took name (took (c ∷ []) r) in
    let q₂ = took (b':' ∷ []) q₁ in
    let q₃ = took (b' ' ∷ []) q₂ in
    let q₄ = took value q₃ in
    let q₅ = took (b'\r' ∷ []) q₄ in
    let n = c ∷ name in
    let first = with_header (took (c ∷ []) r) (c ∷ []) [] in
    simp append_assoc (
      parse_loop-next header_line_start header_name r first c _
        (rw (t.2, t.0, t.3, and_false, h.0, update_back-append))
      ∙ parse_loop-name name (c ∷ []) (took (c ∷ []) r) _ h.1
      ∙ parse_loop-next header_name space_before_header_value (with_header q₁ n [])
          (with_header q₂ n []) b':' _ refl
      ∙ parse_loop-next space_before_header_value header_value (with_header q₂ n [])
          (with_header q₃ n []) b' ' _ refl
      ∙ parse_loop-value value [] n q₃ _ k
      ∙ parse_loop-next header_value expecting_newline_2 (with_header q₄ n value)
          (with_header q₅ n value) b'\r' _ refl
      ∙ parse_loop-next expecting_newline_2 header_line_start (with_header q₅ n value)
          (with_header (took (b'\n' ∷ []) q₅) n value) b'\n' _ refl
      ∙ simp append_assoc)

abbrev pub headers_text : Headers → Text
headers_text [] = []
headers_text (h ∷ hs) = header_text h ++ headers_text hs

pub parse_loop-headers :
    (hs : Headers) (r : Request) (rest : Text)
    → All IsHeader hs
    → parse_loop (at header_line_start r) (headers_text hs ++ rest)
      ≡ parse_loop
          (at header_line_start (record (took (headers_text hs) r) { headers = r.headers ++ hs }))
          rest
parse_loop-headers [] r rest h = simp append-nil
parse_loop-headers ((name, value) ∷ hs) r rest h = rw append_assoc (
    parse_loop-header name value r _ h.0
    ∙ parse_loop-headers hs (with_header (took (header_text (name, value)) r) name value) rest h.1
    ∙ simp append_assoc)

pub parse_loop-body :
    (b : Text) (r : Request)
    → parse_loop (record r { state = body_state; parsed_status = good }) b
      ≡ record (took b r) { state = body_state; parsed_status = good; body = r.body ++ b }
unfolding parse_loop
parse_loop-body [] r = simp append-nil
parse_loop-body (c ∷ b) r =
    parse_loop-body b (record (took (c ∷ []) r) { body = r.body ++ c ∷ [] }) ∙ simp append_assoc
