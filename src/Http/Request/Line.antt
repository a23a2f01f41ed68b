-- ===== src/Http/Request/Line.antt =====
-- How the parser reads a method, a URI and numbers.
use spaceteam.Common.{
  ℕ, Text, true, false, [], ◌∷◌, ◌++◌, append-nil, append_assoc, ◌≡◌, refl, ap, ◌∙◌, All, ◌==◌,
  if◌then◌else◌, Bool-cases, inl, inr,
}
use spaceteam.Http.Characters.{is_ctl, is_digit, is_no_token, token-ne, digit-ne}
use spaceteam.Http.Request.{consume_in, consume, parse_loop, proceed}
use spaceteam.Http.Fields.{
  Request, State, indeterminate, method_inside, handler_path, uri_inside, http_version_h,
  http_version_major, http_version_minor, add_digit,
}

-- in state `s`, after a byte that did not complete the request
abbrev pub at : State → Request → Request
at s r = record r { state = s; parsed_status = indeterminate }

abbrev pub took : Text → Request → Request
took w r = record r { raw_request = r.raw_request ++ w }

-- A byte that takes the parser from state `s` to state `s'`.
pub parse_loop-next :
    (s s' : State) (r r' : Request) (c : ℕ) (cs : Text)
    → consume (at s r) c ≡ (at s' r', indeterminate)
    → parse_loop (at s r) (c ∷ cs) ≡ parse_loop (at s' r') cs
unfolding parse_loop
parse_loop-next s s' r r' c cs e = ap (proceed (λ r''. parse_loop r'' cs)) e

abbrev pub IsToken : Text → Type 0
IsToken = All (λ c. is_no_token c ≡ false)

pub parse_loop-method :
    (m : Text) (r : Request) (rest : Text)
    → IsToken m
    → parse_loop (at method_inside r) (m ++ rest)
      ≡ parse_loop (at method_inside (record (took m r) { method = r.method ++ m })) rest
unfolding consume_in
parse_loop-method [] r rest h = simp append-nil
parse_loop-method (c ∷ m) r rest h =
    let r' = record (took (c ∷ []) r) { method = r.method ++ c ∷ [] } in
    parse_loop-next method_inside method_inside r r' c _ (rw ((token-ne c h.0).0, h.0))
    ∙ parse_loop-method m r' rest h.1
    ∙ simp append_assoc

-- what a URI may hold behind its first slash
abbrev pub IsUriTail : Text → Type 0
IsUriTail = All (λ c. ((c == b' ') ≡ false) × (is_ctl c ≡ false))

parse_loop-uri_inside :
    (p : Text) (r : Request) (rest : Text)
    → IsUriTail p
    → parse_loop (at uri_inside r) (p ++ b' ' ∷ rest)
      ≡ parse_loop
          (at http_version_h
            (record (took (p ++ b' ' ∷ []) r) { uri = r.uri ++ p; file_path = r.file_path ++ p }))
          rest
unfolding consume_in
parse_loop-uri_inside [] r rest h =
    simp append-nil
      (parse_loop-next uri_inside http_version_h r (took (b' ' ∷ []) r) b' ' rest refl)
parse_loop-uri_inside (c ∷ p) r rest h =
    let r' = record (took (c ∷ []) r) {
      uri = r.uri ++ c ∷ [];
      file_path = r.file_path ++ c ∷ [];
    } in
    parse_loop-next uri_inside uri_inside r r' c _ (rw (h.0.0, h.0.1))
    ∙ parse_loop-uri_inside p r' rest h.1
    ∙ simp append_assoc

-- the part of a URI before its second slash, given without the first, and the part from there on
abbrev pub before_slash : Text → Text
before_slash [] = []
before_slash (c ∷ p) = if c == b'/' then [] else c ∷ before_slash p

abbrev pub from_slash : Text → Text
from_slash [] = []
from_slash (c ∷ p) = if c == b'/' then c ∷ p else from_slash p

pub parse_loop-uri :
    (p : Text) (r : Request) (rest : Text)
    → IsUriTail p
    → parse_loop (at handler_path r) (p ++ b' ' ∷ rest)
      ≡ parse_loop
          (at http_version_h (record (took (p ++ b' ' ∷ []) r) {
            uri = r.uri ++ p;
            handler_path = r.handler_path ++ before_slash p;
            file_path = r.file_path ++ from_slash p;
          }))
          rest
unfolding consume_in
parse_loop-uri [] r rest h =
    simp append-nil
      (parse_loop-next handler_path http_version_h r (took (b' ' ∷ []) r) b' ' rest refl)
parse_loop-uri (c ∷ p) r rest h = elim (Bool-cases (c == b'/')) [
  | inl e ↦
      let r' = record (took (c ∷ []) r) {
        uri = r.uri ++ c ∷ [];
        file_path = r.file_path ++ c ∷ [];
      } in
      parse_loop-next handler_path uri_inside r r' c _ (rw (h.0.0, h.0.1, e))
      ∙ parse_loop-uri_inside p r' rest h.1
      ∙ rw e (simp (append_assoc, append-nil))
  | inr e ↦
      let r' = record (took (c ∷ []) r) {
        uri = r.uri ++ c ∷ [];
        handler_path = r.handler_path ++ c ∷ [];
      } in
      parse_loop-next handler_path handler_path r r' c _ (rw (h.0.0, h.0.1, e))
      ∙ parse_loop-uri p r' rest h.1
      ∙ rw e (simp append_assoc)
]

abbrev pub IsDigits : Text → Type 0
IsDigits = All (λ c. is_digit c ≡ true)

-- the number that digits add to `n`
abbrev pub number_from : ℕ → Text → ℕ
number_from n [] = n
number_from n (c ∷ ds) = number_from (add_digit n c) ds

pub parse_loop-major :
    (ds : Text) (r : Request) (rest : Text)
    → IsDigits ds
    → parse_loop (at http_version_major r) (ds ++ rest)
      ≡ parse_loop
          (at http_version_major (record (took ds r) {
            version = r.version ++ ds;
            http_version_major = number_from r.http_version_major ds;
          }))
          rest
unfolding consume_in
parse_loop-major [] r rest h = simp append-nil
parse_loop-major (c ∷ ds) r rest h =
    let r' = record (took (c ∷ []) r) {
      version = r.version ++ c ∷ [];
      http_version_major = add_digit r.http_version_major c;
    } in
    parse_loop-next http_version_major http_version_major r r' c _ (rw ((digit-ne c h.0).0, h.0))
    ∙ parse_loop-major ds r' rest h.1
    ∙ simp append_assoc

pub parse_loop-minor :
    (ds : Text) (r : Request) (rest : Text)
    → IsDigits ds
    → parse_loop (at http_version_minor r) (ds ++ rest)
      ≡ parse_loop
          (at http_version_minor (record (took ds r) {
            version = r.version ++ ds;
            http_version_minor = number_from r.http_version_minor ds;
          }))
          rest
unfolding consume_in
parse_loop-minor [] r rest h = simp append-nil
parse_loop-minor (c ∷ ds) r rest h =
    let r' = record (took (c ∷ []) r) {
      version = r.version ++ c ∷ [];
      http_version_minor = add_digit r.http_version_minor c;
    } in
    parse_loop-next http_version_minor http_version_minor r r' c _ (rw ((digit-ne c h.0).1, h.0))
    ∙ parse_loop-minor ds r' rest h.1
    ∙ simp append_assoc
