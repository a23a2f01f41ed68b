-- ===== src/Http/Request/RoundTrip.antt =====
-- A request written out by its parts is read back with those parts.
use spaceteam.Common.{
  ℕ, Text, codes, [], ◌∷◌, ◌++◌, append_assoc, ◌≡◌, refl, ap, ◌∙◌, All, Option, none,
}
use spaceteam.Http.Request.{parse_loop, parse}
use spaceteam.Http.Fields.{
  Request, Headers, new_request, good, indeterminate, handler_path, http_version_major_start,
  header_line_start, body_state,
}
use spaceteam.Http.Request.Pieces.{IsHeader, headers_text, parse_loop-headers}
use spaceteam.Http.Request.Line.{
  at, IsToken, IsUriTail, IsDigits, number_from, before_slash, from_slash, parse_loop-method,
  parse_loop-uri,
}
use spaceteam.Status.{ServerStatus}
use spaceteam.Http.Request.Message.{
  Message, message, IsValid, version_text, request_text, parse_loop-first, parse_loop-slash,
  parse_loop-http, parse_loop-major_dot, parse_loop-minor_line, parse_loop-end, read_back, raw_line,
  text_line, raw_all,
}

-- within the request line
abbrev in_line : Text → Text → Text → Text → Text → Text → ℕ → ℕ → Request
in_line raw method uri version before from major minor = record {
  raw_request = raw;
  method = method;
  uri = uri;
  version = version;
  body = [];
  headers = [];
  server_status = none;
  handler_path = before;
  file_path = from;
  http_version_major = major;
  http_version_minor = minor;
  parsed_status = indeterminate;
  state = header_line_start;
}

line_method :
    (c : ℕ) (ms rest : Text)
    → IsToken (c ∷ ms)
    → parse_loop new_request (c ∷ (ms ++ (codes " /" ++ rest)))
      ≡ parse_loop
          (at handler_path
            (in_line ((c ∷ ms) ++ codes " /") (c ∷ ms) (b'/' ∷ []) [] (b'/' ∷ []) [] 0 0))
          rest
line_method c ms rest h =
    parse_loop-first c _ h.0
    ∙ parse_loop-method ms (in_line (c ∷ []) (c ∷ []) [] [] [] [] 0 0) _ h.1
    ∙ parse_loop-slash (in_line (c ∷ ms) (c ∷ ms) [] [] [] [] 0 0) rest

line_uri :
    (raw method path rest : Text)
    → IsUriTail path
    → parse_loop
        (at handler_path (in_line raw method (b'/' ∷ []) [] (b'/' ∷ []) [] 0 0))
        (path ++ (b' ' ∷ (codes "HTTP/" ++ rest)))
      ≡ parse_loop
          (at http_version_major_start (
            in_line
              ((raw ++ (path ++ b' ' ∷ [])) ++ codes "HTTP/")
              method
              (b'/' ∷ path)
              []
              (b'/' ∷ before_slash path)
              (from_slash path)
              0
              0))
          rest
line_uri raw method path rest h =
    parse_loop-uri path (in_line raw method (b'/' ∷ []) [] (b'/' ∷ []) [] 0 0) _ h
    ∙ parse_loop-http
        (in_line (raw ++ (path ++ b' ' ∷ [])) method (b'/' ∷ path) [] (b'/' ∷ before_slash path)
          (from_slash path) 0 0)
        rest

line_version :
    (raw method uri before from : Text) (d : ℕ) (ds : Text) (e : ℕ) (es rest : Text)
    → IsDigits (d ∷ ds)
    → IsDigits (e ∷ es)
    → parse_loop
        (at http_version_major_start (in_line raw method uri [] before from 0 0))
        (d ∷ (ds ++ (b'.' ∷ e ∷ (es ++ (codes "\r\n" ++ rest)))))
      ≡ parse_loop
          (at header_line_start (
            in_line
              ((raw ++ (d ∷ (ds ++ b'.' ∷ []))) ++ (e ∷ (es ++ codes "\r\n")))
              method
              uri
              (d ∷ (ds ++ (b'.' ∷ e ∷ es)))
              before
              from
              (number_from 0 (d ∷ ds))
              (number_from 0 (e ∷ es))))
          rest
line_version raw method uri before from d ds e es rest h k =
    let major = number_from 0 (d ∷ ds) in
    let raw' = raw ++ (d ∷ (ds ++ b'.' ∷ [])) in
    parse_loop-major_dot d ds (in_line raw method uri [] before from 0 0) _ h
    ∙ parse_loop-minor_line e es
        (in_line raw' method uri (d ∷ (ds ++ b'.' ∷ [])) before from major 0) rest k
    ∙ ap
        (λ v.
          parse_loop
            (at header_line_start (
              in_line (raw' ++ (e ∷ (es ++ codes "\r\n"))) method uri v before from major
                (number_from 0 (e ∷ es))))
            rest)
        (ap (◌∷◌ d) (append_assoc ds (b'.' ∷ []) (e ∷ es)))

line_end :
    (raw method uri version before from : Text) (major minor : ℕ) (hs : Headers) (body : Text)
    → All IsHeader hs
    → parse_loop
        (at header_line_start (in_line raw method uri version before from major minor))
        (headers_text hs ++ (codes "\r\n" ++ body))
      ≡ record (in_line
          ((raw ++ headers_text hs) ++ (codes "\r\n" ++ body))
          method
          uri
          version
          before
          from
          major
          minor) { headers = hs; body = body; parsed_status = good; state = body_state }
line_end raw method uri version before from major minor hs body h =
    let r = in_line raw method uri version before from major minor in
    parse_loop-headers hs r _ h
    ∙ parse_loop-end
        (record (in_line (raw ++ headers_text hs) method uri version before from major minor) {
          headers = hs;
        })
        body

parse_loop-parts :
    (c : ℕ) (ms path : Text) (d : ℕ) (ds : Text) (e : ℕ) (es : Text) (hs : Headers) (body : Text)
    → let m : Message = message (c ∷ ms) path (d ∷ ds) (e ∷ es) hs body in
      IsValid m → parse_loop new_request (request_text m) ≡ read_back m none
parse_loop-parts c ms path d ds e es hs body v =
    let m : Message = message (c ∷ ms) path (d ∷ ds) (e ∷ es) hs body in
    ap (parse_loop new_request)
      (text_line c ms path d ds e es (headers_text hs ++ (codes "\r\n" ++ body)))
    ∙ line_method c ms _ v.method_token
    ∙ line_uri _ (c ∷ ms) path _ v.path_printable
    ∙ line_version _ (c ∷ ms) (b'/' ∷ path) (b'/' ∷ before_slash path) (from_slash path) d ds e es _
        v.major_digits v.minor_digits
    ∙ line_end _ (c ∷ ms) (b'/' ∷ path) _ (b'/' ∷ before_slash path) (from_slash path) _ _ hs body
        v.all_headers
    ∙ ap (λ x. record (read_back m none) { raw_request = x })
        (ap (λ x. (x ++ headers_text hs) ++ (codes "\r\n" ++ body)) (raw_line c ms path d ds e es)
          ∙ raw_all (c ∷ ms) path (version_text (d ∷ ds) (e ∷ es)) hs body)

parse-parts :
    (method path major minor : Text) (hs : Headers) (body : Text) (status : Option ServerStatus)
    → let m : Message = message method path major minor hs body in
      IsValid m → parse (request_text m) status ≡ read_back m status
unfolding parse
parse-parts [] path major minor hs body status v = absurd (v.has_method refl)
parse-parts (c ∷ ms) path [] minor hs body status v = absurd (v.has_major refl)
parse-parts (c ∷ ms) path (d ∷ ds) [] hs body status v = absurd (v.has_minor refl)
parse-parts (c ∷ ms) path (d ∷ ds) (e ∷ es) hs body status v =
    ap (λ (r : Request). record r { server_status = status })
      (parse_loop-parts c ms path d ds e es hs body v)

-- A request with a method that is a token, a URI that begins with a slash and has neither blanks nor
-- control characters, a version of two numbers, headers whose names are tokens and whose values have
-- no control characters, and any body is read as good, with exactly these parts.
pub parse-request_text :
    (m : Message) (status : Option ServerStatus)
    → IsValid m
    → parse (request_text m) status ≡ read_back m status
parse-request_text m status v =
    parse-parts m.method m.path m.major m.minor m.headers m.body status v
