-- ===== src/Http/Request/Message.antt =====
-- A request by its parts, and how the parser reads the pieces of its first line.
use spaceteam.Common.{
  ℕ, Text, codes, false, [], ◌∷◌, ◌++◌, append_assoc, ◌≡◌, ◌≢◌, refl, ◌∙◌, All, Option,
}
use spaceteam.Http.Characters.{is_no_token}
use spaceteam.Http.Request.{consume_in, parse_loop}
use spaceteam.Http.Fields.{
  Request, Headers, new_request, good, method_inside, handler_path, http_version_h,
  http_version_major_start, http_version_major, http_version_minor_start, http_version_minor,
  expecting_newline_1, header_line_start, body_state, add_digit,
}
use spaceteam.Http.Request.Pieces.{IsHeader, headers_text, parse_loop-body}
use spaceteam.Http.Request.Line.{
  at, took, IsToken, IsUriTail, IsDigits, number_from, before_slash, from_slash, parse_loop-next,
  parse_loop-major, parse_loop-minor,
}
use spaceteam.Status.{ServerStatus}

-- the parts of a request; `path` is the URI behind its first slash
pub record Message : Type 0 where
  pub method : Text
  pub path : Text
  pub major : Text
  pub minor : Text
  pub headers : Headers
  pub body : Text

abbrev pub message : Text → Text → Text → Text → Headers → Text → Message
message method path major minor hs body = record {
  method = method;
  path = path;
  major = major;
  minor = minor;
  headers = hs;
  body = body;
}

pub record IsValid (m : Message) : Type 0 where
  pub has_method : m.method ≢ []
  pub method_token : IsToken m.method
  pub path_printable : IsUriTail m.path
  pub has_major : m.major ≢ []
  pub major_digits : IsDigits m.major
  pub has_minor : m.minor ≢ []
  pub minor_digits : IsDigits m.minor
  pub all_headers : All IsHeader m.headers

abbrev pub version_text : Text → Text → Text
version_text major minor = codes "HTTP/" ++ (major ++ (b'.' ∷ (minor ++ codes "\r\n")))

abbrev pub request_text : Message → Text
request_text m =
    m.method
    ++ (codes " /"
        ++ (m.path
            ++ (b' '
                ∷ (version_text m.major m.minor
                    ++ (headers_text m.headers ++ (codes "\r\n" ++ m.body))))))

pub parse_loop-first :
    (c : ℕ) (rest : Text)
    → is_no_token c ≡ false
    → parse_loop new_request (c ∷ rest)
      ≡ parse_loop (at method_inside (record (took (c ∷ []) new_request) { method = c ∷ [] })) rest
unfolding parse_loop
parse_loop-first c rest h = rw h

-- the end of the method and the first slash
pub parse_loop-slash :
    (r : Request) (rest : Text)
    → parse_loop (at method_inside r) (codes " /" ++ rest)
      ≡ parse_loop
          (at handler_path (record (took (codes " /") r) {
            uri = r.uri ++ b'/' ∷ [];
            handler_path = r.handler_path ++ b'/' ∷ [];
          }))
          rest
unfolding parse_loop
parse_loop-slash r rest = simp append_assoc

pub parse_loop-http :
    (r : Request) (rest : Text)
    → parse_loop (at http_version_h r) (codes "HTTP/" ++ rest)
      ≡ parse_loop
          (at http_version_major_start
            (record (took (codes "HTTP/") r) { http_version_major = 0; http_version_minor = 0 }))
          rest
unfolding parse_loop
parse_loop-http r rest = simp append_assoc

pub parse_loop-major_dot :
    (d : ℕ) (ds : Text) (r : Request) (rest : Text)
    → IsDigits (d ∷ ds)
    → parse_loop (at http_version_major_start r) (d ∷ (ds ++ (b'.' ∷ rest)))
      ≡ parse_loop
          (at http_version_minor_start (record (took (d ∷ (ds ++ b'.' ∷ [])) r) {
            version = r.version ++ (d ∷ (ds ++ b'.' ∷ []));
            http_version_major = number_from r.http_version_major (d ∷ ds);
          }))
          rest
unfolding consume_in
parse_loop-major_dot d ds r rest h =
    let q = record (took (d ∷ []) r) {
      version = r.version ++ d ∷ [];
      http_version_major = add_digit r.http_version_major d;
    } in
    let p = record (took ds q) {
      version = q.version ++ ds;
      http_version_major = number_from q.http_version_major ds;
    } in
    parse_loop-next http_version_major_start http_version_major r q d _ (rw h.0)
    ∙ parse_loop-major ds q _ h.1
    ∙ parse_loop-next http_version_major http_version_minor_start p
        (record (took (b'.' ∷ []) p) { version = p.version ++ b'.' ∷ [] }) b'.' rest refl
    ∙ simp append_assoc

pub parse_loop-minor_line :
    (e : ℕ) (es : Text) (r : Request) (rest : Text)
    → IsDigits (e ∷ es)
    → parse_loop (at http_version_minor_start r) (e ∷ (es ++ (codes "\r\n" ++ rest)))
      ≡ parse_loop
          (at header_line_start (record (took (e ∷ (es ++ codes "\r\n")) r) {
            version = r.version ++ e ∷ es;
            http_version_minor = number_from r.http_version_minor (e ∷ es);
          }))
          rest
unfolding consume_in
parse_loop-minor_line e es r rest h =
    let q = record (took (e ∷ []) r) {
      version = r.version ++ e ∷ [];
      http_version_minor = add_digit r.http_version_minor e;
    } in
    let p = record (took es q) {
      version = q.version ++ es;
      http_version_minor = number_from q.http_version_minor es;
    } in
    parse_loop-next http_version_minor_start http_version_minor r q e _ (rw h.0)
    ∙ parse_loop-minor es q _ h.1
    ∙ parse_loop-next http_version_minor expecting_newline_1 p (took (b'\r' ∷ []) p) b'\r' _ refl
    ∙ parse_loop-next expecting_newline_1 header_line_start (took (b'\r' ∷ []) p)
        (took (b'\n' ∷ []) (took (b'\r' ∷ []) p)) b'\n' rest refl
    ∙ simp append_assoc

pub parse_loop-end :
    (r : Request) (b : Text)
    → parse_loop (at header_line_start r) (codes "\r\n" ++ b)
      ≡ record (took (codes "\r\n" ++ b) r) {
        body = r.body ++ b;
        parsed_status = good;
        state = body_state;
      }
unfolding parse_loop
parse_loop-end r b = parse_loop-body b (took (b'\n' ∷ []) (took (b'\r' ∷ []) r)) ∙ simp append_assoc

-- what is read
abbrev pub read_back : Message → Option ServerStatus → Request
read_back m status = record {
  raw_request = request_text m;
  method = m.method;
  uri = b'/' ∷ m.path;
  version = m.major ++ (b'.' ∷ m.minor);
  body = m.body;
  headers = m.headers;
  server_status = status;
  handler_path = b'/' ∷ before_slash m.path;
  file_path = from_slash m.path;
  http_version_major = number_from 0 m.major;
  http_version_minor = number_from 0 m.minor;
  parsed_status = good;
  state = body_state;
}

-- the bytes read so far, as the pieces put them together and as one text
pub raw_line :
    (c : ℕ) (ms path : Text) (d : ℕ) (ds : Text) (e : ℕ) (es : Text)
    → (((((c ∷ ms) ++ codes " /") ++ (path ++ b' ' ∷ [])) ++ codes "HTTP/")
          ++ (d ∷ (ds ++ b'.' ∷ [])))
        ++ (e ∷ (es ++ codes "\r\n"))
      ≡ (c ∷ ms) ++ (codes " /" ++ (path ++ (b' ' ∷ version_text (d ∷ ds) (e ∷ es))))
raw_line c ms path d ds e es = simp append_assoc

pub text_line :
    (c : ℕ) (ms path : Text) (d : ℕ) (ds : Text) (e : ℕ) (es rest : Text)
    → (c ∷ ms) ++ (codes " /" ++ (path ++ (b' ' ∷ (version_text (d ∷ ds) (e ∷ es) ++ rest))))
      ≡ c
        ∷ (ms
            ++ (codes " /"
                ++ (path
                    ++ (b' '
                        ∷ (codes "HTTP/"
                            ++ (d ∷ (ds ++ (b'.' ∷ e ∷ (es ++ (codes "\r\n" ++ rest))))))))))
text_line c ms path d ds e es rest = simp append_assoc

pub raw_all :
    (method path version : Text) (hs : Headers) (body : Text)
    → ((method ++ (codes " /" ++ (path ++ (b' ' ∷ version)))) ++ headers_text hs)
        ++ (codes "\r\n" ++ body)
      ≡ method
        ++ (codes " /"
            ++ (path ++ (b' ' ∷ (version ++ (headers_text hs ++ (codes "\r\n" ++ body))))))
raw_all method path version hs body = simp append_assoc
