-- ===== src/Http/Response.antt =====
-- `Response`: src/response.cc and include/response.h.
use spaceteam.Common.{Text, codes, List, [], ◌∷◌, ◌++◌, Option, none, some}

pub data ResponseCode : Type 0 where
  ok not_found internal_server_error redirect : ResponseCode

-- `raw_status` is `none` until `SetStatus`: the constructor leaves the member indeterminate.
pub record Response : Type 0 where
  pub status : Text
  pub raw_status : Option ResponseCode
  pub headers : List (Text × Text)
  pub body : Text

-- `Response response;`
abbrev pub empty_response : Response
empty_response = record { status = []; raw_status = none; headers = []; body = [] }

abbrev pub status_line : ResponseCode → Text
status_line ok = codes "HTTP/1.1 200 OK"
status_line not_found = codes "HTTP/1.1 404 Not Found"
status_line redirect = codes "HTTP/1.1 302 Found"
status_line internal_server_error = codes "HTTP/1.1 500 Internal Server Error"

unfoldable pub set_status : ResponseCode → Response → Response
set_status code r = record r { status = status_line code; raw_status = some code }

unfoldable pub get_response_code : Response → Option ResponseCode
get_response_code r = r.raw_status

unfoldable pub add_header : Text → Text → Response → Response
add_header name value r = record r { headers = r.headers ++ (name, value) ∷ [] }

unfoldable pub set_body : Text → Response → Response
set_body text r = record r { body = text }

-- `"\r\n"`
abbrev pub crlf : Text
crlf = b'\r' ∷ b'\n' ∷ []

-- the loop of `ToString` over the headers, behind what is written so far
unfoldable pub write_headers : Text → List (Text × Text) → Text
write_headers result [] = result
write_headers result ((name, value) ∷ hs) =
    write_headers (result ++ (name ++ (codes ": " ++ (value ++ crlf)))) hs

unfoldable pub to_string : Response → Text
unfolding write_headers
to_string r = write_headers (r.status ++ crlf) r.headers ++ (crlf ++ r.body)
