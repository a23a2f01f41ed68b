-- ===== src/Http/Request.antt =====
-- `Request`: src/request.cc and include/request.h, a parser that takes one byte at a time.
pub mod Line
pub mod Pieces
pub mod Message
pub mod RoundTrip
pub mod Invariants
pub mod Ending
use spaceteam.Common.{
  ℕ, ◌+◌, ◌-◌, ◌*◌, ◌%◌, ◌^◌, Text, Bool, true, false, not, ◌&&◌, ◌||◌, List, [], ◌∷◌, ◌++◌, Option,
  none, some, ◌==◌, if◌then◌else◌,
}
use spaceteam.Http.Characters.{is_char, is_ctl, is_tspecial, is_digit, is_no_token}
use spaceteam.Status.{ServerStatus}
use spaceteam.Http.Fields.{
  good, bad, indeterminate, State, method_start, method_inside, handler_path_start, handler_path,
  file_path, uri_inside, http_version_h, http_version_t_1, http_version_t_2, http_version_p,
  http_version_slash, http_version_major_start, http_version_major, http_version_minor_start,
  http_version_minor, expecting_newline_1, header_line_start, header_lws, header_name,
  space_before_header_value, header_value, expecting_newline_2, expecting_newline_3, body_state,
  Request, new_request, add_digit, update_back, push_name, push_value, is_empty, Step, refuse,
  go_to, expect,
}

-- the method
unfoldable pub consume_method : State → Request → ℕ → Step
consume_method method_start r c =
    if is_no_token c
    then refuse r
    else go_to method_inside (record r { method = r.method ++ c ∷ [] })
consume_method _ r c =
    if c == b' '
    then go_to handler_path_start r
    else if is_no_token c
    then refuse r
    else go_to method_inside (record r { method = r.method ++ c ∷ [] })

-- the URI
unfoldable pub consume_uri : State → Request → ℕ → Step
consume_uri handler_path_start r c =
    if c == b'/'
    then go_to handler_path
        (record r { handler_path = r.handler_path ++ c ∷ []; uri = r.uri ++ c ∷ [] })
    else refuse r
consume_uri handler_path r c =
    if c == b' '
    then go_to http_version_h r
    else if is_ctl c
    then refuse r
    else if c == b'/'
    then go_to uri_inside (record r { file_path = r.file_path ++ c ∷ []; uri = r.uri ++ c ∷ [] })
    else go_to handler_path
        (record r { handler_path = r.handler_path ++ c ∷ []; uri = r.uri ++ c ∷ [] })
consume_uri _ r c =
    if c == b' '
    then go_to http_version_h r
    else if is_ctl c
    then refuse r
    else go_to uri_inside (record r { uri = r.uri ++ c ∷ []; file_path = r.file_path ++ c ∷ [] })

abbrev pub major_digit : Request → ℕ → Step
major_digit r c = go_to http_version_major (record r {
  http_version_major = add_digit r.http_version_major c;
  version = r.version ++ c ∷ [];
})

abbrev pub minor_digit : Request → ℕ → Step
minor_digit r c = go_to http_version_minor (record r {
  http_version_minor = add_digit r.http_version_minor c;
  version = r.version ++ c ∷ [];
})

-- the version
unfoldable pub consume_version : State → Request → ℕ → Step
consume_version http_version_h r c = expect b'H' http_version_t_1 r c
consume_version http_version_t_1 r c = expect b'T' http_version_t_2 r c
consume_version http_version_t_2 r c = expect b'T' http_version_p r c
consume_version http_version_p r c = expect b'P' http_version_slash r c
consume_version http_version_slash r c =
    if c == b'/'
    then go_to http_version_major_start
        (record r { http_version_major = 0; http_version_minor = 0 })
    else refuse r
consume_version http_version_major_start r c = if is_digit c then major_digit r c else refuse r
consume_version http_version_major r c =
    if c == b'.'
    then go_to http_version_minor_start (record r { version = r.version ++ c ∷ [] })
    else if is_digit c
    then major_digit r c
    else refuse r
consume_version http_version_minor_start r c = if is_digit c then minor_digit r c else refuse r
consume_version http_version_minor r c =
    if c == b'\r'
    then go_to expecting_newline_1 r
    else if is_digit c
    then minor_digit r c
    else refuse r
consume_version _ r c = expect b'\n' header_line_start r c

-- the headers
unfoldable pub consume_header : State → Request → ℕ → Step
consume_header header_line_start r c =
    if c == b'\r'
    then go_to expecting_newline_3 r
    else if not (is_empty r.headers) && (c == b' ' || c == b'\t')
    then go_to header_lws r
    else if is_no_token c
    then refuse r
    else go_to header_name
        (record r { headers = update_back (push_name c) (r.headers ++ ([], []) ∷ []) })
consume_header header_lws r c =
    if c == b'\r'
    then go_to expecting_newline_2 r
    else if c == b' ' || c == b'\t'
    then (r, indeterminate)
    else if is_ctl c
    then refuse r
    else go_to header_value (record r { headers = update_back (push_value c) r.headers })
consume_header header_name r c =
    if c == b':'
    then go_to space_before_header_value r
    else if is_no_token c
    then refuse r
    else go_to header_name (record r { headers = update_back (push_name c) r.headers })
consume_header space_before_header_value r c = if c == b' ' then go_to header_value r else refuse r
consume_header header_value r c =
    if c == b'\r'
    then go_to expecting_newline_2 r
    else if is_ctl c
    then refuse r
    else go_to header_value (record r { headers = update_back (push_value c) r.headers })
consume_header expecting_newline_2 r c = expect b'\n' header_line_start r c
consume_header _ r c = if c == b'\n' then (record r { state = body_state }, good) else refuse r

-- `consume`: the byte is kept whatever comes of it.
unfoldable pub consume_in : State → Request → ℕ → Step
unfolding consume_method consume_uri consume_version consume_header
consume_in method_start r c = consume_method method_start r c
consume_in method_inside r c = consume_method method_inside r c
consume_in handler_path_start r c = consume_uri handler_path_start r c
consume_in handler_path r c = consume_uri handler_path r c
consume_in uri_inside r c = consume_uri uri_inside r c
consume_in http_version_h r c = consume_version http_version_h r c
consume_in http_version_t_1 r c = consume_version http_version_t_1 r c
consume_in http_version_t_2 r c = consume_version http_version_t_2 r c
consume_in http_version_p r c = consume_version http_version_p r c
consume_in http_version_slash r c = consume_version http_version_slash r c
consume_in http_version_major_start r c = consume_version http_version_major_start r c
consume_in http_version_major r c = consume_version http_version_major r c
consume_in http_version_minor_start r c = consume_version http_version_minor_start r c
consume_in http_version_minor r c = consume_version http_version_minor r c
consume_in expecting_newline_1 r c = consume_version expecting_newline_1 r c
consume_in header_line_start r c = consume_header header_line_start r c
consume_in header_lws r c = consume_header header_lws r c
consume_in header_name r c = consume_header header_name r c
consume_in space_before_header_value r c = consume_header space_before_header_value r c
consume_in header_value r c = consume_header header_value r c
consume_in expecting_newline_2 r c = consume_header expecting_newline_2 r c
consume_in expecting_newline_3 r c = consume_header expecting_newline_3 r c
consume_in body_state r c = (record r { body = r.body ++ c ∷ [] }, good)
consume_in file_path r c = refuse r

abbrev pub consume : Request → ℕ → Step
consume r c = consume_in r.state (record r { raw_request = r.raw_request ++ c ∷ [] }) c

-- what the loop of `Parse` does after a byte: `bad` ends it
abbrev pub proceed : (Request → Request) → Step → Request
proceed again (r, bad) = record r { parsed_status = bad }
proceed again (r, good) = again (record r { parsed_status = good })
proceed again (r, indeterminate) = again (record r { parsed_status = indeterminate })

unfoldable pub parse_loop : Request → Text → Request
unfolding consume_in
parse_loop r [] = r
parse_loop r (c ∷ cs) = proceed (λ r'. parse_loop r' cs) (consume r c)

-- `Parse` with a status; the one without passes a null pointer.
unfoldable pub parse : Text → Option ServerStatus → Request
unfolding parse_loop
parse raw status = record (parse_loop new_request raw) { server_status = status }
