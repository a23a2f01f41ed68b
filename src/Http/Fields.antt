-- ===== src/Http/Fields.antt =====
-- The members, states and results of `Request`: include/request.h, and the helpers of src/request.cc.
use spaceteam.Common.{
  ℕ, ◌+◌, ◌-◌, ◌*◌, ◌%◌, ◌^◌, Text, Bool, true, false, List, [], ◌∷◌, ◌++◌, Option, none, ◌==◌,
  if◌then◌else◌,
}
use spaceteam.Status.{ServerStatus}

pub data ResultType : Type 0 where
  good bad indeterminate : ResultType

-- The states. No code enters `file_path`.
pub data State : Type 0 where
  method_start method_inside handler_path_start handler_path file_path uri_inside : State
  http_version_h http_version_t_1 http_version_t_2 http_version_p http_version_slash : State
  http_version_major_start http_version_major http_version_minor_start http_version_minor : State
  expecting_newline_1 header_line_start header_lws header_name : State
  space_before_header_value header_value expecting_newline_2 expecting_newline_3 : State
  body_state : State

abbrev pub Headers : Type 0
Headers = List (Text × Text)

-- `server_status` is the object that the pointer leads to, as it is while the request is handled;
-- `none` is a null pointer. The version numbers are the bit patterns of 32-bit integers: digits
-- past their range overflow a signed `int`, which is taken to wrap.
pub record Request : Type 0 where
  pub raw_request : Text
  pub method : Text
  pub uri : Text
  pub version : Text
  pub body : Text
  pub headers : Headers
  pub server_status : Option ServerStatus
  pub handler_path : Text
  pub file_path : Text
  pub http_version_major : ℕ
  pub http_version_minor : ℕ
  pub parsed_status : ResultType
  pub state : State

-- `new Request()`, which zeroes the members that have no constructor
abbrev pub new_request : Request
new_request = record {
  raw_request = [];
  method = [];
  uri = [];
  version = [];
  body = [];
  headers = [];
  server_status = none;
  handler_path = [];
  file_path = [];
  http_version_major = 0;
  http_version_minor = 0;
  parsed_status = good;
  state = method_start;
}

-- `int` after one more decimal digit
abbrev pub add_digit : ℕ → ℕ → ℕ
add_digit n c = (n * 10 + c - b'0') % 2 ^ 32

-- a change of `headers_.back()`; there is a last header wherever the parser makes one
abbrev pub update_back : (Text × Text → Text × Text) → Headers → Headers
update_back f [] = []
update_back f (h ∷ []) = f h ∷ []
update_back f (h ∷ k ∷ hs) = h ∷ update_back f (k ∷ hs)

abbrev pub push_name : ℕ → Text × Text → Text × Text
push_name c (name, value) = (name ++ c ∷ [], value)

abbrev pub push_value : ℕ → Text × Text → Text × Text
push_value c (name, value) = (name, value ++ c ∷ [])

abbrev pub is_empty : Headers → Bool
is_empty [] = true
is_empty (h ∷ hs) = false

abbrev pub Step : Type 0
Step = Request × ResultType

-- `return bad;`
abbrev pub refuse : Request → Step
refuse r = (r, bad)

-- `state_ = s; return indeterminate;`
abbrev pub go_to : State → Request → Step
go_to s r = (record r { state = s }, indeterminate)

-- one fixed character of the version
abbrev pub expect : ℕ → State → Request → ℕ → Step
expect wanted s r c = if c == wanted then go_to s r else refuse r
