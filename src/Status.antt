-- ===== src/Status.antt =====
-- `ServerStatus`: src/server_status.cc and include/server_status.h. An `unsigned` is a number below
-- 2 ^ 32.
pub mod Counts
pub mod Order
pub mod Page
mod Tests
use spaceteam.Common.{
  ℕ, zero, suc, ◌+◌, ◌/◌, ◌%◌, ◌^◌, Text, codes, List, [], ◌∷◌, ◌++◌, Option, none, some, Map, find,
  assign, number_order, text_order, ltb, if◌then◌else◌,
}
use spaceteam.Http.Response.{ResponseCode, ok, not_found, internal_server_error, redirect}

pub record ServerStatus : Type 0 where
  pub server_status : Map Text (Map ℕ ℕ)
  pub handler_name_to_prefixes : Map Text (List Text)
  pub num_requests : ℕ

-- the constructor
abbrev pub new_status : ServerStatus
new_status = record { server_status = []; handler_name_to_prefixes = []; num_requests = 0 }

abbrev pub unsigned_mod : ℕ
unsigned_mod = 2 ^ 32

-- `ResponseCodeToString`, which returns a number
abbrev pub response_code_number : ResponseCode → ℕ
response_code_number ok = 200
response_code_number not_found = 404
response_code_number internal_server_error = 500
response_code_number _ = 500

-- `server_status_[uri_prefix]`, with an empty map in place of a missing one
abbrev pub codes_of : Option (Map ℕ ℕ) → Map ℕ ℕ
codes_of none = []
codes_of (some m) = m

-- The counter of a code after one more request: 1 where a map has no entry yet, and one more modulo
-- 2 ^ 32 where both have.
abbrev pub bump : Option ℕ → ℕ
bump none = 1
bump (some n) = (n + 1) % unsigned_mod

unfoldable pub update_status : Text → ResponseCode → ServerStatus → ServerStatus
update_status uri status s =
    let code = response_code_number status in
    let counts = codes_of (find uri s.server_status) in
    record s {
      server_status = assign uri (assign code (bump (find code counts)) counts) s.server_status;
      num_requests = (s.num_requests + 1) % unsigned_mod;
    }

unfoldable pub add_handler_info : Map Text (List Text) → ServerStatus → ServerStatus
add_handler_info info s = record s { handler_name_to_prefixes = info }

-- `std::to_string` of an unsigned number: its decimal digits. A number has fewer than `suc n`.
unfoldable pub decimal_from : ℕ → ℕ → Text
decimal_from zero n = []
decimal_from (suc f) n =
    let front = decimal_from f (n / 10) in
    if ltb n 10 then (b'0' + n) ∷ [] else front ++ (b'0' + n % 10) ∷ []

abbrev pub decimal : ℕ → Text
decimal n = decimal_from (suc n) n

-- the loops of `ToHtml`
unfoldable pub html_prefixes : List Text → Text
html_prefixes [] = []
html_prefixes (p ∷ ps) = codes "<li>" ++ (p ++ (codes "</li>" ++ html_prefixes ps))

unfoldable pub html_handlers : Map Text (List Text) → Text
unfolding html_prefixes
html_handlers [] = []
html_handlers ((name, prefixes) ∷ m) =
    codes "<h5>URI prefixes for "
    ++ (name
        ++ (codes "</h5>"
            ++ (codes "<ul style=\"list-style-type:none\">"
                ++ (html_prefixes prefixes ++ (codes "</ul></br>" ++ html_handlers m)))))

unfoldable pub html_counts : Map ℕ ℕ → Text
unfolding decimal_from
html_counts [] = []
html_counts ((code, n) ∷ m) =
    codes "<li>"
    ++ (decimal code ++ (codes ": " ++ (decimal n ++ (codes "</li>" ++ html_counts m))))

unfoldable pub html_uris : Map Text (Map ℕ ℕ) → Text
unfolding html_counts
html_uris [] = []
html_uris ((uri, counts) ∷ m) =
    codes "<h5>Number of requests for \""
    ++ (uri
        ++ (codes "\"</h5>"
            ++ (codes "<ul style=\"list-style-type:none\">"
                ++ (html_counts counts ++ (codes "</ul>" ++ html_uris m)))))

unfoldable pub to_html : ServerStatus → Text
unfolding html_handlers html_uris decimal_from
to_html s =
    codes "<!doctype html><html><body>"
    ++ (codes "<h1>Server Status</h1>"
        ++ (codes "<h3>Handler Info</h3>"
            ++ (html_handlers s.handler_name_to_prefixes
                ++ (codes "</br>"
                    ++ (codes "<h2>Total Requests: "
                        ++ (decimal s.num_requests
                            ++ (codes "</h2>"
                                ++ (html_uris s.server_status ++ codes "</body></html>"))))))))

-- the loops of `ToString`
unfoldable pub plain_counts : Map ℕ ℕ → Text
unfolding decimal_from
plain_counts [] = []
plain_counts ((code, n) ∷ m) =
    b'\t' ∷ (decimal code ++ (b' ' ∷ (decimal n ++ (b'\n' ∷ plain_counts m))))

unfoldable pub plain_uris : Map Text (Map ℕ ℕ) → Text
unfolding plain_counts
plain_uris [] = []
plain_uris ((uri, counts) ∷ m) =
    codes "Prefix: " ++ (uri ++ (b'\n' ∷ (plain_counts counts ++ plain_uris m)))

unfoldable pub to_string : ServerStatus → Text
unfolding plain_uris decimal_from
to_string s =
    codes "Total Requests: " ++ (decimal s.num_requests ++ (b'\n' ∷ plain_uris s.server_status))
