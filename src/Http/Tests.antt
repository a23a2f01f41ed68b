-- ===== src/Http/Tests.antt =====
-- Runs of the request parser and of the response printer.
use spaceteam.Common.{Text, codes, [], ◌∷◌, ◌++◌, ◌≡◌, refl, none}
use spaceteam.Http.Characters.{is_char, is_ctl, is_tspecial, is_digit}
use spaceteam.Http.Request.{parse}
use spaceteam.Http.Fields.{Request, good, bad, body_state}
use spaceteam.Http.Request.RoundTrip.{parse-request_text}
use spaceteam.Http.Request.Message.{Message, IsValid, request_text, read_back}
use spaceteam.Http.Request.Invariants.{HeaderInv, parse-uri, parse-HeaderInv}
use spaceteam.Http.Request.Ending.{parse-good}

abbrev sample : Request
sample =
    parse (codes "GET /echo/hello/there.html HTTP/1.1\r\nAccept-Language: en-us\r\n\r\nname=1") none

sample_fields :
    (sample.method ≡ codes "GET")
    × (sample.uri ≡ codes "/echo/hello/there.html")
    × (sample.version ≡ codes "1.1")
    × (sample.headers ≡ (codes "Accept-Language", codes "en-us") ∷ [])
    × (sample.body ≡ codes "name=1")
    × (sample.parsed_status ≡ good)
unfolding parse is_char is_ctl is_tspecial is_digit
sample_fields = (refl, refl, refl, refl, refl, refl)

abbrev incorrect : Request
incorrect = parse (codes "asdfj<kl;") none

incorrect_fields : (incorrect.raw_request ≡ codes "asdfj<") × (incorrect.parsed_status ≡ bad)
unfolding parse is_char is_ctl is_tspecial is_digit
incorrect_fields = (refl, refl)

abbrev message_a : Message
message_a = record {
  method = codes "GET";
  path = codes "a/b";
  major = codes "1";
  minor = codes "0";
  headers = (codes "A", codes "x y") ∷ [];
  body = codes "hi";
}

message_a-IsValid : IsValid message_a
unfolding is_char is_ctl is_tspecial is_digit
message_a-IsValid = record {
  has_method = cc;
  method_token = (refl, (refl, (refl, tt)));
  path_printable = ((refl, refl), ((refl, refl), ((refl, refl), tt)));
  has_major = cc;
  major_digits = (refl, tt);
  has_minor = cc;
  minor_digits = (refl, tt);
  all_headers = ((cc, (refl, tt), (refl, (refl, (refl, tt)))), tt);
}

parse-request_text_example : parse (request_text message_a) none ≡ read_back message_a none
parse-request_text_example = parse-request_text message_a none message_a-IsValid

abbrev cut_short : Text
cut_short = codes "GET /a/b HTTP/1.1\r\nHost: x"

parse-uri_example :
    (parse cut_short none).uri
    ≡ (parse cut_short none).handler_path ++ (parse cut_short none).file_path
parse-uri_example = parse-uri cut_short none

parse-HeaderInv_example : HeaderInv (parse cut_short none).state (parse cut_short none).headers
parse-HeaderInv_example = parse-HeaderInv cut_short none

parse-good_example :
    (sample.state ≡ body_state)
    × (head : Text) × (codes
          "GET /echo/hello/there.html HTTP/1.1\r\nAccept-Language: en-us\r\n\r\nname=1"
        ≡ head ++ (codes "\r\n\r\n" ++ sample.body))
parse-good_example =
    let (m, u, v, h, b, ok) = sample_fields in
    parse-good b'G'
      (codes "ET /echo/hello/there.html HTTP/1.1\r\nAccept-Language: en-us\r\n\r\nname=1") none ok
