-- ===== src/Handler/Tests.antt =====
-- The handlers on a file system and a process of one answer each.
use spaceteam.Common.{
  codes, true, [], ◌∷◌, ◌≡◌, ◌⊎◌, refl, none, some, equal, less, find, assign, text_order, arith,
}
use spaceteam.Handler.Base.{returned, ok}
use spaceteam.Handler.Simple.{content_type, not_found_response}
use spaceteam.Handler.Files.{Files, static_handle, get_mime_type}
use spaceteam.Handler.Files.Serving.{IsServed, static_handle_sound}
use spaceteam.Connection.{done, async_write}
use spaceteam.Handler.Samples.{
  around, handlers, get, get-IsValid, get-NoReferer, echo-IsBest, none_registered,
}
use spaceteam.Connection.{answer_read}
use spaceteam.Handler.Codes.{ShowsCode, answer_read-ShowsCode}
use spaceteam.Handler.Dispatch.{handle_request}
use spaceteam.Http.Request.Message.{Message, IsValid, request_text}
use spaceteam.Connection.Reads.{handle_bytes}
use spaceteam.Handler.Served.Referred.{read_referred}
use spaceteam.Handler.Served.{read_message, read_echo, read_not_found}
use spaceteam.Http.Characters.{is_char, is_ctl, is_tspecial, is_digit}
use spaceteam.Status.{new_status, update_status}
use spaceteam.Http.Fields.{Request, new_request}
use spaceteam.Http.Response
use spaceteam.Http.Response.{Response, ResponseCode, empty_response, to_string}

-- every path is a regular file that holds "hi"
abbrev files : Files
files = record {
  exists = λ p. some true;
  is_regular_file = λ p. some true;
  canonical = λ p. some p;
  filename = λ p. codes "r";
  extension = λ p. codes ".gif";
  read_file = λ p. some (codes "hi");
  render = λ p. none;
}

abbrev request : Request
request = record new_request { uri = codes "/s/f" }

abbrev sent : Response
sent = record {
  status = codes "HTTP/1.1 200 OK";
  raw_status = some Response.ok;
  headers = (content_type, get_mime_type (codes ".gif")) ∷ [];
  body = codes "hi";
}

static_handle_run :
    static_handle files (codes "/s") (codes "/r") request (some empty_response)
    ≡ returned ok (some sent)
unfolding static_handle equal
static_handle_run = refl

static_handle_sound_example :
    (sent ≡ not_found_response empty_response)
    ⊎ IsServed files (codes "/s/f") (codes "/s") (codes "/r") sent
static_handle_sound_example =
    static_handle_sound files (codes "/s") (codes "/r") request empty_response sent
      static_handle_run

read_echo_example :
    read_message around Response.ok (get (codes "e")) new_status handlers
    ≡ done
        (async_write (
            codes
              "HTTP/1.1 200 OK\r\nContent-Type: text/plain\r\n\r\nGET /e HTTP/1.1\r\nA: b\r\n\r\n")
          ∷ [])
        (update_status (codes "/e") Response.ok new_status)
        handlers
unfolding is_ctl assign equal
read_echo_example =
    read_echo around Response.ok (get (codes "e")) new_status handlers (codes "/e")
      (get-IsValid b'e' (refl, refl)) (get-NoReferer (codes "e")) echo-IsBest

read_not_found_example :
    read_message around Response.ok (get (codes "x")) new_status handlers
    ≡ done
        (async_write (
            codes
              "HTTP/1.1 404 Not Found\r\nContent-Type: text/html\r\n\r\n<!doctype html><html><body><h1>404 Not Found</h1></body></html>")
          ∷ [])
        (update_status (codes "/x") Response.not_found new_status)
        handlers
unfolding is_ctl assign find equal less
read_not_found_example =
    read_not_found around Response.ok (get (codes "x")) new_status handlers
      (get-IsValid b'x' (refl, refl)) (get-NoReferer (codes "x")) none_registered refl

answer_read-ShowsCode_example : ShowsCode ResponseCode.ok (
    answer_read
      (handle_request around)
      ResponseCode.ok
      (request_text (get (codes "x")))
      new_status
      handlers)
answer_read-ShowsCode_example =
    answer_read-ShowsCode around ResponseCode.ok handlers (request_text (get (codes "x")))
      new_status

-- the page that a request comes from is under the prefix of the EchoHandler
abbrev from_page : Message
from_page = record (get (codes "x")) { headers = (codes "Referer", codes "http://a/e") ∷ [] }

from_page-IsValid : IsValid from_page
unfolding is_char is_ctl is_tspecial is_digit
from_page-IsValid = record {
  has_method = cc;
  method_token = (refl, (refl, (refl, tt)));
  path_printable = ((refl, refl), tt);
  has_major = cc;
  major_digits = (refl, tt);
  has_minor = cc;
  minor_digits = (refl, tt);
  all_headers = (
    (
      cc,
      (refl, (refl, (refl, (refl, (refl, (refl, (refl, tt))))))),
      (refl, (refl, (refl, (refl, (refl, (refl, (refl, (refl, (refl, (refl, tt)))))))))),
    ),
    tt,
  );
}

read_referred_example :
    handle_bytes
      (handle_request around)
      ResponseCode.ok
      (request_text from_page)
      new_status
      handlers
    ≡ done
        (async_write (
            codes
              "HTTP/1.1 200 OK\r\nContent-Type: text/plain\r\n\r\nGET /x HTTP/1.1\r\nReferer: http://a/e\r\n\r\n")
          ∷ [])
        (update_status (codes "/x") Response.ok new_status)
        handlers
unfolding assign equal
read_referred_example =
    read_referred around Response.ok from_page new_status handlers [] [] (codes "http://a")
      (codes "e") (codes "/e") from_page-IsValid refl tt tt (omega arith, tt) echo-IsBest
