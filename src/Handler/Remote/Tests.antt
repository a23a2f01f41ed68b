-- ===== src/Handler/Remote/Tests.antt =====
-- The proxy on networks of one or two answers.
use spaceteam.Common.{
  ℕ, zero, suc, Text, codes, true, ◌++◌, [], ◌∷◌, Option, some, equal, ◌≡◌, refl,
}
use spaceteam.Connection.{index_of}
use spaceteam.Handler.Base.{returned, ok, diverges}
use spaceteam.Handler.Remote.Answered.{IsAnswer}
use spaceteam.Handler.Remote.Own.{proxied_in_pieces, proxied_at_once}
use spaceteam.Handler.Remote.Redirects.{proxy_handle_endless, proxy_handle_redirected}
use spaceteam.Handler.Remote.Targets.{IsRedirect}
use spaceteam.Handler.Remote.{proxy_handle}
use spaceteam.Handler.Streams.{Conversation, status_of}
use spaceteam.Http.Response
use spaceteam.Http.Response.{Response, redirect, empty_response, to_string}

-- another server of this program, whose answer comes in two pieces, and in one
abbrev theirs : Response
theirs = record {
  status = codes "HTTP/1.1 200 OK";
  raw_status = some Response.ok;
  headers = (codes "A", codes "b") ∷ [];
  body = codes "hi";
}

abbrev in_one : Conversation
in_one = record {
  line = codes "HTTP/1.1 200 OK\r\nA: b\r\n\r\nhi";
  more = some [];
  tail = [];
  at_eof = true;
}

abbrev in_two : Conversation
in_two = record {
  line = codes "HTTP/1.1 200 OK\r\n";
  more = some (codes "A: b\r\n\r\nh");
  tail = codes "i";
  at_eof = true;
}

abbrev answer : Text → Response
answer body = record {
  status = codes "HTTP/1.1 200 OK";
  raw_status = some Response.ok;
  headers = (codes "A", codes "b\r") ∷ [];
  body = body;
}

proxied_in_pieces_example :
    proxy_handle
      (λ n host request. some in_two)
      1
      (codes "/p")
      (codes "h")
      (codes "/p/x")
      empty_response
    ≡ (returned ok (some (answer (codes "hi"))), codes "h")
unfolding to_string
proxied_in_pieces_example =
    proxied_in_pieces (λ n host request. some in_two) in_two 0 (codes "/p") (codes "h")
      (codes "/p/x") Response.ok theirs empty_response refl refl refl (λ e. cc)
      ((((refl, refl), tt), (refl, tt)), tt) [] (codes "A: b\r\n\r\nh") (codes "h") refl refl
      (λ e. cc) refl refl

proxied_at_once_example :
    proxy_handle
      (λ n host request. some in_one)
      1
      (codes "/p")
      (codes "h")
      (codes "/p/x")
      empty_response
    ≡ (returned ok (some (answer [])), codes "h")
unfolding to_string
proxied_at_once_example =
    proxied_at_once (λ n host request. some in_one) in_one 0 (codes "/p") (codes "h") (codes "/p/x")
      Response.ok theirs empty_response refl refl refl (λ e. cc)
      ((((refl, refl), tt), (refl, tt)), tt) (λ e. cc) refl refl

-- a host that sends its clients to the host `b`
abbrev elsewhere : Conversation
elsewhere = record {
  line = codes "HTTP/1.1 302 Found\r\nLocation: http://b/\r\n\r\n";
  more = some [];
  tail = [];
  at_eof = true;
}

unfoldable elsewhere_redirects : (host : Text) → IsRedirect elsewhere host (codes "b")
unfolding status_of index_of equal
elsewhere_redirects host = record {
  version = codes "HTTP/1.1";
  rest = codes "Location: http://b/\r\n\r\n";
  more = [];
  content = [];
  headers = (codes "Location", codes "http://b/") ∷ [];
  line = refl;
  http = refl;
  rest_read = refl;
  text = refl;
  lines = (
    (
      (
        (refl, refl),
        (
          (refl, refl),
          (
            (refl, refl),
            ((refl, refl), ((refl, refl), ((refl, refl), ((refl, refl), ((refl, refl), tt))))),
          ),
        ),
      ),
      (refl, (refl, (refl, (refl, (refl, (refl, (refl, (refl, (refl, tt))))))))),
    ),
    tt,
  );
  leads = refl;
  whole = refl;
}

proxy_handle_endless_example :
    (proxy_handle
      (λ n host request. some elsewhere)
      7
      (codes "/p")
      (codes "a")
      (codes "/p/x")
      empty_response).0
    ≡ diverges
proxy_handle_endless_example =
    proxy_handle_endless (λ n host request. some elsewhere) 7 (codes "/p") (codes "a")
      (codes "/p/x") empty_response
      (λ n host. (elsewhere, codes "b", refl, elsewhere_redirects host))

-- the first host sends its client to `b`, which answers
abbrev two_hosts : ℕ → Text → Text → Option Conversation
two_hosts zero host request = some elsewhere
two_hosts (suc n) host request = some in_two

elsewhere_answers :
    IsAnswer elsewhere redirect
      ([] ++ (codes "Location", codes "http" ++ (codes "://" ++ (codes "b" ++ b'/' ∷ []))) ∷ [])
      []
unfolding elsewhere_redirects
elsewhere_answers = record {
  rest = codes "Location: http://b/\r\n\r\n";
  more = [];
  line = refl;
  rest_read = refl;
  text = refl;
  lines = (elsewhere_redirects []).lines;
  whole = refl;
}

answers_in_two : IsAnswer in_two Response.ok ((codes "A", codes "b") ∷ []) (codes "h")
answers_in_two = record {
  rest = [];
  more = codes "A: b\r\n\r\nh";
  line = refl;
  rest_read = refl;
  text = refl;
  lines = ((((refl, refl), tt), (refl, tt)), tt);
  whole = refl;
}

proxy_handle_redirected_example :
    proxy_handle two_hosts 2 (codes "/p") (codes "a") (codes "/p/x") empty_response ≡ (
      returned ok (
          some (record {
            status = codes "HTTP/1.1 200 OK";
            raw_status = some Response.ok;
            headers = (codes "Location", codes "http://b/\r") ∷ (codes "A", codes "b\r") ∷ [];
            body = codes "hi";
          })),
      codes "b",
    )
proxy_handle_redirected_example =
    proxy_handle_redirected two_hosts 0 (codes "/p") (codes "a") (codes "/p/x") (codes "http")
      (codes "b") b'/' elsewhere in_two [] [] ((codes "A", codes "b") ∷ []) [] (codes "h")
      Response.ok empty_response refl elsewhere_answers tt tt (refl, (refl, (refl, (refl, tt))))
      refl answers_in_two (λ e. cc)
