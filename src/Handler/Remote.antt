-- ===== src/Handler/Remote.antt =====
-- `ProxyHandler::HandleRequest`: src/proxy_handler.cc. The remote host is a parameter.
pub mod Lines
pub mod Answers
pub mod Own
pub mod Targets
pub mod Answered
pub mod Redirects
mod Tests
use spaceteam.Common.{
  ℕ, zero, suc, ◌+◌, ◌-◌, ◌*◌, ◌^◌, Text, codes, Bool, true, false, not, ◌&&◌, ◌||◌, [], ◌∷◌, ◌++◌,
  Option, none, some, equal, length, take, drop, ltb, leb, ◌==◌, if◌then◌else◌,
}
use spaceteam.Connection.{index_of}
use spaceteam.Handler.Base.{Handled, returned, threw, diverges, ok, error, extends}
use spaceteam.Handler.Files.{contains}
use spaceteam.Http.Response
use spaceteam.Http.Response.{Response, set_status, add_header, set_body}
use spaceteam.Handler.Streams.{
  Conversation, or_nothing, status_of, Heading, heading, threw_heading, unfinished, read_headers,
}

-- what a round of the outer loop leaves: it ends, or there is another for a host
pub data Exchange : Type 0 where
  ended : Handled → Text → Exchange
  again : Text → Response → Exchange

abbrev pub set_body_if : Text → Text → Response → Response
set_body_if buffer [] r = r
set_body_if buffer (c ∷ tail) r = set_body (buffer ++ c ∷ tail) r

-- the content: the buffer is written only where something follows it
abbrev pub read_content : ℕ → Conversation → Heading → Text → Exchange
read_content code talk (heading buffer (host, r)) old =
    let r' = set_body_if buffer talk.tail r in
    if not talk.at_eof
    then ended threw host
    else if code == 302
    then again host r'
    else ended (returned ok (some r')) host
read_content code talk threw_heading old = ended threw old
read_content code talk unfinished old = ended diverges old

abbrev pub headers_in : ℕ → Text × Response → Option Text → Text → Heading
headers_in code s none more = heading more s
headers_in code s (some rest) more =
    read_headers (suc (length (rest ++ more))) code (rest ++ more) s

abbrev pub coded : ℕ → Response → Response
coded code r = if code == 200 then set_status Response.ok r else set_status Response.not_found r

-- `read_until` up to an empty line: it reads nothing where one stands in the buffer already, and
-- throws where the stream ends before one came. The result is what it adds to the buffer.
abbrev pub blank : Text
blank = codes "\r\n\r\n"

abbrev pub up_to_blank : Text → Option Text → Option Text
up_to_blank left none = none
up_to_blank left (some more) = if contains blank (left ++ more) then some more else none

abbrev pub second_read : Option Text → Option Text → Option Text
second_read left more =
    if contains blank (or_nothing left) then some [] else up_to_blank (or_nothing left) more

abbrev pub read_answer : Conversation → Text → Response → Option (Text × ℕ × Option Text) → Exchange
read_answer talk host r none =
    ended (returned error (some (set_status Response.internal_server_error r))) host
read_answer talk host r (some (version, code, rest)) =
    if not (equal (take 5 version) (codes "HTTP/"))
    then ended (returned error (some (set_status Response.internal_server_error r))) host
    else elim (second_read rest talk.more) [
      | none ↦ ended threw host
      | some more ↦ read_content code talk (headers_in code (host, coded code r) rest more) host
    ]

-- the URI that is asked for
unfoldable pub remote_uri : Text → Text → Text
remote_uri uri_prefix uri =
    let asked = if equal uri uri_prefix then b'/' ∷ [] else uri in
    if extends asked uri_prefix then drop (length uri_prefix) asked else asked

-- `req`
abbrev pub request_for : Text → Text → Text
request_for host uri =
    codes "GET "
    ++ (uri
        ++ (codes " HTTP/1.1\r\nHost: "
            ++ (host ++ codes "\r\nAccept: */*\r\nConnection: close\r\n\r\n")))

-- The network: a round's number, the host and the request lead to a conversation, or to an
-- exception (`none`).
module _ (network : ℕ → Text → Text → Option Conversation) where
  abbrev pub talk_to : Text → Response → Option Conversation → Exchange
  talk_to host r none = ended threw host
  talk_to host r (some talk) = read_answer talk host r (status_of talk.line)

  abbrev pub proceed : (Text → Response → Handled × Text) → Exchange → Handled × Text
  proceed next (ended result host) = (result, host)
  proceed next (again host r) = next host r

  -- `while (true)`: nothing bounds the number of redirects, so a run that needs more rounds than it
  -- is given diverges.
  unfoldable pub proxy_rounds : ℕ → ℕ → Text → Text → Response → Handled × Text
  unfolding status_of read_headers set_status
  proxy_rounds zero n uri host r = (diverges, host)
  proxy_rounds (suc f) n uri host r =
      proceed (λ h r'. proxy_rounds f (suc n) uri h r')
        (talk_to host r (network n host (request_for host uri)))

  -- The result, and the host that the handler keeps. The only call passes a response.
  unfoldable pub proxy_handle : ℕ → Text → Text → Text → Response → Handled × Text
  unfolding remote_uri proxy_rounds
  proxy_handle f uri_prefix host uri r = proxy_rounds f 0 (remote_uri uri_prefix uri) host r
