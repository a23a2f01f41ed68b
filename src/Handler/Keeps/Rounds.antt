-- ===== src/Handler/Keeps/Rounds.antt =====
-- The rounds of `ProxyHandler`, and the virtual call.
use spaceteam.Common.{
  ℕ, zero, suc, ◌∷◌, [], Text, codes, not, Option, none, some, equal, take, ◌==◌, Bool-cases,
  Option-cases, inl, inr,
}
use spaceteam.Connection.{Handling, handled}
use spaceteam.Handler.Base.{
  Handled, Handler, returned, echo, not_found, status, holding, static, s3, proxy,
}
use spaceteam.Handler.Dispatch.{Surroundings, handle_request, left}
use spaceteam.Handler.Remote.{
  Exchange, ended, again, set_body_if, read_content, headers_in, coded, second_read, read_answer,
  talk_to, proceed, proxy_rounds, proxy_handle, remote_uri, request_for,
}
use spaceteam.Handler.Streams.{Conversation, Heading, heading, threw_heading, unfinished, status_of}
use spaceteam.Http.Fields.{Request}
use spaceteam.Http.Response
use spaceteam.Http.Response.{Response, ResponseCode, set_status, add_header, set_body}
use spaceteam.Handler.Keeps.{
  IsKept, Leaves, echo-Leaves, not_found_response-keeps, status-Leaves, static_handle-Leaves,
  s3_handle-Leaves,
}
use spaceteam.Handler.Keeps.Headers.{Heads, read_headers-Heads}

-- what a round of the proxy leaves
abbrev Rounds : (Response → Type 0) → Exchange → Type 0
Rounds P (ended result host) = Leaves P result
Rounds P (again host r) = P r

-- A response that the virtual call leaves has the property.
abbrev pub Answered : (Response → Type 0) → Handling Handler → Type 0
Answered P (handled result r h) = P r
Answered P _ = Unit

module _ {P : Response → Type 0} (keep : IsKept P) where
  set_body_if-keeps : (buffer tail : Text) (r : Response) → P r → P (set_body_if buffer tail r)
  unfolding set_body
  set_body_if-keeps buffer [] r p = p
  set_body_if-keeps buffer (c ∷ tail) r p = keep.on_body _ r p

  read_content-Rounds :
      (code : ℕ) (talk : Conversation) (g : Heading) (old : Text)
      → Heads P g
      → Rounds P (read_content code talk g old)
  read_content-Rounds code talk (heading buffer (host, r)) old p =
      elim (Bool-cases (not talk.at_eof)) [
        | inl e ↦ rw e tt
        | inr e ↦ elim (Bool-cases (code == 302)) [
          | inl k ↦ rw (e, k) (set_body_if-keeps buffer talk.tail r p)
          | inr k ↦ rw (e, k) (set_body_if-keeps buffer talk.tail r p)
        ]
      ]
  read_content-Rounds code talk threw_heading old p = tt
  read_content-Rounds code talk unfinished old p = tt

  coded-keeps : (code : ℕ) (r : Response) → P r → P (coded code r)
  unfolding set_status
  coded-keeps code r p = elim (Bool-cases (code == 200)) [
    | inl e ↦ rw e (keep.on_status Response.ok r p)
    | inr e ↦ rw e (keep.on_status Response.not_found r p)
  ]

  headers_in-Heads :
      (code : ℕ) (host : Text) (r : Response) (rest : Option Text) (more : Text)
      → P r
      → Heads P (headers_in code (host, r) rest more)
  headers_in-Heads code host r none more p = p
  headers_in-Heads code host r (some rest) more p = read_headers-Heads keep _ code _ host r p

  read_answer-Rounds :
      (talk : Conversation) (host : Text) (r : Response) (o : Option (Text × ℕ × Option Text))
      → P r
      → Rounds P (read_answer talk host r o)
  unfolding set_status
  read_answer-Rounds talk host r none p = keep.on_status Response.internal_server_error r p
  read_answer-Rounds talk host r (some (version, code, rest)) p =
      elim (Bool-cases (not (equal (take 5 version) (codes "HTTP/")))) [
        | inl e ↦ rw e (keep.on_status Response.internal_server_error r p)
        | inr e ↦ elim (Option-cases (second_read rest talk.more)) [
          | inl off ↦ rw (e, off) tt
          | inr (more, at) ↦
              rw (e, at)
                (read_content-Rounds code talk _ host
                  (headers_in-Heads code host (coded code r) rest more (coded-keeps code r p)))
        ]
      ]

  module _ (network : ℕ → Text → Text → Option Conversation) where
    talk_to-Rounds :
        (host : Text) (r : Response) (o : Option Conversation)
        → P r
        → Rounds P (talk_to network host r o)
    talk_to-Rounds host r none p = tt
    talk_to-Rounds host r (some talk) p = read_answer-Rounds talk host r (status_of talk.line) p

    proceed-Leaves :
        (next : Text → Response → Handled × Text) (g : Exchange)
        → ((host : Text) (r : Response) → P r → Leaves P (next host r).0)
        → Rounds P g
        → Leaves P (proceed network next g).0
    proceed-Leaves next (ended result host) keeps p = p
    proceed-Leaves next (again host r) keeps p = keeps host r p

    proxy_rounds-Leaves :
        (f n : ℕ) (uri host : Text) (r : Response)
        → P r
        → Leaves P (proxy_rounds network f n uri host r).0
    unfolding proxy_rounds
    proxy_rounds-Leaves zero n uri host r p = tt
    proxy_rounds-Leaves (suc f) n uri host r p =
        proceed-Leaves (λ h r'. proxy_rounds network f (suc n) uri h r') _
          (λ h r p. proxy_rounds-Leaves f (suc n) uri h r p)
          (talk_to-Rounds host r (network n host (request_for host uri)) p)

  left-Answered : (h : Handler) (result : Handled) → Leaves P result → Answered P (left h result)
  left-Answered h (returned result (some r)) p = p
  left-Answered h (returned result none) p = tt
  left-Answered h Handled.threw p = tt
  left-Answered h Handled.undefined p = tt
  left-Answered h Handled.diverges p = tt

  pub handle_request-Answered :
      (around : Surroundings) (h : Handler) (request : Request) (r : Response)
      → P r
      → Answered P (handle_request around h request r)
  unfolding handle_request proxy_handle
  handle_request-Answered around echo request r p = echo-Leaves keep request r p
  handle_request-Answered around not_found request r p = not_found_response-keeps keep r p
  handle_request-Answered around status request r p =
      left-Answered status _ (status-Leaves keep request r p)
  handle_request-Answered around holding request r p = tt
  handle_request-Answered around (static uri_prefix root) request r p =
      left-Answered (static uri_prefix root) _
        (static_handle-Leaves keep around.files uri_prefix root request r p)
  handle_request-Answered around (s3 uri_prefix bucket) request r p =
      left-Answered (s3 uri_prefix bucket) _
        (s3_handle-Leaves keep around.popen uri_prefix bucket request r p)
  handle_request-Answered around (proxy uri_prefix host portno) request r p =
      left-Answered (proxy uri_prefix _ portno) _ (
        proxy_rounds-Leaves around.network around.redirects 0 (remote_uri uri_prefix request.uri)
          host r p)
