-- ===== src/Handler/Remote/Redirects.antt =====
-- How `ProxyHandler` follows redirects.
use spaceteam.Common.{
  zero, suc, Text, codes, false, ◌∷◌, ◌++◌, append_assoc, List, Option, some, equal, ◌==◌, All, ◌≡◌,
  ◌≢◌, refl, ap, ◌∙◌, ℕ, codes, [],
}
use spaceteam.Handler.Base.{Handled, returned, diverges, ok}
use spaceteam.Handler.Remote.Answers.{content_of, read_answer-http, proxy_rounds-answer}
use spaceteam.Handler.Remote.Own.{
  passed_line, passed_code, coded_lem, line_number, no_redirect, status_of-status_line,
}
use spaceteam.Handler.Remote.Answered.{IsAnswer, redirecting}
use spaceteam.Handler.Remote.Lines.{passed}
use spaceteam.Handler.Remote.{
  coded, read_content, read_answer, talk_to, proceed, proxy_rounds, proxy_handle, remote_uri,
  request_for, Exchange,
}
use spaceteam.Handler.Streams.{Conversation, status_of}
use spaceteam.Http.Response.{Response, ResponseCode, redirect, set_status}
use spaceteam.Http.Fields.{Headers}
use spaceteam.Handler.Remote.Targets.{followed, headers_in-target, read_content-again, IsRedirect}

module _ (network : ℕ → Text → Text → Option Conversation) where
  -- A redirect leads to another round, for the new host, with the response that has taken the answer.
  proxy_rounds-redirect :
      (f n : ℕ) (uri host host' : Text) (talk : Conversation) (r : Response)
      → network n host (request_for host uri) ≡ some talk
      → (d : IsRedirect talk host host')
      → proxy_rounds network (suc f) n uri host r
        ≡ proxy_rounds network f (suc n) uri host' (followed d r)
  unfolding proxy_rounds
  proxy_rounds-redirect f n uri host host' talk r at d =
      ap (λ o. go (talk_to network host r o)) at
      ∙ ap (λ o. go (read_answer talk host r o)) d.line
      ∙ ap go (read_answer-http talk host d.version d.rest d.more 302 r d.http d.rest_read)
      ∙ ap (λ g. go (read_content 302 talk g host))
          (headers_in-target d.headers d.rest d.more d.content host host' (coded 302 r) d.text
            d.leads d.lines)
      ∙ ap go (read_content-again talk d.content host host' _ d.whole)
    where
      go : Exchange → Handled × Text
      go = proceed network λ h' r'. proxy_rounds network f (suc n) uri h' r'

  -- every answer to a request for a URI is a redirect
  abbrev pub AlwaysRedirects : Text → Type 0
  AlwaysRedirects uri =
      (n : ℕ) (host : Text)
      → (talk : Conversation) × (host' : Text) × (network n host (request_for host uri) ≡ some talk)
        × IsRedirect talk host host'

  endless :
      (uri : Text)
      → AlwaysRedirects uri
      → (f n : ℕ) (host : Text) (r : Response) → (proxy_rounds network f n uri host r).0 ≡ diverges
  unfolding proxy_rounds
  endless uri a zero n host r = refl
  endless uri a (suc f) n host r =
      let (talk, host', at, d) = a n host in
      ap (λ (x : Handled × Text). x.0) (proxy_rounds-redirect f n uri host host' talk r at d)
      ∙ endless uri a f (suc n) host' _

  -- If every answer of the network to the request for the remote URI is a redirect that can be
  -- followed, then the proxy has not ended after any number of rounds.
  pub proxy_handle_endless :
      (f : ℕ) (p host uri : Text) (r : Response)
      → AlwaysRedirects (remote_uri p uri)
      → (proxy_handle network f p host uri r).0 ≡ diverges
  unfolding proxy_handle
  proxy_handle_endless f p host uri r a = endless (remote_uri p uri) a f 0 host r

  -- If the answer to the request for the remote URI has the status line of a redirect, headers of
  -- which one is `Location` with a scheme, "://", another host and one more byte, and an empty line,
  -- and that host answers the same request with the status line of a response of this program that is
  -- no redirect, headers, an empty line and any content, and both streams end there, then the handler
  -- returns OK and keeps the second host. The response has code 200 if the second answer has, and
  -- else 404, the headers of both answers, each with a carriage return behind its value, and the
  -- second content if some of it comes behind the bytes that were read with the headers, and else the
  -- body that was there before.
  pub proxy_handle_redirected :
      (f : ℕ) (p host uri scheme host' : Text) (c : ℕ) (first second : Conversation)
      (before after hs : List (Text × Text)) (content content' : Text) (code : ResponseCode)
      (r : Response)
      → network 0 host (request_for host (remote_uri p uri)) ≡ some first
      → IsAnswer first redirect
          (before ++ (codes "Location", scheme ++ (codes "://" ++ (host' ++ c ∷ []))) ∷ after)
          content
      → All (λ h. equal h.0 (codes "Location") ≡ false) before
      → All (λ h. equal h.0 (codes "Location") ≡ false) after
      → All (λ b. (b == b':') ≡ false) scheme
      → network 1 host' (request_for host' (remote_uri p uri)) ≡ some second
      → IsAnswer second code hs content'
      → code ≢ redirect
      → proxy_handle network (suc (suc f)) p host uri r ≡ (
        returned ok (
            some (record {
              status = passed_line code;
              raw_status = some (passed_code code);
              headers =
                  r.headers
                  ++ (passed (
                        before
                        ++ (codes "Location", scheme ++ (codes "://" ++ (host' ++ c ∷ []))) ∷ after)
                      ++ passed hs);
              body = content_of (content_of r.body content first.tail) content' second.tail;
            })),
        host',
      )
  unfolding proxy_handle equal redirecting set_status
  proxy_handle_redirected f p host uri scheme host' c first second before after hs content content'
        code r at a1 no_before no_after plain to a2 direct =
      let d : IsRedirect first host host' =
        redirecting first before after content scheme host host' c a1 no_before no_after plain in
      let line = ap status_of a2.line ∙ status_of-status_line code a2.rest in
      proxy_rounds-redirect (suc f) 0 (remote_uri p uri) host host' first r at d
      ∙ proxy_rounds-answer network second f 1 host' (remote_uri p uri) (codes "HTTP/1.1") a2.rest
          a2.more content' (line_number code) hs (followed d r) to line refl
          (no_redirect code direct) a2.rest_read a2.text a2.lines a2.whole
      ∙ ap again_passed (coded_lem code (followed d r))
      ∙ ap again_headers (append_assoc r.headers (passed d.headers) (passed hs))
    where
      again_passed : Response → Handled × Text
      again_passed x = (
        returned ok (
            some (record x {
              headers = x.headers ++ passed hs;
              body = content_of x.body content' second.tail;
            })),
        host',
      )

      again_headers : Headers → Handled × Text
      again_headers x = (
        returned ok (
            some (record {
              status = passed_line code;
              raw_status = some (passed_code code);
              headers = x;
              body = content_of (content_of r.body content first.tail) content' second.tail;
            })),
        host',
      )
