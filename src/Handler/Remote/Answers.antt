-- ===== src/Handler/Remote/Answers.antt =====
-- What `ProxyHandler` passes on of an answer that is no redirect.
use spaceteam.Common.{
  ℕ, zero, suc, ◌<◌, Text, codes, true, false, [], ◌∷◌, ◌++◌, append-nil, append_assoc, List,
  Option, some, equal, length, length-append, take, ◌==◌, All, ◌≡◌, refl, ap, ◌∙◌, arith,
}
use spaceteam.Handler.Base.{Handled, returned, ok}
use spaceteam.Handler.Remote.{
  coded, second_read, read_content, read_answer, headers_in, talk_to, proceed, proxy_rounds,
  proxy_handle, remote_uri, request_for, set_body_if, Exchange, ended,
}
use spaceteam.Handler.Streams.{Conversation, get_line, read_line, read_headers, heading, status_of}
use spaceteam.Http.Response.{Response, add_header, set_body}
use spaceteam.Handler.Remote.Lines.{
  IsLine, line_text, lines_text, passed, get_line-line, read_line-line, read_headers-step,
}

pub shorter_lines :
    (f : ℕ) (text : Text) (hs : List (Text × Text)) (end : Text)
    → length ((text ++ (b'\n' ∷ lines_text hs)) ++ end) < suc f
    → length (lines_text hs ++ end) < f
shorter_lines f text hs end l = omega (
  arith,
  length-append (text ++ (b'\n' ∷ lines_text hs)) end,
  length-append text (b'\n' ∷ lines_text hs),
  length-append (lines_text hs) end,
)

-- The loop over the headers of an answer that is no redirect keeps each, and leaves the content.
read_headers-lines :
    (f code : ℕ) (hs : List (Text × Text)) (content host : Text) (r : Response)
    → length (lines_text hs ++ (b'\r' ∷ b'\n' ∷ content)) < f
    → (code == 302) ≡ false
    → All IsLine hs
    → read_headers f code (lines_text hs ++ (b'\r' ∷ b'\n' ∷ content)) (host, r)
      ≡ heading content (host, record r { headers = r.headers ++ passed hs })
unfolding read_headers get_line equal add_header
read_headers-lines zero code hs content host r l k v = absurd (omega arith)
read_headers-lines (suc f) code [] content host r l k v = simp append-nil
read_headers-lines (suc f) code ((name, value) ∷ hs) content host r l k v =
    let rest = lines_text hs ++ (b'\r' ∷ b'\n' ∷ content) in
    let text = line_text (name, value) in
    let again = λ (t : Text) (s : Text × Response). read_headers f code t s in
    ap (λ t. read_headers (suc f) code t (host, r))
      (append_assoc text (b'\n' ∷ lines_text hs) (b'\r' ∷ b'\n' ∷ content))
    ∙ read_headers-step f code name value (b'\n' ∷ rest) (host, r)
    ∙ ap (λ g. read_line again code g (host, r)) (get_line-line name value rest v.0)
    ∙ read_line-line again code name value rest host r k v.0
    ∙ read_headers-lines f code hs content host (add_header name (value ++ b'\r' ∷ []) r)
        (shorter_lines f text hs (b'\r' ∷ b'\n' ∷ content) l) k v.1
    ∙ ap (λ x. heading content (host, record r { headers = x }))
        (append_assoc r.headers ((name, value ++ b'\r' ∷ []) ∷ []) (passed hs))

-- the body behind the bytes of the buffer and those that follow
abbrev pub content_of : Text → Text → Text → Text
content_of old buffer [] = old
content_of old buffer (c ∷ tail) = buffer ++ c ∷ tail

pub set_body_if_lem :
    (buffer tail : Text) (r : Response)
    → set_body_if buffer tail r ≡ record r { body = content_of r.body buffer tail }
unfolding set_body
set_body_if_lem buffer [] r = refl
set_body_if_lem buffer (c ∷ tail) r = refl

headers_in-lines :
    (code : ℕ) (hs : List (Text × Text)) (rest more content host : Text) (r : Response)
    → (code == 302) ≡ false
    → rest ++ more ≡ lines_text hs ++ (b'\r' ∷ b'\n' ∷ content)
    → All IsLine hs
    → headers_in code (host, r) (some rest) more
      ≡ heading content (host, record r { headers = r.headers ++ passed hs })
headers_in-lines code hs rest more content host r k e h =
    ap (λ t. read_headers (suc (length t)) code t (host, r)) e
    ∙ read_headers-lines _ code hs content host r (omega arith) k h

read_content-ended :
    (code : ℕ) (talk : Conversation) (content host : Text) (r : Response)
    → (code == 302) ≡ false
    → talk.at_eof ≡ true
    → read_content code talk (heading content (host, r)) host
      ≡ ended (returned ok (some (record r { body = content_of r.body content talk.tail }))) host
read_content-ended code talk content host r k t =
    rw (t, k) (ap (λ x. ended (returned ok (some x)) host) (set_body_if_lem content talk.tail r))

pub read_answer-http :
    (talk : Conversation) (host version rest more : Text) (code : ℕ) (r : Response)
    → equal (take 5 version) (codes "HTTP/") ≡ true
    → second_read (some rest) talk.more ≡ some more
    → read_answer talk host r (some (version, code, some rest))
      ≡ read_content code talk (headers_in code (host, coded code r) (some rest) more) host
read_answer-http talk host version rest more code r v m = rw (v, m) refl

-- A round that such an answer ends.
pub proxy_rounds-answer :
    (network : ℕ → Text → Text → Option Conversation) (talk : Conversation) (f n : ℕ)
    (host uri version rest more content : Text) (code : ℕ) (hs : List (Text × Text)) (r : Response)
    → network n host (request_for host uri) ≡ some talk
    → status_of talk.line ≡ some (version, code, some rest)
    → equal (take 5 version) (codes "HTTP/") ≡ true
    → (code == 302) ≡ false
    → second_read (some rest) talk.more ≡ some more
    → rest ++ more ≡ lines_text hs ++ (b'\r' ∷ b'\n' ∷ content)
    → All IsLine hs
    → talk.at_eof ≡ true
    → proxy_rounds network (suc f) n uri host r ≡ (
      returned ok (
          some (record (coded code r) {
            headers = (coded code r).headers ++ passed hs;
            body = content_of (coded code r).body content talk.tail;
          })),
      host,
    )
unfolding proxy_rounds
proxy_rounds-answer network talk f n host uri version rest more content code hs r at s v k m e h t =
    ap (λ o. go (talk_to network host r o)) at
    ∙ ap (λ o. go (read_answer talk host r o)) s
    ∙ ap go (read_answer-http talk host version rest more code r v m)
    ∙ ap (λ g. go (read_content code talk g host))
        (headers_in-lines code hs rest more content host (coded code r) k e h)
    ∙ ap go (read_content-ended code talk content host passed_on k t)
  where
    go : Exchange → Handled × Text
    go = proceed network λ h' r'. proxy_rounds network f (suc n) uri h' r'

    passed_on : Response
    passed_on = record (coded code r) { headers = (coded code r).headers ++ passed hs }

-- An answer with an HTTP status line whose code is not 302, header lines, an empty line and any
-- content, which ends with its stream: the handler returns OK after one round and keeps its host; the
-- code is 200 or else 404, each header's value has a carriage return at its end, and the content is
-- the body if some of it comes behind the bytes that were read with the headers, and else is lost.
pub proxy_handle_answer :
    (network : ℕ → Text → Text → Option Conversation) (talk : Conversation) (f : ℕ)
    (p host uri version rest more content : Text) (code : ℕ) (hs : List (Text × Text))
    (r : Response)
    → network 0 host (request_for host (remote_uri p uri)) ≡ some talk
    → status_of talk.line ≡ some (version, code, some rest)
    → equal (take 5 version) (codes "HTTP/") ≡ true
    → (code == 302) ≡ false
    → second_read (some rest) talk.more ≡ some more
    → rest ++ more ≡ lines_text hs ++ (b'\r' ∷ b'\n' ∷ content)
    → All IsLine hs
    → talk.at_eof ≡ true
    → proxy_handle network (suc f) p host uri r ≡ (
      returned ok (
          some (record (coded code r) {
            headers = (coded code r).headers ++ passed hs;
            body = content_of (coded code r).body content talk.tail;
          })),
      host,
    )
unfolding proxy_handle
proxy_handle_answer network talk f p host uri version rest more content code hs r n s v k m e h t =
    proxy_rounds-answer network talk f 0 host (remote_uri p uri) version rest more content code hs r
      n s v k m e h t
