-- ===== src/Handler/Remote/Own.antt =====
-- A proxy in front of another server of this program: `Response::ToString` of src/response.cc, read by
-- `ProxyHandler`.
use spaceteam.Common.{
  ℕ, suc, Text, codes, true, false, List, [], ◌∷◌, ◌++◌, append-nil, append_assoc, Option, some,
  equal, ◌==◌, All, ◌≡◌, ◌≢◌, refl, ap, sym, ◌∙◌, arith,
}
use spaceteam.Handler.Base.{returned, ok}
use spaceteam.Handler.Remote.Answers.{content_of, proxy_handle_answer}
use spaceteam.Handler.Remote.Lines.{IsLine, line_text, lines_text, passed}
use spaceteam.Handler.Files.{contains}
use spaceteam.Handler.Remote.{blank, second_read, coded, proxy_handle, remote_uri, request_for}
use spaceteam.Handler.Streams.{Conversation, status_of}
use spaceteam.Http.Response
use spaceteam.Http.Response.{
  Response, ResponseCode, redirect, status_line, set_status, to_string, write_headers,
}

contains-blank : (before after : Text) → contains blank (before ++ (blank ++ after)) ≡ true
contains-blank [] after = refl
contains-blank (c ∷ before) after = ground (arith, contains-blank before after)

-- header lines end with a line end
lines_text-end :
    (h : Text × Text) (hs : List (Text × Text))
    → (text : Text) × (lines_text (h ∷ hs) ≡ text ++ (b'\r' ∷ b'\n' ∷ []))
lines_text-end (name, value) [] = (name ++ b':' ∷ b' ' ∷ value, simp append_assoc)
lines_text-end h (k ∷ hs) =
    let (text, e) = lines_text-end k hs in
    (
      line_text h ++ b'\n' ∷ text,
      ap (λ t. line_text h ++ b'\n' ∷ t) e
          ∙ sym (append_assoc (line_text h) (b'\n' ∷ text) (b'\r' ∷ b'\n' ∷ [])),
    )

-- Where the end of the headers is in the buffer, nothing more is read.
second_read-blank :
    (hs : List (Text × Text)) (content : Text) (more : Option Text)
    → hs ≢ []
    → second_read (some (lines_text hs ++ (b'\r' ∷ b'\n' ∷ content))) more ≡ some []
second_read-blank [] content more h = absurd (h refl)
second_read-blank (h ∷ hs) content more l =
    let (text, e) = lines_text-end h hs in
    let same : lines_text (h ∷ hs) ++ (b'\r' ∷ b'\n' ∷ content) ≡ text ++ (blank ++ content) =
      ap (λ t. t ++ (b'\r' ∷ b'\n' ∷ content)) e
      ∙ append_assoc text (b'\r' ∷ b'\n' ∷ []) (b'\r' ∷ b'\n' ∷ content) in
    ap (λ t. second_read (some t) more) same ∙ rw (contains-blank text content) refl

one_line :
    (name value rest : Text)
    → (name ++ (codes ": " ++ (value ++ (b'\r' ∷ b'\n' ∷ [])))) ++ rest
      ≡ line_text (name, value) ++ (b'\n' ∷ rest)
one_line name value rest = simp append_assoc

write_headers-lines :
    (result : Text) (hs : List (Text × Text)) → write_headers result hs ≡ result ++ lines_text hs
unfolding write_headers
write_headers-lines result [] = sym (append-nil result)
write_headers-lines result ((name, value) ∷ hs) =
    write_headers-lines _ hs
    ∙ append_assoc result _ (lines_text hs)
    ∙ ap (◌++◌ result) (one_line name value (lines_text hs))

-- The text of a response: its status line, its header lines, an empty line and its body.
pub to_string-lines :
    (r : Response)
    → to_string r ≡ r.status ++ (b'\r' ∷ b'\n' ∷ (lines_text r.headers ++ (b'\r' ∷ b'\n' ∷ r.body)))
unfolding to_string
to_string-lines r =
    ap (λ t. t ++ (b'\r' ∷ b'\n' ∷ r.body))
      (write_headers-lines (r.status ++ (b'\r' ∷ b'\n' ∷ [])) r.headers)
    ∙ simp append_assoc

-- the number in a status line
abbrev pub line_number : ResponseCode → ℕ
line_number Response.ok = 200
line_number Response.not_found = 404
line_number redirect = 302
line_number Response.internal_server_error = 500

pub status_of-status_line :
    (c : ResponseCode) (rest : Text)
    → status_of (status_line c ++ (b'\r' ∷ b'\n' ∷ rest))
      ≡ some (codes "HTTP/1.1", line_number c, some rest)
unfolding status_of
status_of-status_line Response.ok rest = refl
status_of-status_line Response.not_found rest = refl
status_of-status_line redirect rest = refl
status_of-status_line Response.internal_server_error rest = refl

pub no_redirect : (c : ResponseCode) → c ≢ redirect → (line_number c == 302) ≡ false
no_redirect Response.ok h = refl
no_redirect Response.not_found h = refl
no_redirect redirect h = absurd (h refl)
no_redirect Response.internal_server_error h = refl

append_cancel : (p a b : Text) → p ++ a ≡ p ++ b → a ≡ b
append_cancel [] a b e = e
append_cancel (c ∷ p) a b e = append_cancel p a b (cc)

-- a body behind a status line and header lines
abbrev framed : ResponseCode → Text → Text → Text
framed c lines body = status_line c ++ (b'\r' ∷ b'\n' ∷ (lines ++ (b'\r' ∷ b'\n' ∷ body)))

framed_inj : (c : ResponseCode) (lines a b : Text) → framed c lines a ≡ framed c lines b → a ≡ b
framed_inj c lines a b e =
    let behind = append_cancel (status_line c) _ _ e in
    let body = append_cancel lines (b'\r' ∷ b'\n' ∷ a) (b'\r' ∷ b'\n' ∷ b) (cc) in cc

pieces :
    (c : ResponseCode) (lines rest more content tail : Text)
    → rest ++ more ≡ lines ++ (b'\r' ∷ b'\n' ∷ content)
    → (status_line c ++ (b'\r' ∷ b'\n' ∷ rest)) ++ (more ++ tail) ≡ framed c lines (content ++ tail)
pieces c lines rest more content tail e =
    append_assoc (status_line c) (b'\r' ∷ b'\n' ∷ rest) (more ++ tail)
    ∙ ap (λ t. status_line c ++ (b'\r' ∷ b'\n' ∷ t))
        (sym (append_assoc rest more tail)
          ∙ ap (λ t. t ++ tail) e
          ∙ append_assoc lines (b'\r' ∷ b'\n' ∷ content) tail)

content_of_tail :
    (old content tail : Text) → tail ≢ [] → content_of old content tail ≡ content ++ tail
content_of_tail old content [] h = absurd (h refl)
content_of_tail old content (c ∷ tail) h = refl

-- the status line and the code that the proxy's response gets: 200, or else 404
abbrev pub passed_line : ResponseCode → Text
passed_line Response.ok = codes "HTTP/1.1 200 OK"
passed_line _ = codes "HTTP/1.1 404 Not Found"

abbrev pub passed_code : ResponseCode → ResponseCode
passed_code Response.ok = Response.ok
passed_code _ = Response.not_found

pub coded_lem :
    (c : ResponseCode) (r : Response)
    → coded (line_number c) r
      ≡ record r { status = passed_line c; raw_status = some (passed_code c) }
unfolding set_status
coded_lem Response.ok r = refl
coded_lem Response.not_found r = refl
coded_lem redirect r = refl
coded_lem Response.internal_server_error r = refl

module _ (network : ℕ → Text → Text → Option Conversation) (talk : Conversation) (f : ℕ)
    (p host uri : Text) (c : ResponseCode) (theirs r : Response)
    (called : network 0 host (request_for host (remote_uri p uri)) ≡ some talk)
    (ended : talk.at_eof ≡ true) (set : theirs.status ≡ status_line c) (direct : c ≢ redirect)
    (lines : All IsLine theirs.headers) where
  -- the response of the proxy
  abbrev pub passed_on : Text → Response
  passed_on body = record {
    status = passed_line c;
    raw_status = some (passed_code c);
    headers = r.headers ++ passed theirs.headers;
    body = body;
  }

  in_pieces :
      (rest more content : Text)
      → talk.line ≡ status_line c ++ (b'\r' ∷ b'\n' ∷ rest)
      → second_read (some rest) talk.more ≡ some more
      → rest ++ more ≡ lines_text theirs.headers ++ (b'\r' ∷ b'\n' ∷ content)
      → proxy_handle network (suc f) p host uri r
        ≡ (returned ok (some (passed_on (content_of r.body content talk.tail))), host)
  unfolding equal
  in_pieces rest more content first second whole =
      proxy_handle_answer network talk f p host uri (codes "HTTP/1.1") rest more content
        (line_number c) theirs.headers r called (ap status_of first ∙ status_of-status_line c rest)
        refl (no_redirect c direct) second whole lines ended
      ∙ ap
          (λ (mine : Response). (
            returned ok (
                some (record mine {
                  headers = mine.headers ++ passed theirs.headers;
                  body = content_of mine.body content talk.tail;
                })),
            host,
          ))
          (coded_lem c r)

  -- If the first connection of a call reaches a remote host, which sends the text of a response
  -- of this program that is no redirect and whose headers have no line feeds and no colons in
  -- their names, and closes the connection, and if the bytes up to the headers' end are read and
  -- some of the body comes behind them, the proxy passes on the whole body, with code 200 for a response
  -- with code 200 and else with 404, and each header with a carriage return behind its value.
  pub proxied_in_pieces :
      (rest more content : Text)
      → talk.line ≡ status_line c ++ (b'\r' ∷ b'\n' ∷ rest)
      → second_read (some rest) talk.more ≡ some more
      → talk.tail ≢ []
      → talk.line ++ (more ++ talk.tail) ≡ to_string theirs
      → rest ++ more ≡ lines_text theirs.headers ++ (b'\r' ∷ b'\n' ∷ content)
      → proxy_handle network (suc f) p host uri r
        ≡ (returned ok (some (passed_on theirs.body)), host)
  proxied_in_pieces rest more content first second behind whole part =
      in_pieces rest more content first second part
      ∙ ap (λ b. (returned ok (some (passed_on b)), host))
          (content_of_tail r.body content talk.tail behind
            ∙ framed_inj c (lines_text theirs.headers) (content ++ talk.tail) theirs.body (
                sym (pieces c (lines_text theirs.headers) rest more content talk.tail part)
                ∙ ap (λ l. l ++ (more ++ talk.tail)) (sym first)
                ∙ whole
                ∙ to_string-lines theirs
                ∙ ap
                    (λ t.
                      t
                      ++ (b'\r'
                          ∷ b'\n'
                          ∷ (lines_text theirs.headers ++ (b'\r' ∷ b'\n' ∷ theirs.body))))
                    set))

  -- If the first connection of a call reaches a remote host, which sends the text of a response
  -- of this program that is no redirect and has headers, without line feeds and without colons
  -- in their names, and closes the connection, and if all of it comes with the first bytes that
  -- are read, the proxy's response has code 200 for a response with code 200 and else 404, and
  -- each header with a carriage return behind its value, and keeps the body that it had before.
  pub proxied_at_once :
      theirs.headers ≢ []
      → talk.line ≡ to_string theirs
      → talk.tail ≡ []
      → proxy_handle network (suc f) p host uri r ≡ (returned ok (some (passed_on r.body)), host)
  proxied_at_once some_headers first none_behind =
      in_pieces (lines_text theirs.headers ++ (b'\r' ∷ b'\n' ∷ theirs.body)) [] theirs.body
        (first
          ∙ to_string-lines theirs
          ∙ ap
              (λ t.
                t ++ (b'\r' ∷ b'\n' ∷ (lines_text theirs.headers ++ (b'\r' ∷ b'\n' ∷ theirs.body))))
              set)
        (second_read-blank theirs.headers theirs.body talk.more some_headers) (append-nil _)
      ∙ rw none_behind refl
