-- ===== src/Handler/Remote/Targets.antt =====
-- What `ProxyHandler` takes from a redirect.
use spaceteam.Common.{
  ℕ, zero, suc, ◌<◌, Text, codes, true, [], ◌∷◌, ◌++◌, append-nil, append_assoc, List, Option, none,
  some, equal, length, take, if◌then◌else◌, All, Bool-cases, Option-cases, inl, inr, ◌≡◌, ap, sym,
  ◌∙◌, arith,
}
use spaceteam.Handler.Remote.Answers.{content_of, set_body_if_lem, shorter_lines}
use spaceteam.Handler.Remote.Lines.{
  IsLine, line_text, lines_text, passed, get_line-line, read_line-taken, read_headers-step,
}
use spaceteam.Handler.Remote.{coded, second_read, read_content, headers_in, again}
use spaceteam.Handler.Streams.{
  Conversation, get_line, read_line, read_headers, heading, Heading, status_of, location,
}
use spaceteam.Http.Response.{Response, add_header}

-- The host after the headers of a redirect: that of the last `Location`, if each has one.
abbrev pub target : Text → List (Text × Text) → Option Text
target host [] = some host
target host ((name, value) ∷ hs) =
    if equal name (codes "Location")
    then elim (location (value ++ b'\r' ∷ [])) [ none ↦ none | some h ↦ target h hs ]
    else target host hs

-- The loop over the headers of a redirect keeps each, and leaves the content and the new host.
read_headers-target :
    (f : ℕ) (hs : List (Text × Text)) (content host host' : Text) (r : Response)
    → length (lines_text hs ++ (b'\r' ∷ b'\n' ∷ content)) < f
    → target host hs ≡ some host'
    → All IsLine hs
    → read_headers f 302 (lines_text hs ++ (b'\r' ∷ b'\n' ∷ content)) (host, r)
      ≡ heading content (host', record r { headers = r.headers ++ passed hs })
unfolding read_headers get_line equal add_header
read_headers-target zero hs content host host' r l k v = absurd (omega arith)
read_headers-target (suc f) [] content host host' r l k v =
    ap (λ h. heading content (h, r)) (some_inj k)
    ∙ ap (λ x. heading content (host', record r { headers = x })) (sym (append-nil r.headers))
  where
    some_inj : {a b : Text} → some a ≡ some b → a ≡ b
    some_inj e = cc
read_headers-target (suc f) ((name, value) ∷ hs) content host host' r l k v =
    let rest = lines_text hs ++ (b'\r' ∷ b'\n' ∷ content) in
    let text = line_text (name, value) in
    let next : (h : Text)
        → target h hs ≡ some host'
        → Path Heading (read_headers f 302 rest (h, add_header name (value ++ b'\r' ∷ []) r)) (
            heading content
              (host', record r { headers = r.headers ++ passed ((name, value) ∷ hs) })) =
      λ h k'.
        read_headers-target f hs content h host' (add_header name (value ++ b'\r' ∷ []) r)
          (shorter_lines f text hs (b'\r' ∷ b'\n' ∷ content) l) k' v.1
        ∙ ap (λ x. heading content (host', record r { headers = x }))
            (append_assoc r.headers ((name, value ++ b'\r' ∷ []) ∷ []) (passed hs)) in
    let more = λ (t : Text) (s : Text × Response). read_headers f 302 t s in
    ap (λ t. read_headers (suc f) 302 t (host, r))
      (append_assoc text (b'\n' ∷ lines_text hs) (b'\r' ∷ b'\n' ∷ content))
    ∙ read_headers-step f 302 name value (b'\n' ∷ rest) (host, r)
    ∙ ap (λ g. read_line more 302 g (host, r)) (get_line-line name value rest v.0)
    ∙ read_line-taken more 302 name value rest (host, r) v.0
    ∙ elim (Bool-cases (equal name (codes "Location"))) [
      | inr other ↦ rw other (next host (rw other at k))
      | inl same ↦ elim (Option-cases (location (value ++ b'\r' ∷ []))) [
        | inl off ↦ let no = rw (same, off) at k in cc
        | inr (h, at) ↦ rw (same, at) (next h (rw (same, at) at k))
      ]
    ]

-- a whole answer that redirects from one host to another
pub record IsRedirect (talk : Conversation) (host host' : Text) : Type 0 where
  pub version : Text
  pub rest : Text
  pub more : Text
  pub content : Text
  pub headers : List (Text × Text)
  pub line : status_of talk.line ≡ some (version, 302, some rest)
  pub http : equal (take 5 version) (codes "HTTP/") ≡ true
  pub rest_read : second_read (some rest) talk.more ≡ some more
  pub text : rest ++ more ≡ lines_text headers ++ (b'\r' ∷ b'\n' ∷ content)
  pub lines : All IsLine headers
  pub leads : target host headers ≡ some host'
  pub whole : talk.at_eof ≡ true

-- what the response has after the answer
abbrev pub followed :
    {talk : Conversation} {host host' : Text} → IsRedirect talk host host' → Response → Response
followed {talk = talk} d r =
    let r' = coded 302 r in
    record r' {
      headers = r'.headers ++ passed d.headers;
      body = content_of r'.body d.content talk.tail;
    }

pub headers_in-target :
    (hs : List (Text × Text)) (rest more content host host' : Text) (r : Response)
    → rest ++ more ≡ lines_text hs ++ (b'\r' ∷ b'\n' ∷ content)
    → target host hs ≡ some host'
    → All IsLine hs
    → headers_in 302 (host, r) (some rest) more
      ≡ heading content (host', record r { headers = r.headers ++ passed hs })
headers_in-target hs rest more content host host' r e k h =
    ap (λ t. read_headers (suc (length t)) 302 t (host, r)) e
    ∙ read_headers-target _ hs content host host' r (omega arith) k h

pub read_content-again :
    (talk : Conversation) (content host host' : Text) (r : Response)
    → talk.at_eof ≡ true
    → read_content 302 talk (heading content (host', r)) host
      ≡ again host' (record r { body = content_of r.body content talk.tail })
read_content-again talk content host host' r t =
    rw t (ap (again host') (set_body_if_lem content talk.tail r))
