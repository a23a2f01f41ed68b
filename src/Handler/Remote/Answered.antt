-- ===== src/Handler/Remote/Answered.antt =====
-- Whole answers of a host, and the redirects among them.
use spaceteam.Common.{
  ℕ, ◌+◌, ◌-◌, Option, none, Text, codes, true, false, [], ◌∷◌, ◌++◌, append_assoc, List, some,
  equal, length, length-append, take-append, drop, drop-append, ltb, ◌==◌, All, ◌≡◌, refl, ap, sym,
  ◌∙◌, arith,
}
use spaceteam.Connection.Referred.{index_of-first}
use spaceteam.Connection.{index_of}
use spaceteam.Handler.Remote.Lines.{IsLine, lines_text}
use spaceteam.Handler.Remote.Own.{status_of-status_line}
use spaceteam.Handler.Remote.Targets.{IsRedirect, target}
use spaceteam.Handler.Remote.{second_read}
use spaceteam.Handler.Streams.{
  Conversation, location, behind_scheme, substr, without_end, status_of,
}
use spaceteam.Http.Response.{ResponseCode, redirect, status_line}

-- an answer of a host that has a status line of this program, header lines, an empty line and a
-- content, and then ends: the first bytes that are read are those up to `rest`, and the bytes up to
-- the headers' end are read
pub record IsAnswer (talk : Conversation) (code : ResponseCode) (headers : List (Text × Text))
    (content : Text) : Type 0 where
  pub rest : Text
  pub more : Text
  pub line : talk.line ≡ status_line code ++ (b'\r' ∷ b'\n' ∷ rest)
  pub rest_read : second_read (some rest) talk.more ≡ some more
  pub text : rest ++ more ≡ lines_text headers ++ (b'\r' ∷ b'\n' ∷ content)
  pub lines : All IsLine headers
  pub whole : talk.at_eof ≡ true

without_end_lem : (host : Text) (a b : ℕ) → without_end (host ++ a ∷ b ∷ []) ≡ host
without_end_lem host a b =
    let n = length-append host (a ∷ b ∷ []) in
    let long : ltb (length (host ++ a ∷ b ∷ [])) 2 ≡ false = ground (arith, n) in
    let cut : length (host ++ a ∷ b ∷ []) - 2 ≡ length host = omega (arith, n) in
    rw (long, cut) (take-append host (a ∷ b ∷ []))

behind_scheme_lem :
    (scheme text : Text) → drop (length scheme + 3) (scheme ++ (codes "://" ++ text)) ≡ text
behind_scheme_lem scheme text =
    let three : length (scheme ++ codes "://") ≡ length scheme + 3 =
      length-append scheme (codes "://") in
    ap (λ n. drop n (scheme ++ (codes "://" ++ text))) (sym three)
    ∙ ap (drop (length (scheme ++ codes "://"))) (sym (append_assoc scheme (codes "://") text))
    ∙ drop-append (scheme ++ codes "://") text

location-cut :
    (value host : Text) (o : Option ℕ)
    → index_of b':' value ≡ o
    → behind_scheme value o ≡ some host
    → location value ≡ some (without_end host)
location-cut value host o e f =
    ap (λ (h : Option Text). elim h [ none ↦ none | some h' ↦ some (without_end h') ])
      (ap (behind_scheme value) e ∙ f)

substr_within :
    (n : ℕ) (text : Text) → ltb (length text) n ≡ false → substr n text ≡ some (drop n text)
substr_within n text h = rw h refl

-- The host of a `Location` is what stands between the scheme and its last byte.
pub location_lem :
    (scheme host : Text) (c : ℕ)
    → All (λ b. (b == b':') ≡ false) scheme
    → location ((scheme ++ (codes "://" ++ (host ++ c ∷ []))) ++ b'\r' ∷ []) ≡ some host
location_lem scheme host c h =
    let value = scheme ++ (codes "://" ++ (host ++ c ∷ b'\r' ∷ [])) in
    let same : (scheme ++ (codes "://" ++ (host ++ c ∷ []))) ++ b'\r' ∷ [] ≡ value =
      simp append_assoc in
    let long : ltb (length value) (length scheme + 3) ≡ false =
      ground (arith, length-append scheme (codes "://" ++ (host ++ c ∷ b'\r' ∷ []))) in
    ap location same
    ∙ location-cut value (host ++ c ∷ b'\r' ∷ []) (some (length scheme))
        (index_of-first b':' scheme (b'/' ∷ b'/' ∷ (host ++ c ∷ b'\r' ∷ [])) h refl)
        (substr_within (length scheme + 3) value long
          ∙ ap some (behind_scheme_lem scheme (host ++ c ∷ b'\r' ∷ [])))
    ∙ ap some (without_end_lem host c b'\r')

abbrev IsOther : Text × Text → Type 0
IsOther h = equal h.0 (codes "Location") ≡ false

target-others :
    (host : Text) (hs : List (Text × Text)) → All IsOther hs → target host hs ≡ some host
target-others host [] h = refl
target-others host ((name, value) ∷ hs) h = rw h.0 (target-others host hs h.1)

pub target-location :
    (host host' value : Text) (before after : List (Text × Text))
    → All IsOther before
    → All IsOther after
    → location (value ++ b'\r' ∷ []) ≡ some host'
    → target host (before ++ (codes "Location", value) ∷ after) ≡ some host'
unfolding equal
target-location host host' value [] after h k at = rw at (target-others host' after k)
target-location host host' value ((name, v) ∷ before) after h k at =
    rw h.0 (target-location host host' value before after h.1 k at)

-- An answer with a `Location` is a redirect to its host.
unfoldable pub redirecting :
    (talk : Conversation) (before after : List (Text × Text)) (content scheme host host' : Text)
    (c : ℕ)
    → IsAnswer talk redirect
        (before ++ (codes "Location", scheme ++ (codes "://" ++ (host' ++ c ∷ []))) ∷ after)
        content
    → All IsOther before
    → All IsOther after
    → All (λ b. (b == b':') ≡ false) scheme
    → IsRedirect talk host host'
unfolding equal
redirecting talk before after content scheme host host' c a h k plain = record {
  version = codes "HTTP/1.1";
  rest = a.rest;
  more = a.more;
  content = content;
  headers = before ++ (codes "Location", scheme ++ (codes "://" ++ (host' ++ c ∷ []))) ∷ after;
  line = ap status_of a.line ∙ status_of-status_line redirect a.rest;
  http = refl;
  rest_read = a.rest_read;
  text = a.text;
  lines = a.lines;
  leads =
      target-location host host' (scheme ++ (codes "://" ++ (host' ++ c ∷ []))) before after h k
        (location_lem scheme host' c plain);
  whole = a.whole;
}
