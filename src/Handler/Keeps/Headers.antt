-- ===== src/Handler/Keeps/Headers.antt =====
-- The loop of `ProxyHandler` over the headers of an answer.
use spaceteam.Common.{
  ℕ, zero, suc, ◌∷◌, [], Text, codes, ◌&&◌, Option, none, some, equal, ◌==◌, Bool-cases, inl, inr,
}
use spaceteam.Handler.Streams.{
  Heading, heading, take_header, follow, go_on, behind_header, read_line, read_headers, get_line,
  location,
}
use spaceteam.Http.Response.{Response, add_header}
use spaceteam.Handler.Keeps.{IsKept}

-- what is left of the headers of an answer
abbrev pub Heads : (Response → Type 0) → Heading → Type 0
Heads P (heading text (host, r)) = P r
Heads P _ = Unit

abbrev Taken : (Response → Type 0) → Option (Text × Response) → Type 0
Taken P none = Unit
Taken P (some (host, r)) = P r

module _ {P : Response → Type 0} (keep : IsKept P) where
  follow-Taken : (o : Option Text) (r : Response) → P r → Taken P (follow o r)
  follow-Taken none r p = tt
  follow-Taken (some host) r p = p

  take_header-Taken :
      (code : ℕ) (o : Option (Text × Text)) (host : Text) (r : Response)
      → P r
      → Taken P (take_header code o (host, r))
  unfolding add_header
  take_header-Taken code none host r p = tt
  take_header-Taken code (some (name, value)) host r p =
      elim (Bool-cases (code == 302 && equal name (codes "Location"))) [
        | inl e ↦ rw e (follow-Taken (location value) _ (keep.on_header name value r p))
        | inr e ↦ rw e (keep.on_header name value r p)
      ]

  go_on-Heads :
      (next : Text × Response → Heading) (o : Option (Text × Response))
      → ((host : Text) (r : Response) → P r → Heads P (next (host, r)))
      → Taken P o
      → Heads P (go_on next o)
  go_on-Heads next none keeps t = tt
  go_on-Heads next (some (host, r)) keeps t = keeps host r t

  behind_header-Heads :
      (next : Text → Text × Response → Heading) (rest : Option Text) (host : Text) (r : Response)
      → ((text host : Text) (r : Response) → P r → Heads P (next text (host, r)))
      → P r
      → Heads P (behind_header next rest (host, r))
  behind_header-Heads next none host r keeps p = p
  behind_header-Heads next (some text) host r keeps p = keeps text host r p

  read_line-Heads :
      (next : Text → Text × Response → Heading) (code : ℕ) (g : Text × Option Text) (host : Text)
      (r : Response)
      → ((text host : Text) (r : Response) → P r → Heads P (next text (host, r)))
      → P r
      → Heads P (read_line next code g (host, r))
  read_line-Heads next code (text, rest) host r keeps p =
      elim (Bool-cases (equal text (b'\r' ∷ []))) [
        | inl e ↦ rw e p
        | inr e ↦ rw e (
            go_on-Heads (behind_header next rest) (take_header code _ (host, r))
              (λ host r p. behind_header-Heads next rest host r keeps p)
              (take_header-Taken code _ host r p))
      ]

  pub read_headers-Heads :
      (f code : ℕ) (text host : Text) (r : Response)
      → P r
      → Heads P (read_headers f code text (host, r))
  unfolding read_headers
  read_headers-Heads zero code text host r p = tt
  read_headers-Heads (suc f) code [] host r p = p
  read_headers-Heads (suc f) code (c ∷ cs) host r p =
      read_line-Heads (λ t s. read_headers f code t s) code (get_line (c ∷ cs)) host r
        (λ t h r p. read_headers-Heads f code t h r p) p
