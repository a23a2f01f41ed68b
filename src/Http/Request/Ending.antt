-- ===== src/Http/Request/Ending.antt =====
-- Where a request ends: the empty line behind the headers, and the body.
use spaceteam.Common.{
  ℕ, Text, codes, [], ◌∷◌, ◌++◌, append-nil, append_assoc, Option, ◌==◌, ==_iff, ◌||◌, true,
  Bool-cases, inl, inr, ◌⊎◌, ◌≡◌, refl, ap, sym, ◌∙◌, subst, arith,
}
use spaceteam.Http.Request.Invariants.{parse-good_iff, parse-raw_request}
use spaceteam.Http.Request.{consume_in, consume, proceed, parse_loop, parse}
use spaceteam.Http.Fields.{
  Request, State, Step, good, bad, indeterminate, http_version_minor, expecting_newline_1,
  header_line_start, header_lws, header_value, expecting_newline_2, expecting_newline_3, body_state,
  new_request,
}
use spaceteam.Status.{ServerStatus}

-- what stands at the end of the bytes that were read, in each state, and behind it the body
abbrev EndsBy : Text → Text → Type 0
EndsBy end raw = (head : Text) × (raw ≡ head ++ end)

abbrev EndsIn : State → Text → Text → Type 0
EndsIn expecting_newline_1 raw body = EndsBy (codes "\r") raw × (body ≡ [])
EndsIn expecting_newline_2 raw body = EndsBy (codes "\r") raw × (body ≡ [])
EndsIn header_line_start raw body = EndsBy (codes "\r\n") raw × (body ≡ [])
EndsIn expecting_newline_3 raw body = EndsBy (codes "\r\n\r") raw × (body ≡ [])
EndsIn body_state raw body = EndsBy (codes "\r\n\r\n" ++ body) raw
EndsIn _ raw body = body ≡ []

abbrev StepEnds : Step → Type 0
StepEnds (r, bad) = Unit
StepEnds (r, _) = EndsIn r.state r.raw_request r.body

-- one more byte
module _ (raw all : Text) (c : ℕ) (at : all ≡ raw ++ c ∷ []) where
  EndsBy-byte : (d : ℕ) → (c == d) ≡ true → EndsBy (d ∷ []) all
  EndsBy-byte d e = (raw, at ∙ ap (λ b. raw ++ b ∷ []) ((==_iff c d).0 e))

  EndsBy-next : (end : Text) (d : ℕ) → (c == d) ≡ true → EndsBy end raw → EndsBy (end ++ d ∷ []) all
  EndsBy-next end d e (head, h) = (
    head,
    at
        ∙ ap (λ b. raw ++ b ∷ []) ((==_iff c d).0 e)
        ∙ ap (λ t. t ++ d ∷ []) h
        ∙ append_assoc head end (d ∷ []),
  )

consume_in-StepEnds :
    (s : State) (r : Request) (raw : Text) (c : ℕ)
    → r.state ≡ s
    → r.raw_request ≡ raw ++ c ∷ []
    → EndsIn s raw r.body
    → StepEnds (consume_in s r c)
unfolding consume_in
consume_in-StepEnds http_version_minor r raw c e at h = elim (Bool-cases (c == b'\r')) [
  | inl p ↦ rw p (EndsBy-byte raw r.raw_request c at b'\r' p, h)
  | inr p ↦ rw p (ground arith)
]
consume_in-StepEnds header_lws r raw c e at h = elim (Bool-cases (c == b'\r')) [
  | inl p ↦ rw p (EndsBy-byte raw r.raw_request c at b'\r' p, h)
  | inr p ↦ elim (Bool-cases (c == b' ' || c == b'\t')) [
    | inl q ↦ rw (p, q) (subst (λ s. EndsIn s r.raw_request r.body) (sym e) h)
    | inr q ↦ rw (p, q) (ground arith)
  ]
]
consume_in-StepEnds header_value r raw c e at h = elim (Bool-cases (c == b'\r')) [
  | inl p ↦ rw p (EndsBy-byte raw r.raw_request c at b'\r' p, h)
  | inr p ↦ rw p (ground arith)
]
consume_in-StepEnds expecting_newline_1 r raw c e at (h, b) = elim (Bool-cases (c == b'\n')) [
  | inl p ↦ rw p (EndsBy-next raw r.raw_request c at (codes "\r") b'\n' p h, b)
  | inr p ↦ rw p tt
]
consume_in-StepEnds expecting_newline_2 r raw c e at (h, b) = elim (Bool-cases (c == b'\n')) [
  | inl p ↦ rw p (EndsBy-next raw r.raw_request c at (codes "\r") b'\n' p h, b)
  | inr p ↦ rw p tt
]
consume_in-StepEnds expecting_newline_3 r raw c e at (h, b) = elim (Bool-cases (c == b'\n')) [
  | inl p ↦ rw (p, b) (EndsBy-next raw r.raw_request c at (codes "\r\n\r") b'\n' p h)
  | inr p ↦ rw p tt
]
consume_in-StepEnds header_line_start r raw c e at (h, b) = elim (Bool-cases (c == b'\r')) [
  | inl p ↦ rw p (EndsBy-next raw r.raw_request c at (codes "\r\n") b'\r' p h, b)
  | inr p ↦ rw p (ground arith)
]
consume_in-StepEnds body_state r raw c e at (head, h) =
    subst (λ s. EndsIn s r.raw_request (r.body ++ c ∷ [])) (sym e)
      (head, at ∙ ap (λ t. t ++ c ∷ []) h ∙ append_assoc head (codes "\r\n\r\n" ++ r.body) (c ∷ []))
consume_in-StepEnds _ r raw c e at h = ground arith

abbrev EndsOf : Request → Type 0
EndsOf r = (r.parsed_status ≡ bad) ⊎ EndsIn r.state r.raw_request r.body

proceed-EndsOf :
    (again : Request → Request) (st : Step)
    → StepEnds st
    → ((r : Request) → EndsIn r.state r.raw_request r.body → EndsOf (again r))
    → EndsOf (proceed again st)
proceed-EndsOf again (r, bad) p k = inl refl
proceed-EndsOf again (r, good) p k = k _ p
proceed-EndsOf again (r, indeterminate) p k = k _ p

parse_loop-EndsOf :
    (cs : Text) (r : Request) → EndsIn r.state r.raw_request r.body → EndsOf (parse_loop r cs)
unfolding parse_loop
parse_loop-EndsOf [] r h = inr h
parse_loop-EndsOf (c ∷ cs) r h =
    proceed-EndsOf (λ r'. parse_loop r' cs) (consume r c)
      (consume_in-StepEnds r.state (record r { raw_request = r.raw_request ++ c ∷ [] })
        r.raw_request c refl refl h)
      (parse_loop-EndsOf cs)

-- If a request that was parsed from one byte or more is good, then the parser is in the state of the
-- body, and the input is a text, behind it a line end and an empty line, and behind these the body of
-- the request.
pub parse-good :
    (c : ℕ) (cs : Text) (status : Option ServerStatus)
    → (parse (c ∷ cs) status).parsed_status ≡ good
    → ((parse (c ∷ cs) status).state ≡ body_state)
      × (head : Text) × (c ∷ cs ≡ head ++ (codes "\r\n\r\n" ++ (parse (c ∷ cs) status).body))
unfolding parse
parse-good c cs status ok =
    let r = parse_loop new_request (c ∷ cs) in
    let in_body = (parse-good_iff c cs status).0 ok in
    let (rest, same, all) = parse-raw_request (c ∷ cs) status in
    elim (parse_loop-EndsOf (c ∷ cs) new_request refl) [
      | inl off ↦ let no = sym ok ∙ off in cc
      | inr h ↦
          let (head, ends) = subst (λ s. EndsIn s r.raw_request r.body) in_body h in
          (
            in_body,
            head,
            elim all [
              | inl off ↦ let no = sym ok ∙ off in cc
              | inr none_left ↦
                  same ∙ ap (◌++◌ r.raw_request) none_left ∙ append-nil r.raw_request ∙ ends
            ],
          )
    ]
