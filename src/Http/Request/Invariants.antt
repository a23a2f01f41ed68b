-- ===== src/Http/Request/Invariants.antt =====
-- What holds of every request object, whatever bytes it was given.
use spaceteam.Common.{
  ℕ, Text, [], ◌∷◌, ◌++◌, append-nil, append_assoc, ◌≡◌, ◌≢◌, ◌↔◌, ◌⊎◌, inl, inr, refl, arith,
  Option,
}
use spaceteam.Http.Request.{consume_in, consume, proceed, parse_loop, parse}
use spaceteam.Http.Fields.{
  Request, State, Step, Headers, good, bad, indeterminate, method_start, method_inside,
  handler_path_start, handler_path, uri_inside, header_line_start, header_lws, header_name,
  space_before_header_value, header_value, expecting_newline_2, body_state, new_request,
  update_back, push_name, push_value,
}
use spaceteam.Status.{ServerStatus}

abbrev PathInv : State → Text → Text → Text → Type 0
PathInv method_start uri before from = (uri ≡ []) × (before ≡ []) × (from ≡ [])
PathInv method_inside uri before from = (uri ≡ []) × (before ≡ []) × (from ≡ [])
PathInv handler_path_start uri before from = (uri ≡ []) × (before ≡ []) × (from ≡ [])
PathInv handler_path uri before from = (uri ≡ before) × (from ≡ [])
PathInv _ uri before from = uri ≡ before ++ from

-- where the parser changes the last header, there is one
abbrev pub HeaderInv : State → Headers → Type 0
HeaderInv header_lws hs = hs ≢ []
HeaderInv header_name hs = hs ≢ []
HeaderInv space_before_header_value hs = hs ≢ []
HeaderInv header_value hs = hs ≢ []
HeaderInv expecting_newline_2 hs = hs ≢ []
HeaderInv _ hs = Unit

abbrev Inv : State → Request → Type 0
Inv s r = PathInv s r.uri r.handler_path r.file_path × HeaderInv s r.headers

abbrev After : Step → Type 0
After (r, result) = Inv r.state r

concat-ne_nil : (hs : Headers) (h : Text × Text) → update_back (push_name 0) (hs ++ h ∷ []) ≢ []
concat-ne_nil [] h = cc
concat-ne_nil (k ∷ []) h = cc
concat-ne_nil (k ∷ l ∷ hs) h = cc

update_back-ne_nil :
    (f : Text × Text → Text × Text) (hs : Headers) → hs ≢ [] → update_back f hs ≢ []
update_back-ne_nil f [] h = absurd (h refl)
update_back-ne_nil f (k ∷ []) h = cc
update_back-ne_nil f (k ∷ l ∷ hs) h = cc

concat-ne : (hs : Headers) (h : Text × Text) → (hs ++ h ∷ []) ≢ []
concat-ne [] h = cc
concat-ne (k ∷ hs) h = cc

consume_in-After :
    (s : State) (r : Request) (c : ℕ) → r.state ≡ s → Inv s r → After (consume_in s r c)
unfolding consume_in
consume_in-After header_line_start r c e (p, h) = ground (
  arith,
  update_back-ne_nil (push_name c) (r.headers ++ ([], []) ∷ []) (concat-ne r.headers ([], [])),
)
consume_in-After header_lws r c e (p, h) =
    ground (arith, update_back-ne_nil (push_value c) r.headers h)
consume_in-After header_name r c e (p, h) =
    ground (arith, update_back-ne_nil (push_name c) r.headers h)
consume_in-After header_value r c e (p, h) =
    ground (arith, update_back-ne_nil (push_value c) r.headers h)
consume_in-After uri_inside r c e (p, h) =
    ground (arith, append_assoc r.handler_path r.file_path (c ∷ []))
consume_in-After handler_path r c e (p, h) =
    ground (arith, append-nil r.handler_path, append-nil (r.handler_path ++ c ∷ []))
consume_in-After _ r c e i = ground arith

proceed-keeps :
    (P : Request → Type 0) (again : Request → Request) (st : Step)
    → P (record st.0 { parsed_status = st.1 })
    → ((r : Request) → P r → P (again r))
    → P (proceed again st)
proceed-keeps P again (r, bad) p k = p
proceed-keeps P again (r, good) p k = k _ p
proceed-keeps P again (r, indeterminate) p k = k _ p

-- A property of the state that each byte keeps holds at the end of the loop.
parse_loop-keeps :
    (P : Request → Type 0)
    → ((r : Request) (c : ℕ) → P r → P (record (consume r c).0 { parsed_status = (consume r c).1 }))
    → (cs : Text) (r : Request) → P r
    → P (parse_loop r cs)
unfolding parse_loop
parse_loop-keeps P keep [] r h = h
parse_loop-keeps P keep (c ∷ cs) r h =
    proceed-keeps P (λ r'. parse_loop r' cs) (consume r c) (keep r c h) (parse_loop-keeps P keep cs)

parse_loop-Inv : (cs : Text) → Inv (parse_loop new_request cs).state (parse_loop new_request cs)
parse_loop-Inv cs =
    parse_loop-keeps (λ r. Inv r.state r)
      (λ r c h.
        consume_in-After r.state (record r { raw_request = r.raw_request ++ c ∷ [] }) c refl h)
      cs new_request ((refl, refl, refl), tt)

PathInv-split :
    (s : State) (uri before from : Text) → PathInv s uri before from → uri ≡ before ++ from
PathInv-split method_start uri before from h = ground (arith, append-nil before)
PathInv-split method_inside uri before from h = ground (arith, append-nil before)
PathInv-split handler_path_start uri before from h = ground (arith, append-nil before)
PathInv-split handler_path uri before from h = ground (arith, append-nil before)
PathInv-split _ uri before from h = h

-- Whatever is parsed, complete or not, the URI is the handler path followed by the file path.
pub parse-uri :
    (raw : Text) (status : Option ServerStatus)
    → (parse raw status).uri ≡ (parse raw status).handler_path ++ (parse raw status).file_path
unfolding parse
parse-uri raw status = PathInv-split _ _ _ _ (parse_loop-Inv raw).0

-- In each state in which the next byte may change the last header, there is a header.
pub parse-HeaderInv :
    (raw : Text) (status : Option ServerStatus)
    → HeaderInv (parse raw status).state (parse raw status).headers
unfolding parse
parse-HeaderInv raw status = (parse_loop-Inv raw).1

consume_in-raw_request :
    (s : State) (r : Request) (c : ℕ) → (consume_in s r c).0.raw_request ≡ r.raw_request
unfolding consume_in
consume_in-raw_request method_start r c = ground arith
consume_in-raw_request _ r c = ground arith

-- what the loop has read of its input, and when it has read all
abbrev ReadsOf : Text → Request → Type 0
ReadsOf input r =
    (rest : Text) × (input ≡ r.raw_request ++ rest) × ((r.parsed_status ≡ bad) ⊎ (rest ≡ []))

parse_loop-ReadsOf : (cs : Text) (r : Request) → ReadsOf (r.raw_request ++ cs) (parse_loop r cs)
unfolding parse_loop
parse_loop-ReadsOf [] r = ([], refl, inr refl)
parse_loop-ReadsOf (c ∷ cs) r =
    proceed-ReadsOf (consume r c)
      (consume_in-raw_request r.state (record r { raw_request = r.raw_request ++ c ∷ [] }) c)
      (λ r'. parse_loop-ReadsOf cs r')
  where
    proceed-ReadsOf :
        (st : Step)
        → st.0.raw_request ≡ r.raw_request ++ c ∷ []
        → ((r' : Request) → ReadsOf (r'.raw_request ++ cs) (parse_loop r' cs))
        → ReadsOf (r.raw_request ++ c ∷ cs) (proceed (λ r'. parse_loop r' cs) st)
    proceed-ReadsOf (r', bad) e k = (cs, rw e (rw append_assoc), inl refl)
    proceed-ReadsOf (r', good) e k =
        rw (← append_assoc r.raw_request (c ∷ []) cs, ← e) (k (record r' { parsed_status = good }))
    proceed-ReadsOf (r', indeterminate) e k =
        rw (← append_assoc r.raw_request (c ∷ []) cs, ← e)
          (k (record r' { parsed_status = indeterminate }))

-- The bytes that a request keeps are the beginning of its input, and all of it unless the status is
-- bad: the parser stops only at a byte that it refuses.
pub parse-raw_request :
    (raw : Text) (status : Option ServerStatus)
    → (rest : Text) × (raw ≡ (parse raw status).raw_request ++ rest)
      × (((parse raw status).parsed_status ≡ bad) ⊎ (rest ≡ []))
unfolding parse
parse-raw_request raw status = parse_loop-ReadsOf raw new_request

-- the status says whether the headers have ended
abbrev StatusInv : Request → Type 0
StatusInv r = (r.parsed_status ≡ good) ↔ (r.state ≡ body_state)

abbrev StatusAfter : Step → Type 0
StatusAfter (r, result) = (result ≡ good) ↔ (r.state ≡ body_state)

consume_in-StatusAfter :
    (s : State) (r : Request) (c : ℕ) → r.state ≡ s → StatusAfter (consume_in s r c)
unfolding consume_in
consume_in-StatusAfter method_start r c e = ground arith
consume_in-StatusAfter _ r c e = ground arith

parse_loop-StatusInv : (c : ℕ) (cs : Text) → StatusInv (parse_loop new_request (c ∷ cs))
unfolding parse_loop
parse_loop-StatusInv c cs =
    proceed-keeps StatusInv (λ r. parse_loop r cs) (consume new_request c) (keep new_request c)
      (parse_loop-keeps StatusInv (λ r d _. keep r d) cs)
  where
    keep :
        (r : Request) (d : ℕ)
        → StatusInv (record (consume r d).0 { parsed_status = (consume r d).1 })
    keep r d =
        consume_in-StatusAfter r.state (record r { raw_request = r.raw_request ++ d ∷ [] }) d refl

-- After one byte or more, a request is good exactly when the parser is in the state of the body.
pub parse-good_iff :
    (c : ℕ) (cs : Text) (status : Option ServerStatus)
    → let r = parse (c ∷ cs) status in (r.parsed_status ≡ good) ↔ (r.state ≡ body_state)
unfolding parse
parse-good_iff c cs status = parse_loop-StatusInv c cs
