-- ===== src/Handler/Codes.antt =====
-- The code that is counted against the status line that is written.
use spaceteam.Common.{
  Text, [], ◌∷◌, ◌++◌, none, some, Map, text_order, ◌≡◌, ◌⊎◌, inl, inr, refl, ap,
}
use spaceteam.Connection.Calls.{answer_read_rule}
use spaceteam.Connection.{
  async_write, Handling, handled, Answer, answered, answer, answer_read, do_write,
}
use spaceteam.Handler.Base.{Handler}
use spaceteam.Handler.Dispatch.{Surroundings, handle_request}
use spaceteam.Handler.Keeps.{IsKept}
use spaceteam.Handler.Keeps.Rounds.{Answered, handle_request-Answered}
use spaceteam.Handler.Remote.Own.{to_string-lines}
use spaceteam.Http.Request.{parse}
use spaceteam.Http.Response.{
  Response, ResponseCode, empty_response, status_line, get_response_code, set_status, add_header,
  set_body,
}
use spaceteam.Status.{ServerStatus}

-- A response has the status line of its code, or neither a code nor a line.
abbrev IsCoded : Response → Type 0
IsCoded r =
    ((r.raw_status ≡ none) × (r.status ≡ []))
    ⊎ ((c : ResponseCode) × (r.raw_status ≡ some c) × (r.status ≡ status_line c))

IsCoded-IsKept : IsKept IsCoded
unfolding set_status add_header set_body
IsCoded-IsKept = record {
  on_status = λ c r p. inr (c, refl, refl);
  on_header = λ name value r p. p;
  on_body = λ text r p. p;
}

-- The text that is written for a request, against the code that is counted.
abbrev pub ShowsCode : {H : Type 0} → ResponseCode → Answer H → Type 0
ShowsCode indeterminate (answered ops uri code handlers) =
    (line : Text) × (rest : Text) × (ops ≡ async_write (line ++ (b'\r' ∷ b'\n' ∷ rest)) ∷ [])
    × ((line ≡ status_line code) ⊎ ((line ≡ []) × (code ≡ indeterminate)))
ShowsCode indeterminate _ = Unit

module _ (around : Surroundings) (indeterminate : ResponseCode) (handlers : Map Text Handler) where
  answer-ShowsCode :
      (uri key : Text) (result : Handling Handler)
      → Answered IsCoded result
      → ShowsCode indeterminate
          (answer (handle_request around) indeterminate uri handlers key result)
  unfolding do_write get_response_code
  answer-ShowsCode uri key (handled ended r h) (inr (c, code, line)) =
      (r.status, _, ap (λ t. async_write t ∷ []) (to_string-lines r), inl (rw code line))
  answer-ShowsCode uri key (handled ended r h) (inl (code, line)) =
      (r.status, _, ap (λ t. async_write t ∷ []) (to_string-lines r), inr (line, rw code refl))
  answer-ShowsCode uri key Handling.threw p = tt
  answer-ShowsCode uri key Handling.undefined p = tt
  answer-ShowsCode uri key Handling.diverged p = tt

  -- Whatever bytes are read and whatever the handlers are: if a request is answered, the text that is
  -- written begins with the status line of the code that is then counted, and a line end; or it begins
  -- with the line end, without a status line, and the code that is counted is the one that the memory
  -- of the response happened to hold.
  pub answer_read-ShowsCode :
      (bytes : Text) (s : ServerStatus)
      → ShowsCode indeterminate (answer_read (handle_request around) indeterminate bytes s handlers)
  answer_read-ShowsCode bytes s =
      let request = parse bytes (some s) in
      answer_read_rule (handle_request around) indeterminate bytes s handlers
        (ShowsCode indeterminate) (λ r. tt)
        (λ key h at. answer-ShowsCode request.uri key _ (
          handle_request-Answered IsCoded-IsKept around h request empty_response
            (inl (refl, refl))))
