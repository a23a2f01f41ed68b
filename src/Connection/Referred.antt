-- ===== src/Connection/Referred.antt =====
-- A well-formed request with one `Referer`, from its bytes to the handler of the page that it names.
use spaceteam.Common.{
  ℕ, zero, suc, ◌+◌, ◌≤◌, ◌==◌, Text, codes, true, false, [], ◌∷◌, ◌++◌, Option, none, some, equal,
  length, drop, drop-append, Map, text_order, All, ◌≡◌, refl, ap, ◌∙◌, arith,
}
use spaceteam.Connection.Choice.{IsBest, find_handler_best}
use spaceteam.Connection.Messages.{NoReferer, referred_prefix-NoReferer}
use spaceteam.Connection.Reads.{handle_bytes}
use spaceteam.Connection.{
  Handling, counted, answer_read, finish, dispatch, route, handle_read, referred_prefix, index_of,
  index_from,
}
use spaceteam.Http.Fields.{Request, Headers}
use spaceteam.Http.Request.Message.{Message, IsValid, request_text, read_back}
use spaceteam.Http.Request.RoundTrip.{parse-request_text}
use spaceteam.Http.Response.{Response, ResponseCode, empty_response}
use spaceteam.Status.{ServerStatus}

-- The first place of a byte that does not occur before.
pub index_of-first :
    (c : ℕ) (before rest : Text)
    → All (λ b. (b == c) ≡ false) before
    → (c == c) ≡ true
    → index_of c (before ++ c ∷ rest) ≡ some (length before)
unfolding index_of
index_of-first c [] rest h e = rw e refl
index_of-first c (b ∷ before) rest h e = rw (h.0, index_of-first c before rest h.1 e) refl

drop-append-le : (n : ℕ) (xs ys : Text) → n ≤ length xs → drop n (xs ++ ys) ≡ drop n xs ++ ys
drop-append-le zero xs ys h = refl
drop-append-le (suc n) [] ys h = absurd (omega arith)
drop-append-le (suc n) (x ∷ xs) ys h = drop-append-le n xs ys (omega arith)

length-drop : (n : ℕ) (xs : Text) → n ≤ length xs → length (drop n xs) + n ≡ length xs
length-drop zero xs h = omega arith
length-drop (suc n) [] h = absurd (omega arith)
length-drop (suc n) (x ∷ xs) h = omega (arith, length-drop n xs (omega arith))

-- an origin of 8 bytes or more, with no slash behind the first 8: "http://" and a host
abbrev pub IsOrigin : Text → Type 0
IsOrigin origin = (8 ≤ length origin) × All (λ b. (b == b'/') ≡ false) (drop 8 origin)

index_from-origin :
    (origin u : Text)
    → IsOrigin origin
    → index_from b'/' 8 (origin ++ b'/' ∷ u) ≡ some (length origin)
index_from-origin origin u (long, plain) =
    ap (λ (o : Option ℕ). elim o [ none ↦ none | some i ↦ some (i + 8) ])
      (ap (index_of b'/') (drop-append-le 8 origin (b'/' ∷ u) long)
        ∙ index_of-first b'/' (drop 8 origin) u plain refl)
    ∙ ap some (length-drop 8 origin long)

referred_prefix-origin :
    (before after : Headers) (origin u uri : Text)
    → NoReferer before
    → NoReferer after
    → IsOrigin origin
    → referred_prefix (before ++ (codes "Referer", origin ++ b'/' ∷ u) ∷ after) uri
      ≡ some (b'/' ∷ u)
unfolding referred_prefix equal
referred_prefix-origin [] after origin u uri h k o =
    rw (index_from-origin origin u o, drop-append origin (b'/' ∷ u))
      (referred_prefix-NoReferer after (b'/' ∷ u) k)
referred_prefix-origin ((name, value) ∷ before) after origin u uri h k o =
    rw h.0 (referred_prefix-origin before after origin u uri h.1 k o)

module _ {ℓ} {H : Type ℓ} (handle_request : H → Request → Response → Handling H)
    (indeterminate : ResponseCode) (m : Message) (status : ServerStatus)
    (handlers : Map Text H) where
  -- The handler of the best prefix of the page's path answers, and the request's own URI is counted.
  pub handle_bytes_referred :
      (before after : Headers) (origin u q : Text) (h : H)
      → IsValid m
      → m.headers ≡ before ++ (codes "Referer", origin ++ b'/' ∷ u) ∷ after
      → NoReferer before
      → NoReferer after
      → IsOrigin origin
      → IsBest handlers (b'/' ∷ u) q h
      → handle_bytes handle_request indeterminate (request_text m) status handlers
        ≡ finish handle_request indeterminate
            (b'/' ∷ m.path)
            status
            handlers
            q
            (handle_request h (read_back m (some status)) empty_response)
  unfolding handle_read answer_read
  handle_bytes_referred before after origin u q h valid e none_before none_after o best =
      let request = read_back m (some status) in
      let go = λ (p : Option Text).
        counted status (route handle_request indeterminate request handlers p) in
      ap
        (λ r.
          counted status
            (route handle_request indeterminate r handlers (referred_prefix r.headers r.uri)))
        (parse-request_text m (some status) valid)
      ∙ ap (λ hs. go (referred_prefix hs (b'/' ∷ m.path))) e
      ∙ ap go
          (referred_prefix-origin before after origin u (b'/' ∷ m.path) none_before none_after o)
      ∙ ap (λ s. counted status (dispatch handle_request indeterminate request handlers s))
          (find_handler_best handlers u q h best)
