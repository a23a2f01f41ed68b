-- ===== src/Connection/Reads.antt =====
-- What `handle_read` does with a request.
use spaceteam.Common.{
  Text, codes, false, [], ◌∷◌, none, some, equal, drop, Map, text_order, ◌++◌, Bool-cases,
  Option-cases, inl, inr, ◌≡◌, refl, ap, ◌∙◌,
}
use spaceteam.Http.Fields.{Request, Headers}
use spaceteam.Http.Request.RoundTrip.{parse-request_text}
use spaceteam.Http.Request.Message.{Message, IsValid, request_text, read_back}
use spaceteam.Http.Response.{Response, ResponseCode}
use spaceteam.Status.{ServerStatus}
use spaceteam.Connection.{
  Handling, Reading, counted, answer_read, route, handle_read, referred_prefix, index_from,
}

referred_prefix-none :
    (before after : Headers) (value uri : Text)
    → index_from b'/' 8 value ≡ none
    → referred_prefix (before ++ (codes "Referer", value) ∷ after) uri ≡ none
unfolding referred_prefix equal
referred_prefix-none [] after value uri h = rw h refl
referred_prefix-none ((name, v) ∷ before) after value uri h =
    elim (Bool-cases (equal name (codes "Referer"))) [
      | inr e ↦ rw e (referred_prefix-none before after value uri h)
      | inl e ↦ elim (Option-cases (index_from b'/' 8 v)) [
        | inl n ↦ rw (e, n) refl
        | inr (i, at) ↦ rw (e, at) (referred_prefix-none before after value (drop i v) h)
      ]
    ]

module _ {ℓ} {H : Type ℓ} (handle_request : H → Request → Response → Handling H) where
  abbrev pub handle_bytes : ResponseCode → Text → ServerStatus → Map Text H → Reading H
  handle_bytes indeterminate bytes status handlers =
      handle_read handle_request indeterminate false bytes status handlers

  -- A well-formed request that has, anywhere among its headers, a `Referer` without a slash at or
  -- behind position 8 ends in an exception, whatever the handlers are.
  pub handle_read-referer :
      (indeterminate : ResponseCode) (m : Message) (status : ServerStatus) (handlers : Map Text H)
      (before after : Headers) (value : Text)
      → IsValid m
      → m.headers ≡ before ++ (codes "Referer", value) ∷ after
      → index_from b'/' 8 value ≡ none
      → handle_bytes indeterminate (request_text m) status handlers ≡ Reading.threw
  unfolding handle_read answer_read
  handle_read-referer indeterminate m status handlers before after value valid e n =
      ap
        (λ r.
          counted status
            (route handle_request indeterminate r handlers (referred_prefix r.headers r.uri)))
        (parse-request_text m (some status) valid)
      ∙ ap
          (λ hs. counted status (
            route handle_request indeterminate (read_back m (some status)) handlers
              (referred_prefix hs (read_back m (some status)).uri)))
          e
      ∙ ap
          (λ o.
            counted status
              (route handle_request indeterminate (read_back m (some status)) handlers o))
          (referred_prefix-none before after value (read_back m (some status)).uri n)
