-- ===== src/Connection/Messages.antt =====
-- A well-formed request without a `Referer`, from its bytes to the handler of its path.
use spaceteam.Common.{
  Text, codes, false, [], ◌∷◌, some, none, equal, Map, find, text_order, All, ◌≡◌, refl, ap, ◌∙◌,
}
use spaceteam.Connection.Choice.{IsBest, find_handler_best, find_handler-unmatched}
use spaceteam.Connection.Paths.{IsPathPrefix}
use spaceteam.Connection.Reads.{handle_bytes}
use spaceteam.Connection.{
  Handling, counted, answer, answer_read, finish, fall_back, dispatch, route, handle_read,
  referred_prefix, find_handler,
}
use spaceteam.Http.Fields.{Request, Headers}
use spaceteam.Http.Request.Message.{Message, IsValid, request_text, read_back}
use spaceteam.Http.Request.RoundTrip.{parse-request_text}
use spaceteam.Http.Response.{Response, ResponseCode, empty_response}
use spaceteam.Status.{ServerStatus}

abbrev pub NoReferer : Headers → Type 0
NoReferer = All (λ h. equal h.0 (codes "Referer") ≡ false)

pub referred_prefix-NoReferer :
    (hs : Headers) (uri : Text) → NoReferer hs → referred_prefix hs uri ≡ some uri
unfolding referred_prefix
referred_prefix-NoReferer [] uri h = refl
referred_prefix-NoReferer ((name, value) ∷ hs) uri h = rw h.0 (referred_prefix-NoReferer hs uri h.1)

module _ {ℓ} {H : Type ℓ} (handle_request : H → Request → Response → Handling H)
    (indeterminate : ResponseCode) (m : Message) (status : ServerStatus)
    (handlers : Map Text H) where
  abbrev request : Request
  request = read_back m (some status)

  answer_read-message :
      IsValid m
      → NoReferer m.headers
      → answer_read handle_request indeterminate (request_text m) status handlers
        ≡ dispatch handle_request indeterminate request handlers
            (find_handler handlers (b'/' ∷ m.path))
  unfolding answer_read
  answer_read-message valid h =
      ap (λ r. route handle_request indeterminate r handlers (referred_prefix r.headers r.uri))
        (parse-request_text m (some status) valid)
      ∙ ap (route handle_request indeterminate request handlers)
          (referred_prefix-NoReferer m.headers (b'/' ∷ m.path) h)

  -- the handler of the best prefix answers
  pub answer_read_best :
      (q : Text) (h : H)
      → IsValid m
      → NoReferer m.headers
      → IsBest handlers (b'/' ∷ m.path) q h
      → answer_read handle_request indeterminate (request_text m) status handlers
        ≡ answer handle_request indeterminate
            (b'/' ∷ m.path)
            handlers
            q
            (handle_request h request empty_response)
  answer_read_best q h valid none_refers best =
      answer_read-message valid none_refers
      ∙ ap (dispatch handle_request indeterminate request handlers)
          (find_handler_best handlers m.path q h best)

  pub handle_bytes_best :
      (q : Text) (h : H)
      → IsValid m
      → NoReferer m.headers
      → IsBest handlers (b'/' ∷ m.path) q h
      → handle_bytes handle_request indeterminate (request_text m) status handlers
        ≡ finish handle_request indeterminate
            (b'/' ∷ m.path)
            status
            handlers
            q
            (handle_request h request empty_response)
  unfolding handle_read
  handle_bytes_best q h valid none_refers best =
      ap (counted status) (answer_read_best q h valid none_refers best)

  -- the default handler answers
  pub handle_bytes_default :
      (h : H)
      → IsValid m
      → NoReferer m.headers
      → ((p : Text) → IsPathPrefix p (b'/' ∷ m.path) → find p handlers ≡ none)
      → find (codes "default") handlers ≡ some h
      → handle_bytes handle_request indeterminate (request_text m) status handlers
        ≡ finish handle_request indeterminate
            (b'/' ∷ m.path)
            status
            handlers
            (codes "default")
            (handle_request h request empty_response)
  unfolding handle_read
  handle_bytes_default h valid none_refers off at = ap (counted status) (
      answer_read-message valid none_refers
      ∙ ap (dispatch handle_request indeterminate request handlers)
          (find_handler-unmatched handlers m.path off)
      ∙ ap (fall_back handle_request indeterminate request handlers) at)
