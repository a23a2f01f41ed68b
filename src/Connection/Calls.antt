-- ===== src/Connection/Calls.antt =====
-- A rule for `handle_read`: what a read without an error leads to, by the exceptions of the read
-- itself and by the handlers that it can call.
use spaceteam.Common.{
  ℕ, zero, suc, Text, codes, [], ◌∷◌, Option, none, some, Map, find, text_order, Option-cases, inl,
  inr, ◌⊎◌, ◌≡◌, refl, arith,
}
use spaceteam.Connection.Choice.{search-ne-out_of_fuel}
use spaceteam.Connection.{
  Handling, Answer, answer, answer_read, Search, matched, unmatched, out_of_fuel, search,
  find_handler, shorten_uri_prefix, fall_back, dispatch, route, referred_prefix,
}
use spaceteam.Http.Fields.{Request}
use spaceteam.Http.Request.{parse}
use spaceteam.Http.Response.{Response, ResponseCode, empty_response}
use spaceteam.Status.{ServerStatus}

module _ {H : Type 0} where
  search-registered :
      (handlers : Map Text H) (f : ℕ) (p key : Text) (h : H)
      → search f handlers p ≡ matched key h
      → find key handlers ≡ some h
  unfolding search
  search-registered handlers zero p key h e = cc
  search-registered handlers (suc f) [] key h e = cc
  search-registered handlers (suc f) (c ∷ cs) key h e =
      elim (Option-cases (find (c ∷ cs) handlers)) [
        | inr (g, at) ↦ let m = rw at at e in cc
        | inl off ↦ search-registered handlers f (shorten_uri_prefix (c ∷ cs)) key h (rw off at e)
      ]

module _ {H : Type 0} (handle_request : H → Request → Response → Handling H)
    (indeterminate : ResponseCode) (handlers : Map Text H) (request : Request)
    (P : Answer H → Type 0) where
  -- An exception of the read itself: a `Referer` without a path, or no default handler.
  abbrev pub OnThrow : Type 0
  OnThrow =
      (referred_prefix request.headers request.uri ≡ none)
        ⊎ (find (codes "default") handlers ≡ none)
      → P Answer.threw

  -- A call of a handler of the table.
  abbrev pub OnCall : Type 0
  OnCall =
      (key : Text) (h : H)
      → find key handlers ≡ some h
      → P (
          answer handle_request indeterminate request.uri handlers key
            (handle_request h request empty_response))

  fall_back-rule :
      (o : Option H)
      → OnThrow
      → OnCall
      → find (codes "default") handlers ≡ o
      → P (fall_back handle_request indeterminate request handlers o)
  fall_back-rule none threw call e = threw (inr e)
  fall_back-rule (some h) threw call e = call (codes "default") h e

  dispatch-rule :
      (p : Text) (found : Search H)
      → OnThrow
      → OnCall
      → find_handler handlers p ≡ found
      → P (dispatch handle_request indeterminate request handlers found)
  dispatch-rule p (matched key h) threw call e = call key h (search-registered handlers _ p key h e)
  dispatch-rule p unmatched threw call e = fall_back-rule _ threw call refl
  dispatch-rule p out_of_fuel threw call e =
      absurd (search-ne-out_of_fuel handlers _ p (omega arith) e)

  route-rule :
      (o : Option Text)
      → OnThrow
      → OnCall
      → referred_prefix request.headers request.uri ≡ o
      → P (route handle_request indeterminate request handlers o)
  route-rule none threw call e = threw (inl e)
  route-rule (some p) threw call e = dispatch-rule p _ threw call refl

-- What holds of the two kinds of exception and of every call, holds of the read.
pub answer_read_rule :
    {H : Type 0} (handle_request : H → Request → Response → Handling H)
    (indeterminate : ResponseCode) (bytes : Text) (s : ServerStatus) (handlers : Map Text H)
    (P : Answer H → Type 0)
    → OnThrow handle_request indeterminate handlers (parse bytes (some s)) P
    → OnCall handle_request indeterminate handlers (parse bytes (some s)) P
    → P (answer_read handle_request indeterminate bytes s handlers)
unfolding answer_read
answer_read_rule handle_request indeterminate bytes s handlers P threw call =
    route-rule handle_request indeterminate handlers (parse bytes (some s)) P _ threw call refl
