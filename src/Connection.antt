-- ===== src/Connection.antt =====
-- `Connection`: src/connection.cc and include/connection.h. A connection reads one buffer, parses it,
-- picks the handler with the longest registered prefix, and writes the response. The type of the
-- handlers and their virtual `HandleRequest` are parameters.
pub mod Prefixes
pub mod Paths
pub mod Longest
pub mod Choice
pub mod Calls
pub mod Reads
pub mod Messages
pub mod Referred
mod Tests
use spaceteam.Common.{
  ℕ, zero, suc, ◌+◌, Text, codes, Bool, true, false, [], ◌∷◌, List, Option, none, some, equal,
  length, take, drop, ◌==◌, if◌then◌else◌, Map, find, assign, text_order,
}
use spaceteam.Handler.Base.{HandlerStatus}
use spaceteam.Http.Request.{parse}
use spaceteam.Http.Fields.{Request, Headers}
use spaceteam.Http.Response.{Response, ResponseCode, empty_response, get_response_code, to_string}
use spaceteam.Status.{ServerStatus, update_status}

-- `text.find(c)`, `text.find(c, n)` and `text.rfind(c)`; `none` is `npos`
unfoldable pub index_of : ℕ → Text → Option ℕ
index_of c [] = none
index_of c (d ∷ text) =
    if d == c then some 0 else elim (index_of c text) [ none ↦ none | some i ↦ some (suc i) ]

abbrev pub index_from : ℕ → ℕ → Text → Option ℕ
index_from c n text = elim (index_of c (drop n text)) [ none ↦ none | some i ↦ some (i + n) ]

abbrev pub last_from : Bool → Option ℕ → Option ℕ
last_from here (some i) = some (suc i)
last_from here none = if here then some 0 else none

unfoldable pub last_index_of : ℕ → Text → Option ℕ
last_index_of c [] = none
last_index_of c (d ∷ text) = last_from (d == c) (last_index_of c text)

abbrev pub is_empty : Text → Bool
is_empty [] = true
is_empty (c ∷ text) = false

-- behind `rfind`
abbrev pub shorten_at : Text → Option ℕ → Text
shorten_at uri_prefix none = []
shorten_at uri_prefix (some pos) =
    let shortened = take pos uri_prefix in if is_empty shortened then b'/' ∷ [] else shortened

-- `ShortenUriPrefix`
unfoldable pub shorten_uri_prefix : Text → Text
unfolding last_index_of
shorten_uri_prefix uri_prefix =
    if equal uri_prefix (b'/' ∷ [])
    then []
    else shorten_at uri_prefix (last_index_of b'/' uri_prefix)

abbrev cut_at : Text → Option ℕ → Option Text
cut_at text none = none
cut_at text (some pos) = some (drop pos text)

-- The prefix to look for: the URI, or the part of the last `Referer` from its first slash at or
-- behind position 8. `none` is the exception of `substr` where there is no such slash.
unfoldable pub referred_prefix : Headers → Text → Option Text
unfolding index_of
referred_prefix [] uri = some uri
referred_prefix ((name, value) ∷ hs) uri =
    if equal name (codes "Referer")
    then elim (cut_at value (index_from b'/' 8 value)) [
      | none ↦ none
      | some p ↦ referred_prefix hs p
    ]
    else referred_prefix hs uri

-- The operations of the network library that the code starts, each with the handler that it ends in:
-- `handle_read`, `handle_write` and `handle_accept`.
pub data Operation : Type 0 where
  async_read_some async_accept : Operation
  async_write : Text → Operation

-- `do_read`, on a buffer of 1024 bytes
abbrev pub do_read : List Operation
do_read = async_read_some ∷ []

-- `start`
abbrev pub start : List Operation
start = do_read

-- `do_write`
unfoldable pub do_write : Response → List Operation
unfolding to_string
do_write response = async_write (to_string response) ∷ []

-- what is left of a prefix
pub data Search {ℓ} (H : Type ℓ) : Type ℓ where
  matched : Text → H → Search H
  unmatched out_of_fuel : Search H

-- the loop over ever shorter prefixes
module _ {ℓ} {H : Type ℓ} where
  abbrev pub search_step : Text → Option H → Search H → Search H
  search_step uri_prefix (some h) more = matched uri_prefix h
  search_step uri_prefix none more = more

  unfoldable pub search : ℕ → Map Text H → Text → Search H
  unfolding shorten_uri_prefix
  search zero handlers uri_prefix = out_of_fuel
  search (suc f) handlers [] = unmatched
  search (suc f) handlers (c ∷ cs) =
      let more = search f handlers (shorten_uri_prefix (c ∷ cs)) in
      search_step (c ∷ cs) (find (c ∷ cs) handlers) more

  -- Each round shortens the prefix, so one round more than it has bytes is enough.
  abbrev pub find_handler : Map Text H → Text → Search H
  find_handler handlers uri_prefix = search (suc (length uri_prefix)) handlers uri_prefix

-- What a handler leaves behind: the response, and itself; or it throws, is undefined, or never returns.
pub data Handling {ℓ} (H : Type ℓ) : Type ℓ where
  handled : HandlerStatus → Response → H → Handling H
  threw undefined diverged : Handling H

-- A request that has its response, and is not yet counted: the write that was started, the URI and the
-- code to count, and the handlers.
pub data Answer {ℓ} (H : Type ℓ) : Type ℓ where
  answered : List Operation → Text → ResponseCode → Map Text H → Answer H
  threw undefined diverged : Answer H

-- What a read leads to. `done` is a completed `handle_read`, with the write that it starts,
-- the counters, and the handlers.
pub data Reading {ℓ} (H : Type ℓ) : Type ℓ where
  failed : Reading H
  done : List Operation → ServerStatus → Map Text H → Reading H
  threw undefined diverged : Reading H

-- the call of `UpdateStatus`, the last one of `handle_read`
abbrev pub counted {ℓ} : {H : Type ℓ} → ServerStatus → Answer H → Reading H
counted status (answered ops uri code handlers) = done ops (update_status uri code status) handlers
counted status Answer.threw = Reading.threw
counted status Answer.undefined = Reading.undefined
counted status Answer.diverged = Reading.diverged

-- an enumeration that no one has set holds what its memory held
abbrev pub code_or : ResponseCode → Option ResponseCode → ResponseCode
code_or indeterminate none = indeterminate
code_or indeterminate (some code) = code

module _ {ℓ} {H : Type ℓ} (handle_request : H → Request → Response → Handling H) where
  -- behind `HandleRequest`: the response is written whatever the handler returned
  abbrev pub answer : ResponseCode → Text → Map Text H → Text → Handling H → Answer H
  answer indeterminate uri handlers key (handled _ response h) =
      answered (do_write response) uri (code_or indeterminate (get_response_code response))
        (assign key h handlers)
  answer indeterminate uri handlers key threw = Answer.threw
  answer indeterminate uri handlers key undefined = Answer.undefined
  answer indeterminate uri handlers key diverged = Answer.diverged

  -- the same up to the end of `handle_read`
  abbrev pub finish :
      ResponseCode → Text → ServerStatus → Map Text H → Text → Handling H → Reading H
  finish indeterminate uri status handlers key result =
      counted status (answer indeterminate uri handlers key result)

  -- without a handler for the path: `at` throws where there is no default either
  abbrev pub fall_back : ResponseCode → Request → Map Text H → Option H → Answer H
  fall_back indeterminate request handlers none = Answer.threw
  fall_back indeterminate request handlers (some h) =
      answer indeterminate request.uri handlers (codes "default")
        (handle_request h request empty_response)

  -- the choice of the handler, and the call
  abbrev pub dispatch : ResponseCode → Request → Map Text H → Search H → Answer H
  dispatch indeterminate request handlers (matched key h) =
      answer indeterminate request.uri handlers key (handle_request h request empty_response)
  dispatch indeterminate request handlers unmatched =
      fall_back indeterminate request handlers (find (codes "default") handlers)
  dispatch indeterminate request handlers out_of_fuel = Answer.diverged

  abbrev pub route : ResponseCode → Request → Map Text H → Option Text → Answer H
  route indeterminate request handlers none = Answer.threw
  route indeterminate request handlers (some uri_prefix) =
      dispatch indeterminate request handlers (find_handler handlers uri_prefix)

  -- `handle_read` without an error, up to `do_write`
  unfoldable pub answer_read : ResponseCode → Text → ServerStatus → Map Text H → Answer H
  unfolding parse referred_prefix search do_write get_response_code
  answer_read indeterminate bytes status handlers =
      let request = parse bytes (some status) in
      route indeterminate request handlers (referred_prefix request.headers request.uri)

  -- `handle_read`: the flag is the error code's, `bytes` are those that were transferred.
  unfoldable pub handle_read : ResponseCode → Bool → Text → ServerStatus → Map Text H → Reading H
  unfolding answer_read update_status
  handle_read indeterminate true bytes status handlers = failed
  handle_read indeterminate false bytes status handlers =
      counted status (answer_read indeterminate bytes status handlers)

-- `handle_write`
abbrev pub handle_write : Bool → Bool
handle_write true = false
handle_write false = true
