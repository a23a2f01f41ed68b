-- ===== src/Handler/Served/Referred.antt =====
-- Whole reads of requests that name the page that they come from.
use spaceteam.Common.{Text, codes, [], ◌∷◌, ◌++◌, Map, assign, text_order, ◌≡◌}
use spaceteam.Connection.Choice.{IsBest}
use spaceteam.Connection.Messages.{NoReferer}
use spaceteam.Connection.Referred.{IsOrigin, handle_bytes_referred}
use spaceteam.Connection.Reads.{handle_bytes}
use spaceteam.Connection.{done, async_write, do_write}
use spaceteam.Handler.Base.{Handler, echo}
use spaceteam.Handler.Dispatch.{Surroundings, handle_request}
use spaceteam.Http.Fields.{Headers}
use spaceteam.Http.Request.Message.{Message, IsValid, request_text}
use spaceteam.Http.Response
use spaceteam.Http.Response.{ResponseCode, get_response_code}
use spaceteam.Status.{ServerStatus, update_status}

-- A read of a well-formed request with one `Referer`, of an origin of 8 bytes or more without a slash
-- behind the first 8, a slash and a path, where the longest registered prefix of that path has an
-- `EchoHandler`, writes a plain text page with the bytes of the request and code 200, whatever the
-- request's own path is, counts the request's own URI with code 200, and leaves the handler as it is.
pub read_referred :
    (around : Surroundings) (indeterminate : ResponseCode) (m : Message) (s : ServerStatus)
    (handlers : Map Text Handler) (before after : Headers) (origin u q : Text)
    → IsValid m
    → m.headers ≡ before ++ (codes "Referer", origin ++ b'/' ∷ u) ∷ after
    → NoReferer before
    → NoReferer after
    → IsOrigin origin
    → IsBest handlers (b'/' ∷ u) q echo
    → handle_bytes (handle_request around) indeterminate (request_text m) s handlers
      ≡ done
          (async_write
              (codes "HTTP/1.1 200 OK\r\nContent-Type: text/plain\r\n\r\n" ++ request_text m)
            ∷ [])
          (update_status (b'/' ∷ m.path) Response.ok s)
          (assign q echo handlers)
unfolding handle_request do_write get_response_code
read_referred around indeterminate m s handlers before after origin u q valid e h k o best =
    handle_bytes_referred (handle_request around) indeterminate m s handlers before after origin u q
      echo valid e h k o best
