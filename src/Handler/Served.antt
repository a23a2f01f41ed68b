-- ===== src/Handler/Served.antt =====
-- Whole reads: from the bytes of a request to the bytes of the response, the counters and the handlers.
pub mod Stored
pub mod Referred
use spaceteam.Common.{Text, codes, some, none, [], ◌∷◌, ◌++◌, Map, find, assign, text_order, ◌≡◌}
use spaceteam.Connection.Choice.{IsBest}
use spaceteam.Connection.Messages.{NoReferer, handle_bytes_best, handle_bytes_default}
use spaceteam.Connection.Paths.{IsPathPrefix}
use spaceteam.Connection.Reads.{handle_bytes}
use spaceteam.Connection.{Reading, done, async_write, do_write}
use spaceteam.Handler.Base.{Handler, echo, not_found, status}
use spaceteam.Handler.Dispatch.{Surroundings, handle_request}
use spaceteam.Http.Request.Message.{Message, IsValid, request_text}
use spaceteam.Http.Response
use spaceteam.Http.Response.{ResponseCode, get_response_code}
use spaceteam.Status.{ServerStatus, update_status, to_html}

module _ (around : Surroundings) (indeterminate : ResponseCode) (m : Message) (s : ServerStatus)
    (handlers : Map Text Handler) where
  abbrev pub read_message : Reading Handler
  read_message = handle_bytes (handle_request around) indeterminate (request_text m) s handlers

  -- A read of a well-formed request without a `Referer`, where the longest registered prefix of
  -- its path has an `EchoHandler`, writes a plain text page with the bytes of the request and
  -- code 200, counts the URI with code 200, and leaves the handler as it is.
  pub read_echo :
      (q : Text)
      → IsValid m
      → NoReferer m.headers
      → IsBest handlers (b'/' ∷ m.path) q echo
      → read_message
        ≡ done
            (async_write
                (codes "HTTP/1.1 200 OK\r\nContent-Type: text/plain\r\n\r\n" ++ request_text m)
              ∷ [])
            (update_status (b'/' ∷ m.path) Response.ok s)
            (assign q echo handlers)
  unfolding handle_request do_write get_response_code
  read_echo q valid h best =
      handle_bytes_best (handle_request around) indeterminate m s handlers q echo valid h best

  -- A read of a well-formed request without a `Referer`, where no prefix of its path is
  -- registered and the default is a `NotFoundHandler`, writes the page with code 404, counts the
  -- URI with code 404, and leaves the handler as it is.
  pub read_not_found :
      IsValid m
      → NoReferer m.headers
      → ((p : Text) → IsPathPrefix p (b'/' ∷ m.path) → find p handlers ≡ none)
      → find (codes "default") handlers ≡ some not_found
      → read_message
        ≡ done
            (async_write (
                codes
                  "HTTP/1.1 404 Not Found\r\nContent-Type: text/html\r\n\r\n<!doctype html><html><body><h1>404 Not Found</h1></body></html>")
              ∷ [])
            (update_status (b'/' ∷ m.path) Response.not_found s)
            (assign (codes "default") not_found handlers)
  unfolding handle_request do_write get_response_code
  read_not_found valid h off at =
      handle_bytes_default (handle_request around) indeterminate m s handlers not_found valid h off
        at

  -- A well-formed request without a `Referer`, whose longest registered prefix has a `StatusHandler`:
  -- the page shows the counters as they were before the request, which is then counted itself.
  pub read_status :
      (q : Text)
      → IsValid m
      → NoReferer m.headers
      → IsBest handlers (b'/' ∷ m.path) q status
      → read_message
        ≡ done
            (async_write (codes "HTTP/1.1 200 OK\r\nContent-Type: text/html\r\n\r\n" ++ to_html s)
              ∷ [])
            (update_status (b'/' ∷ m.path) Response.ok s)
            (assign q status handlers)
  unfolding handle_request do_write get_response_code
  read_status q valid h best =
      handle_bytes_best (handle_request around) indeterminate m s handlers q status valid h best
