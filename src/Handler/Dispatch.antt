-- ===== src/Handler/Dispatch.antt =====
-- The virtual `HandleRequest` of include/request_handler.h over the handlers' classes.
use spaceteam.Common.{ℕ, Text, Option, none, some}
use spaceteam.Connection.{Handling, handled}
use spaceteam.Handler.Base.{
  Handled, Handler, returned, echo, not_found, status, holding, static, s3, proxy,
}
use spaceteam.Handler.Bucket.{s3_handle}
use spaceteam.Handler.Files.{Files, static_handle}
use spaceteam.Handler.Remote.{proxy_handle}
use spaceteam.Handler.Simple.{echo_handle, not_found_handle, status_handle, holding_handle}
use spaceteam.Handler.Streams.{Conversation}
use spaceteam.Http.Fields.{Request}
use spaceteam.Http.Response.{Response}

-- What a call meets: the file system, the process, the network, and the number of redirects that the
-- model follows. They do not change while a server runs.
pub record Surroundings : Type 0 where
  pub files : Files
  pub popen : Text → Option Text
  pub network : ℕ → Text → Text → Option Conversation
  pub redirects : ℕ

-- What is left of a call with a pointer to a response: the response, which the handler has returned,
-- and the handler's object.
abbrev pub left : Handler → Handled → Handling Handler
left h (returned result (some r)) = handled result r h
left h (returned result none) = Handling.undefined
left h Handled.threw = Handling.threw
left h Handled.undefined = Handling.undefined
left h Handled.diverges = Handling.diverged

-- The proxy keeps the host that a redirect has led it to.
abbrev pub left_proxy : Text → Text → Handled × Text → Handling Handler
left_proxy uri_prefix portno (result, host) = left (proxy uri_prefix host portno) result

unfoldable pub handle_request : Surroundings → Handler → Request → Response → Handling Handler
unfolding echo_handle not_found_handle status_handle holding_handle static_handle s3_handle
    proxy_handle
handle_request around echo request r = left echo (echo_handle request (some r))
handle_request around not_found request r = left not_found (not_found_handle request (some r))
handle_request around status request r = left status (status_handle request (some r))
handle_request around holding request r = left holding (holding_handle request (some r))
handle_request around (static uri_prefix root) request r =
    left (static uri_prefix root) (static_handle around.files uri_prefix root request (some r))
handle_request around (s3 uri_prefix bucket) request r =
    left (s3 uri_prefix bucket) (s3_handle around.popen uri_prefix bucket request (some r))
handle_request around (proxy uri_prefix host portno) request r =
    left_proxy uri_prefix portno
      (proxy_handle around.network around.redirects uri_prefix host request.uri r)
