-- ===== src/Handler/Simple.antt =====
-- The handlers without members: src/echo_handler.cc, src/not_found_handler.cc,
-- src/status_handler.cc and src/holding_handler.cc.
use spaceteam.Common.{Text, codes, Option, none, some}
use spaceteam.Handler.Base.{Handled, returned, undefined, diverges, ok, error}
use spaceteam.Http.Fields.{Request}
use spaceteam.Http.Response
use spaceteam.Http.Response.{Response, set_status, add_header, set_body}
use spaceteam.Status.{ServerStatus, to_html}

-- `CONTENT_TYPE_`
abbrev pub content_type : Text
content_type = codes "Content-Type"

unfoldable pub echo_handle : Request → Option Response → Handled
unfolding set_status add_header set_body
echo_handle request none = returned error none
echo_handle request (some r) =
    let typed = add_header content_type (codes "text/plain") (set_status Response.ok r) in
    returned ok (some (set_body request.raw_request typed))

-- what `NotFoundHandler` writes
unfoldable pub not_found_response : Response → Response
unfolding set_status add_header set_body
not_found_response r =
    set_body (codes "<!doctype html><html><body><h1>404 Not Found</h1></body></html>")
      (add_header content_type (codes "text/html") (set_status Response.not_found r))

unfoldable pub not_found_handle : Request → Option Response → Handled
unfolding not_found_response
not_found_handle request none = undefined
not_found_handle request (some r) = returned ok (some (not_found_response r))

-- with the response that has its status line and type, and the status that the request leads to
abbrev pub report : Option ServerStatus → Response → Handled
report none r = returned error (some r)
report (some s) r = returned ok (some (set_body (to_html s) r))

unfoldable pub status_handle : Request → Option Response → Handled
unfolding set_status add_header set_body
status_handle request none = undefined
status_handle request (some r) =
    report request.server_status
      (add_header content_type (codes "text/html") (set_status Response.ok r))

-- `while(true) {}`
unfoldable pub holding_handle : Request → Option Response → Handled
holding_handle request response = diverges
