-- ===== src/Handler/Keeps.antt =====
-- A rule for `HandleRequest`: what the operations of a response keep, every handler keeps.
pub mod Headers
pub mod Rounds
use spaceteam.Common.{
  ℕ, zero, suc, ◌+◌, ◌∷◌, [], Text, codes, Bool, true, false, not, ◌&&◌, ◌++◌, Option, none, some,
  equal, length, take, drop, ◌==◌, if◌then◌else◌, Bool-cases, Option-cases, inl, inr, ◌≡◌, refl,
}
use spaceteam.Connection.{Handling, handled, index_of}
use spaceteam.Handler.Base.{
  Handled, Handler, returned, echo, not_found, status, holding, static, s3, proxy, extends,
}
use spaceteam.Handler.Bucket.{s3_handle, get_s3_object}
use spaceteam.Handler.Bucket as Bucket
use spaceteam.Handler.Dispatch.{Surroundings, handle_request, left, left_proxy}
use spaceteam.Handler.Files.{
  Files, static_handle, send_regular, send_existing, send_within, send_if_open, send, serve,
  serve_page, contains,
}
use spaceteam.Handler.Files as Files
use spaceteam.Handler.Remote.{
  Exchange, ended, again, set_body_if, read_content, headers_in, coded, read_answer, talk_to,
  proceed, proxy_rounds, proxy_handle, remote_uri, request_for,
}
use spaceteam.Handler.Simple.{
  content_type, echo_handle, not_found_handle, not_found_response, status_handle, report,
  holding_handle,
}
use spaceteam.Handler.Streams.{
  Conversation, Heading, heading, threw_heading, unfinished, take_header, follow, go_on,
  behind_header, read_line, read_headers, get_line, cut_header, location, or_nothing, status_of,
}
use spaceteam.Http.Fields.{Request}
use spaceteam.Http.Response
use spaceteam.Http.Response.{Response, ResponseCode, set_status, add_header, set_body}
use spaceteam.Status.{ServerStatus}

-- What the three operations of a response keep.
pub record IsKept (P : Response → Type 0) : Type 0 where
  pub on_status : (c : ResponseCode) (r : Response) → P r → P (set_status c r)
  pub on_header : (name value : Text) (r : Response) → P r → P (add_header name value r)
  pub on_body : (text : Text) (r : Response) → P r → P (set_body text r)

-- A response that is left has the property.
abbrev pub Leaves : (Response → Type 0) → Handled → Type 0
Leaves P (returned result (some r)) = P r
Leaves P _ = Unit

module _ {P : Response → Type 0} (keep : IsKept P) where
  pub echo-Leaves :
      (request : Request) (r : Response) → P r → Leaves P (echo_handle request (some r))
  unfolding echo_handle
  echo-Leaves request r p = keep.on_body _ _ (keep.on_header _ _ _ (keep.on_status _ r p))

  pub not_found_response-keeps : (r : Response) → P r → P (not_found_response r)
  unfolding not_found_response
  not_found_response-keeps r p = keep.on_body _ _ (keep.on_header _ _ _ (keep.on_status _ r p))

  report-Leaves : (s : Option ServerStatus) (r : Response) → P r → Leaves P (report s r)
  report-Leaves none r p = p
  report-Leaves (some s) r p = keep.on_body _ r p

  pub status-Leaves :
      (request : Request) (r : Response) → P r → Leaves P (status_handle request (some r))
  unfolding status_handle
  status-Leaves request r p =
      report-Leaves request.server_status _
        (keep.on_header content_type (codes "text/html") _ (keep.on_status Response.ok r p))

  serve-keeps : (body extension : Text) (r : Response) → P r → Leaves P (serve body extension r)
  serve-keeps body extension r p = keep.on_status _ _ (keep.on_header _ _ _ (keep.on_body _ r p))

  serve_page-Leaves : (o : Option Text) (r : Response) → P r → Leaves P (serve_page o r)
  serve_page-Leaves none r p = p
  serve_page-Leaves (some page) r p = serve-keeps page _ r p

  send_within-Leaves :
      (files : Files) (file dir : Option Text) (r : Response)
      → P r
      → Leaves P (send_within files file dir r)
  send_within-Leaves files none dir r p = tt
  send_within-Leaves files (some path) none r p = tt
  send_within-Leaves files (some path) (some dir) r p =
      elim (Bool-cases (contains (files.filename dir) path)) [
        | inr e ↦ rw e (not_found_response-keeps r p)
        | inl e ↦ rw e (opened (files.read_file path))
      ]
    where
      sent : (bytes : Text) → Leaves P (send files path bytes r)
      sent bytes = elim (Bool-cases (equal (files.extension path) (codes ".md"))) [
        | inl e ↦ rw e (serve_page-Leaves (files.render bytes) r p)
        | inr e ↦ rw e (serve-keeps bytes (files.extension path) r p)
      ]

      opened : (o : Option Text) → Leaves P (send_if_open files path o r)
      opened none = not_found_response-keeps r p
      opened (some bytes) = sent bytes

  pub static_handle-Leaves :
      (files : Files) (uri_prefix root : Text) (request : Request) (r : Response)
      → P r
      → Leaves P (static_handle files uri_prefix root request (some r))
  unfolding static_handle
  static_handle-Leaves files uri_prefix root request r p =
      let path = root ++ drop (length uri_prefix) request.uri in
      elim (Bool-cases (extends request.uri uri_prefix)) [
        | inr e ↦ rw e p
        | inl e ↦ rw e (existing path (files.exists path))
      ]
    where
      regular : (path : Text) (o : Option Bool) → Leaves P (send_regular files path root o r)
      regular path none = tt
      regular path (some false) = not_found_response-keeps r p
      regular path (some true) = send_within-Leaves files _ _ r p

      existing : (path : Text) (o : Option Bool) → Leaves P (send_existing files path root o r)
      existing path none = tt
      existing path (some false) = not_found_response-keeps r p
      existing path (some true) = regular path (files.is_regular_file path)

  pub s3_handle-Leaves :
      (popen : Text → Option Text) (uri_prefix bucket : Text) (request : Request) (r : Response)
      → P r
      → Leaves P (s3_handle popen uri_prefix bucket request (some r))
  unfolding s3_handle
  s3_handle-Leaves popen uri_prefix bucket request r p =
      elim (Bool-cases (extends request.uri uri_prefix)) [
        | inr e ↦ rw e p
        | inl e ↦ rw e (answered (get_s3_object popen bucket _))
      ]
    where
      answered : (o : Option Text) → Leaves P (Bucket.answer r o)
      answered none = tt
      answered (some object) = keep.on_status _ _ (keep.on_header _ _ _ (keep.on_body _ r p))
