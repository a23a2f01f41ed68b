-- ===== src/Handler/Files.antt =====
-- `StaticHandler`: src/static_handler.cc. The file system (boost::filesystem) and the Markdown
-- library are parameters.
pub mod Serving
use spaceteam.Common.{
  ℕ, Text, codes, Bool, true, false, ◌&&◌, ◌||◌, [], ◌∷◌, ◌++◌, Option, none, some, equal, length,
  drop, ◌==◌, if◌then◌else◌, Map, find, text_order,
}
use spaceteam.Handler.Base.{Handled, returned, threw, ok, error, extends}
use spaceteam.Handler.Simple.{content_type, not_found_response}
use spaceteam.Http.Fields.{Request}
use spaceteam.Http.Response
use spaceteam.Http.Response.{Response, set_status, add_header, set_body}

-- What the handler asks of its surroundings. `exists`, `is_regular_file` and `canonical` throw where it is `none`; `read_file` is
-- `none` where the stream cannot be opened; `render` is `none` where the document cannot be read.
pub record Files : Type 0 where
  pub exists : Text → Option Bool
  pub is_regular_file : Text → Option Bool
  pub canonical : Text → Option Text
  pub filename : Text → Text
  pub extension : Text → Text
  pub read_file : Text → Option Text
  pub render : Text → Option Text

abbrev pub mime_map : Map Text Text
mime_map =
    (codes ".gif", codes "image/gif")
    ∷ (codes ".htm", codes "text/html")
    ∷ (codes ".html", codes "text/html")
    ∷ (codes ".jpg", codes "image/jpeg")
    ∷ (codes ".jpeg", codes "image/jpeg")
    ∷ (codes ".png", codes "image/png")
    ∷ []

abbrev mime_or_plain : Option Text → Text
mime_or_plain none = codes "text/plain"
mime_or_plain (some type) = type

unfoldable pub get_mime_type : Text → Text
get_mime_type extension = mime_or_plain (find extension mime_map)

-- `text.find(part) != npos`
abbrev pub is_prefix : Text → Text → Bool
is_prefix [] text = true
is_prefix (c ∷ part) [] = false
is_prefix (c ∷ part) (d ∷ text) = c == d && is_prefix part text

abbrev pub contains : Text → Text → Bool
contains part [] = is_prefix part []
contains part (c ∷ text) = is_prefix part (c ∷ text) || contains part text

-- the response with a body of a type
abbrev pub serve : Text → Text → Response → Handled
serve body extension r = returned ok (
    some (
      set_status Response.ok (add_header content_type (get_mime_type extension) (set_body body r))))

-- a Markdown file that cannot be read
abbrev pub serve_page : Option Text → Response → Handled
serve_page none r = returned error (some r)
serve_page (some page) r = serve page (codes ".html") r

-- the answer of a `NotFoundHandler`
abbrev pub not_found : Response → Handled
not_found r = returned ok (some (not_found_response r))

module _ (files : Files) where
  -- the stream of an open file
  abbrev pub send : Text → Text → Response → Handled
  send path bytes r =
      if equal (files.extension path) (codes ".md")
      then serve_page (files.render bytes) r
      else serve bytes (files.extension path) r

  abbrev pub send_if_open : Text → Option Text → Response → Handled
  send_if_open path none r = not_found r
  send_if_open path (some bytes) r = send path bytes r

  -- behind the two calls of `canonical`: the file's path, and that of the root
  abbrev pub send_within : Option Text → Option Text → Response → Handled
  send_within none dir r = threw
  send_within (some path) none r = threw
  send_within (some path) (some dir) r =
      if contains (files.filename dir) path
      then send_if_open path (files.read_file path) r
      else not_found r

  -- behind `exists` and `is_regular_file`
  abbrev pub send_regular : Text → Text → Option Bool → Response → Handled
  send_regular path root none r = threw
  send_regular path root (some false) r = not_found r
  send_regular path root (some true) r = send_within (files.canonical path) (files.canonical root) r

  abbrev pub send_existing : Text → Text → Option Bool → Response → Handled
  send_existing path root none r = threw
  send_existing path root (some false) r = not_found r
  send_existing path root (some true) r = send_regular path root (files.is_regular_file path) r

  unfoldable pub static_handle : Text → Text → Request → Option Response → Handled
  unfolding get_mime_type set_status add_header set_body not_found_response
  static_handle uri_prefix root request none = returned error none
  static_handle uri_prefix root request (some r) =
      if extends request.uri uri_prefix
      then (let path = root ++ drop (length uri_prefix) request.uri in
          send_existing path root (files.exists path) r)
      else returned error (some r)
