-- ===== src/Handler/Served/Stored.antt =====
-- Whole reads of a file of `StaticHandler` and of an object of `S3Handler`.
use spaceteam.Common.{
  ℕ, Text, codes, append_assoc, some, true, [], ◌∷◌, ◌++◌, Map, assign, text_order, ap, ◌∙◌, ◌≡◌,
  ◌≢◌,
}
use spaceteam.Connection.Choice.{IsBest}
use spaceteam.Connection.Messages.{NoReferer, handle_bytes_best}
use spaceteam.Connection.{done, async_write, do_write, finish}
use spaceteam.Handler.Base.{Handler, static, s3}
use spaceteam.Common.{NoZero}
use spaceteam.Handler.Bucket.Reading.{s3_handle_object}
use spaceteam.Handler.Bucket.{command}
use spaceteam.Handler.Dispatch.{Surroundings, handle_request, left}
use spaceteam.Handler.Files.Serving.{static_handle_file}
use spaceteam.Handler.Files.{Files, contains, get_mime_type}
use spaceteam.Handler.Served.{read_message}
use spaceteam.Handler.Simple.{content_type}
use spaceteam.Http.Request.Message.{Message, IsValid, read_back}
use spaceteam.Http.Response
use spaceteam.Http.Response.{ResponseCode, empty_response, get_response_code, to_string}
use spaceteam.Status.{ServerStatus, update_status}

-- a page with code 200, of a type
abbrev pub page : Text → Text → Text
page type body = codes "HTTP/1.1 200 OK\r\nContent-Type: " ++ (type ++ (codes "\r\n\r\n" ++ body))

do_write-page :
    (type body : Text)
    → do_write (record {
      status = codes "HTTP/1.1 200 OK";
      raw_status = some Response.ok;
      headers = (content_type, type) ∷ [];
      body = body;
    })
      ≡ async_write (page type body) ∷ []
unfolding do_write
do_write-page type body =
    ap (λ t. async_write (codes "HTTP/1.1 200 OK\r\nContent-Type: " ++ t) ∷ [])
      (append_assoc type (codes "\r\n") (codes "\r\n" ++ body))

-- A regular file that can be opened and is not Markdown, below the root of a `StaticHandler`, with the
-- name of the root's directory in its canonical path.
pub record IsFile (files : Files) (root rest path bytes : Text) : Type 0 where
  pub dir : Text
  pub exists : files.exists (root ++ rest) ≡ some true
  pub regular : files.is_regular_file (root ++ rest) ≡ some true
  pub canonical : files.canonical (root ++ rest) ≡ some path
  pub canonical_root : files.canonical root ≡ some dir
  pub named : contains (files.filename dir) path ≡ true
  pub opened : files.read_file path ≡ some bytes
  pub not_markdown : files.extension path ≢ codes ".md"

module _ (around : Surroundings) (indeterminate : ResponseCode) (m : Message) (s : ServerStatus)
    (handlers : Map Text Handler) where
  -- A read of a well-formed request without a `Referer`, whose path is the longest registered prefix
  -- `q` of it, that of a `StaticHandler`, and something behind it: if that names a regular file below
  -- the root that can be opened, is not Markdown, and has the name of the root's directory in its
  -- canonical path, the read writes a page with the bytes of the file and the type for its extension,
  -- counts the URI with code 200, and leaves the handler as it is.
  pub read_file :
      (q root rest path bytes : Text)
      → IsValid m
      → NoReferer m.headers
      → IsBest handlers (b'/' ∷ m.path) q (static q root)
      → b'/' ∷ m.path ≡ q ++ rest
      → rest ≢ []
      → IsFile around.files root rest path bytes
      → read_message around indeterminate m s handlers
        ≡ done
            (async_write (page (get_mime_type (around.files.extension path)) bytes) ∷ [])
            (update_status (b'/' ∷ m.path) Response.ok s)
            (assign q (static q root) handlers)
  unfolding handle_request get_response_code
  read_file q root rest path bytes valid h best at ne f =
      handle_bytes_best (handle_request around) indeterminate m s handlers q (static q root) valid h
        best
      ∙ ap
          (λ r.
            finish (handle_request around) indeterminate (b'/' ∷ m.path) s handlers q
              (left (static q root) r))
          (static_handle_file around.files q root rest path f.dir bytes (read_back m (some s))
            empty_response at ne f.exists f.regular f.canonical f.canonical_root f.named f.opened
            f.not_markdown)
      ∙ ap
          (λ w.
            done w (update_status (b'/' ∷ m.path) Response.ok s)
              (assign q (static q root) handlers))
          (do_write-page (get_mime_type (around.files.extension path)) bytes)

  -- A read of a well-formed request without a `Referer`, whose path is the longest registered prefix
  -- `q` of it, that of an `S3Handler`, one more byte, and a key: if the command for the bucket and the
  -- key starts and no byte of its output is zero, the read writes an HTML page with the output, counts
  -- the URI with code 200, and leaves the handler as it is.
  pub read_object :
      (q bucket key output : Text) (c : ℕ)
      → IsValid m
      → NoReferer m.headers
      → IsBest handlers (b'/' ∷ m.path) q (s3 q bucket)
      → b'/' ∷ m.path ≡ q ++ c ∷ key
      → around.popen (command bucket key) ≡ some output
      → NoZero output
      → read_message around indeterminate m s handlers
        ≡ done
            (async_write (page (codes "text/html") output) ∷ [])
            (update_status (b'/' ∷ m.path) Response.ok s)
            (assign q (s3 q bucket) handlers)
  unfolding handle_request get_response_code
  read_object q bucket key output c valid h best at run clean =
      handle_bytes_best (handle_request around) indeterminate m s handlers q (s3 q bucket) valid h
        best
      ∙ ap
          (λ r.
            finish (handle_request around) indeterminate (b'/' ∷ m.path) s handlers q
              (left (s3 q bucket) r))
          (s3_handle_object around.popen q bucket key output c (read_back m (some s)) empty_response
            at run clean)
      ∙ ap
          (λ w.
            done w (update_status (b'/' ∷ m.path) Response.ok s) (assign q (s3 q bucket) handlers))
          (do_write-page (codes "text/html") output)
