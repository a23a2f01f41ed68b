-- ===== src/Handler/Bucket.antt =====
-- `S3Handler`: src/s3_handler.cc. The process that it starts is a parameter: from the command line to
-- all that the pipe gives, or `none` where `popen` fails.
pub mod Reading
use spaceteam.Common.{
  ℕ, zero, suc, ◌+◌, Text, codes, Bool, true, false, [], ◌∷◌, ◌++◌, Option, none, some, length,
  c_string, drop, ◌==◌, if◌then◌else◌,
}
use spaceteam.Handler.Base.{Handled, returned, threw, ok, error, extends}
use spaceteam.Handler.Simple.{content_type}
use spaceteam.Http.Fields.{Request}
use spaceteam.Http.Response
use spaceteam.Http.Response.{Response, set_status, add_header, set_body}

-- what a `fgets` reads, what it leaves, and whether it met the end of the stream
abbrev pub Line : Type 0
Line = Text × Text × Bool

abbrev pub longer : ℕ → Line → Line
longer c (line, rest, eof) = (c ∷ line, rest, eof)

-- `fgets` with room for `n` bytes before the closing zero: it stops behind a newline.
unfoldable pub fgets : ℕ → Text → Line
fgets zero text = ([], text, false)
fgets (suc n) [] = ([], [], true)
fgets (suc n) (c ∷ text) =
    let more = longer c (fgets n text) in if c == b'\n' then (c ∷ [], text, false) else more

-- the loop `while (!feof(pipe))`; each round but the last takes a byte
unfoldable pub read_pipe : ℕ → Text → Text → Option Text
unfolding fgets
read_pipe zero result text = none
read_pipe (suc f) result text =
    let (line, rest, eof) = fgets 127 text in
    let result' = result ++ c_string line in
    let more = read_pipe f result' rest in if eof then some result' else more

-- `cmd`
abbrev pub command : Text → Text → Text
command bucket key = codes "nodejs get-s3-object.js " ++ (bucket ++ (b' ' ∷ key))

abbrev pub read_all : Option Text → Option Text
read_all none = none
read_all (some output) = read_pipe (suc (length output)) [] output

abbrev pub answer : Response → Option Text → Handled
answer r none = threw
answer r (some object) = returned ok (
    some (set_status Response.ok (add_header content_type (codes "text/html") (set_body object r))))

module _ (popen : Text → Option Text) where
  -- `none` is the exception for a failed `popen`
  unfoldable pub get_s3_object : Text → Text → Option Text
  unfolding read_pipe
  get_s3_object bucket key = read_all (popen (command bucket key))

  unfoldable pub s3_handle : Text → Text → Request → Option Response → Handled
  unfolding get_s3_object set_status add_header set_body
  s3_handle uri_prefix bucket request none = returned error none
  s3_handle uri_prefix bucket request (some r) =
      if extends request.uri uri_prefix
      then answer r (get_s3_object bucket (drop (length uri_prefix + 1) request.uri))
      else returned error (some r)
