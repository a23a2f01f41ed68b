-- ===== src/Handler/Throws.antt =====
-- When a handler throws.
use spaceteam.Common.{
  Bool, ℕ, zero, suc, ◌+◌, ◌<◌, Text, codes, true, false, [], ◌++◌, Option, none, some, equal,
  length, drop, Bool-cases, inl, inr, ◌⊎◌, ◌≡◌, ◌≢◌, refl, arith,
}
use spaceteam.Connection.{Handling}
use spaceteam.Handler.Base.{
  Handled, returned, Handler, echo, not_found, status, holding, static, s3, proxy, extends,
}
use spaceteam.Handler.Bucket.Reading.{fgets-lt}
use spaceteam.Handler.Bucket.{fgets, read_pipe, read_all, get_s3_object, command, answer, s3_handle}
use spaceteam.Handler.Dispatch.{Surroundings, handle_request, left}
use spaceteam.Handler.Files.{
  Files, contains, send, send_if_open, send_within, send_regular, send_existing, serve_page,
  static_handle,
}
use spaceteam.Handler.Simple.{report, echo_handle, not_found_handle, status_handle, holding_handle}
use spaceteam.Http.Fields.{Request}
use spaceteam.Http.Response.{Response}
use spaceteam.Status.{ServerStatus}

left-threw : (h : Handler) (r : Handled) → left h r ≡ Handling.threw → r ≡ Handled.threw
left-threw h (returned result (some r)) e = cc
left-threw h (returned result none) e = cc
left-threw h Handled.threw e = refl
left-threw h Handled.undefined e = cc
left-threw h Handled.diverges e = cc

report-ne : (o : Option ServerStatus) (r : Response) → report o r ≢ Handled.threw
report-ne none r e = cc
report-ne (some s) r e = cc

-- The loop over the pipe gives a result, since every round but the last one takes a byte.
read_pipe-ne : (f : ℕ) (result text : Text) → length text < f → read_pipe f result text ≢ none
unfolding read_pipe
read_pipe-ne zero result text h e = absurd (omega arith)
read_pipe-ne (suc f) result text h e = elim (Bool-cases (fgets 127 text).2) [
  | inl at_end ↦ let done = rw at_end at e in cc
  | inr more ↦ read_pipe-ne f _ _ (omega (arith, fgets-lt 126 text more)) (rw more at e)
]

read_all-none : (o : Option Text) → read_all o ≡ none → o ≡ none
read_all-none none e = refl
read_all-none (some output) e = absurd (read_pipe-ne _ [] output (omega arith) e)

answer-threw : (r : Response) (o : Option Text) → answer r o ≡ Handled.threw → o ≡ none
answer-threw r none e = refl
answer-threw r (some object) e = cc

-- the call of `popen` fails
abbrev pub NoProcess : (Text → Option Text) → Text → Text → Text → Type 0
NoProcess popen uri_prefix bucket uri =
    (extends uri uri_prefix ≡ true)
    × (popen (command bucket (drop (length uri_prefix + 1) uri)) ≡ none)

s3_handle-threw :
    (popen : Text → Option Text) (p bucket : Text) (request : Request) (r : Response)
    → s3_handle popen p bucket request (some r) ≡ Handled.threw
    → NoProcess popen p bucket request.uri
unfolding s3_handle get_s3_object
s3_handle-threw popen p bucket request r e = elim (Bool-cases (extends request.uri p)) [
  | inr off ↦ let no = rw off at e in cc
  | inl on ↦ (on, read_all-none _ (answer-threw r _ (rw on at e)))
]

-- a call of the file system throws: `exists`, `is_regular_file`, or `canonical` for the file or the
-- root, each if those before it have let the handler go on
abbrev pub FileFails : Files → Text → Text → Type 0
FileFails files path root =
    (files.exists path ≡ none)
    ⊎ ((files.exists path ≡ some true)
        × ((files.is_regular_file path ≡ none)
            ⊎ ((files.is_regular_file path ≡ some true)
                × ((files.canonical path ≡ none) ⊎ (files.canonical root ≡ none)))))

abbrev pub StaticFails : Files → Text → Text → Text → Type 0
StaticFails files uri_prefix root uri =
    (extends uri uri_prefix ≡ true) × FileFails files (root ++ drop (length uri_prefix) uri) root

module _ (files : Files) (r : Response) where
  serve_page-ne : (o : Option Text) → serve_page o r ≢ Handled.threw
  serve_page-ne none e = cc
  serve_page-ne (some page) e = cc

  send-ne : (path bytes : Text) → send files path bytes r ≢ Handled.threw
  send-ne path bytes e = elim (Bool-cases (equal (files.extension path) (codes ".md"))) [
    | inl md ↦ serve_page-ne (files.render bytes) (rw md at e)
    | inr plain ↦ let no = rw plain at e in cc
  ]

  send_if_open-ne : (path : Text) (o : Option Text) → send_if_open files path o r ≢ Handled.threw
  send_if_open-ne path none e = cc
  send_if_open-ne path (some bytes) e = send-ne path bytes e

  send_within-threw :
      (file dir : Option Text)
      → send_within files file dir r ≡ Handled.threw
      → (file ≡ none) ⊎ (dir ≡ none)
  send_within-threw none dir e = inl refl
  send_within-threw (some path) none e = inr refl
  send_within-threw (some path) (some dir) e =
      elim (Bool-cases (contains (files.filename dir) path)) [
        | inl named ↦ absurd (send_if_open-ne path (files.read_file path) (rw named at e))
        | inr off ↦ let no = rw off at e in cc
      ]

  send_regular-threw :
      (path root : Text) (o : Option Bool)
      → files.exists path ≡ some true
      → files.is_regular_file path ≡ o
      → send_regular files path root o r ≡ Handled.threw
      → FileFails files path root
  send_regular-threw path root none g k e = inr (g, inl k)
  send_regular-threw path root (some false) g k e = cc
  send_regular-threw path root (some true) g k e = inr (g, inr (k, send_within-threw _ _ e))

  send_existing-threw :
      (path root : Text) (o : Option Bool)
      → files.exists path ≡ o
      → send_existing files path root o r ≡ Handled.threw
      → FileFails files path root
  send_existing-threw path root none g e = inl g
  send_existing-threw path root (some false) g e = cc
  send_existing-threw path root (some true) g e = send_regular-threw path root _ g refl e

  static_handle-threw :
      (p root : Text) (request : Request)
      → static_handle files p root request (some r) ≡ Handled.threw
      → StaticFails files p root request.uri
  unfolding static_handle
  static_handle-threw p root request e = elim (Bool-cases (extends request.uri p)) [
    | inr x ↦ let no = rw x at e in cc
    | inl x ↦ (x, send_existing-threw _ root _ refl (rw x at e))
  ]

-- What makes a handler throw, by its class: no process for the object, an
-- exception of the file system, or an
-- exception on the way to the remote host.
abbrev pub Fails : Surroundings → Handler → Request → Response → Type 0
Fails around (static p root) request r = StaticFails around.files p root request.uri
Fails around (s3 p bucket) request r = NoProcess around.popen p bucket request.uri
Fails around (proxy p host portno) request r =
    handle_request around (proxy p host portno) request r ≡ Handling.threw
Fails around _ request r = ⊥

pub handle_request-Fails :
    (around : Surroundings) (h : Handler) (request : Request) (r : Response)
    → handle_request around h request r ≡ Handling.threw
    → Fails around h request r
unfolding handle_request echo_handle not_found_handle status_handle holding_handle
handle_request-Fails around echo request r e = cc
handle_request-Fails around not_found request r e = cc
handle_request-Fails around status request r e =
    absurd (report-ne request.server_status _ (left-threw status _ e))
handle_request-Fails around holding request r e = cc
handle_request-Fails around (static p root) request r e =
    static_handle-threw around.files r p root request (left-threw (static p root) _ e)
handle_request-Fails around (s3 p bucket) request r e =
    s3_handle-threw around.popen p bucket request r (left-threw (s3 p bucket) _ e)
handle_request-Fails around (proxy p host portno) request r e = e
