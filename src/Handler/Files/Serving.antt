-- ===== src/Handler/Files/Serving.antt =====
-- What `StaticHandler` serves.
use spaceteam.Common.{
  ℕ, Text, codes, Bool, true, false, [], ◌∷◌, ◌++◌, Option, none, some, equal, equal_iff,
  equal_refl, length, length-append, drop, take-append, drop-append, ltb, ◌≡◌, ◌≢◌, ◌⊎◌, inl, inr,
  refl, arith, Bool-cases,
}
use spaceteam.Handler.Base.{returned, ok, extends}
use spaceteam.Handler.Files.{
  Files, contains, send, send_if_open, send_within, send_regular, send_existing, static_handle,
  get_mime_type,
}
use spaceteam.Handler.Simple.{content_type, not_found_response}
use spaceteam.Http.Fields.{Request}
use spaceteam.Http.Response
use spaceteam.Http.Response.{Response, set_body, add_header, set_status}

equal_longer : (p : Text) (c : ℕ) (rest : Text) → equal (p ++ c ∷ rest) p ≡ false
unfolding equal
equal_longer [] c rest = refl
equal_longer (d ∷ p) c rest = ground (arith, equal_longer p c rest)

-- A URI that goes on behind the prefix passes the handlers' test.
pub extends-append : (p rest : Text) → rest ≢ [] → extends (p ++ rest) p ≡ true
extends-append p [] ne = absurd (ne refl)
extends-append p (c ∷ rest) ne = rw (equal_longer p c rest, shorter, take-append, equal_refl)
  where
    shorter : ltb (length p) (length (p ++ c ∷ rest)) ≡ true
    shorter = ground (arith, length-append p (c ∷ rest))

-- A URI that goes on behind the prefix, and whose path below the root is a regular file that can be
-- opened, is not Markdown, and has the name of the root's directory in its canonical path: the file is
-- sent as it is, with code 200 and the type for its extension.
pub static_handle_file :
    (files : Files) (p root rest path dir bytes : Text) (request : Request) (r : Response)
    → request.uri ≡ p ++ rest
    → rest ≢ []
    → files.exists (root ++ rest) ≡ some true
    → files.is_regular_file (root ++ rest) ≡ some true
    → files.canonical (root ++ rest) ≡ some path
    → files.canonical root ≡ some dir
    → contains (files.filename dir) path ≡ true
    → files.read_file path ≡ some bytes
    → files.extension path ≢ codes ".md"
    → static_handle files p root request (some r)
      ≡ returned ok (
          some (record {
            status = codes "HTTP/1.1 200 OK";
            raw_status = some Response.ok;
            headers = r.headers ++ (content_type, get_mime_type (files.extension path)) ∷ [];
            body = bytes;
          }))
unfolding static_handle
static_handle_file files p root rest path dir bytes request r e ne x g c d k b md =
    rw (e, extends-append p rest ne, drop-append, x, g, c, d, k, b, differs)
  where
    differs : equal (files.extension path) (codes ".md") ≡ false
    differs = ground (arith, equal_iff (files.extension path) (codes ".md"))

-- an answer that serves a file: its path holds the name of the root's last directory
pub record IsServed (files : Files) (uri p root : Text) (r' : Response) : Type 0 where
  pub path : Text
  pub dir : Text
  pub bytes : Text
  pub below : extends uri p ≡ true
  pub exists : files.exists (root ++ drop (length p) uri) ≡ some true
  pub regular : files.is_regular_file (root ++ drop (length p) uri) ≡ some true
  pub canonical : files.canonical (root ++ drop (length p) uri) ≡ some path
  pub canonical_root : files.canonical root ≡ some dir
  pub named : contains (files.filename dir) path ≡ true
  pub opened : files.read_file path ≡ some bytes
  pub shown : (r'.body ≡ bytes) ⊎ (files.render bytes ≡ some r'.body)

send-shown :
    (files : Files) (path bytes : Text) (r r' : Response)
    → send files path bytes r ≡ returned ok (some r')
    → (r'.body ≡ bytes) ⊎ (files.render bytes ≡ some r'.body)
unfolding set_status add_header set_body
send-shown files path bytes r r' h = ground arith

module _ (files : Files) (r r' : Response) where
  sound_open :
      (path : Text) (o : Option Text)
      → files.read_file path ≡ o
      → send_if_open files path o r ≡ returned ok (some r')
      → (r' ≡ not_found_response r)
        ⊎ ((bytes : Text) × (files.read_file path ≡ some bytes)
            × ((r'.body ≡ bytes) ⊎ (files.render bytes ≡ some r'.body)))
  sound_open path none e h = inl cc
  sound_open path (some bytes) e h = inr (bytes, e, send-shown files path bytes r r' h)

  sound_within :
      (uri p root : Text) (file dir : Option Text)
      → extends uri p ≡ true
      → files.exists (root ++ drop (length p) uri) ≡ some true
      → files.is_regular_file (root ++ drop (length p) uri) ≡ some true
      → files.canonical (root ++ drop (length p) uri) ≡ file
      → files.canonical root ≡ dir
      → send_within files file dir r ≡ returned ok (some r')
      → (r' ≡ not_found_response r) ⊎ IsServed files uri p root r'
  sound_within uri p root none dir x g k c d h = cc
  sound_within uri p root (some path) none x g k c d h = cc
  sound_within uri p root (some path) (some dir) x g k c d h =
      elim (Bool-cases (contains (files.filename dir) path)) [
        | inr e ↦ inl (cc (rw e at h))
        | inl e ↦ elim (sound_open path (files.read_file path) refl (rw e at h)) [
          | inl missing ↦ inl missing
          | inr (bytes, opened, shown) ↦ inr (record {
            path = path;
            dir = dir;
            bytes = bytes;
            below = x;
            exists = g;
            regular = k;
            canonical = c;
            canonical_root = d;
            named = e;
            opened = opened;
            shown = shown;
          })
        ]
      ]

module _ (files : Files) (r r' : Response) where
  sound_regular :
      (uri p root : Text) (o : Option Bool)
      → extends uri p ≡ true
      → files.exists (root ++ drop (length p) uri) ≡ some true
      → files.is_regular_file (root ++ drop (length p) uri) ≡ o
      → send_regular files (root ++ drop (length p) uri) root o r ≡ returned ok (some r')
      → (r' ≡ not_found_response r) ⊎ IsServed files uri p root r'
  sound_regular uri p root none x g k h = cc
  sound_regular uri p root (some false) x g k h = inl cc
  sound_regular uri p root (some true) x g k h =
      sound_within files r r' uri p root _ _ x g k refl refl h

  sound_existing :
      (uri p root : Text) (o : Option Bool)
      → extends uri p ≡ true
      → files.exists (root ++ drop (length p) uri) ≡ o
      → send_existing files (root ++ drop (length p) uri) root o r ≡ returned ok (some r')
      → (r' ≡ not_found_response r) ⊎ IsServed files uri p root r'
  sound_existing uri p root none x g h = cc
  sound_existing uri p root (some false) x g h = inl cc
  sound_existing uri p root (some true) x g h = sound_regular uri p root _ x g refl h

-- An answer that the handler returns with OK is the page of the `NotFoundHandler`, or the contents of
-- a regular file, rendered or not, whose canonical path holds the name of the root's directory.
pub static_handle_sound :
    (files : Files) (p root : Text) (request : Request) (r r' : Response)
    → static_handle files p root request (some r) ≡ returned ok (some r')
    → (r' ≡ not_found_response r) ⊎ IsServed files request.uri p root r'
unfolding static_handle
static_handle_sound files p root request r r' h = elim (Bool-cases (extends request.uri p)) [
  | inr x ↦ cc (rw x at h)
  | inl x ↦ sound_existing files r r' request.uri p root _ x refl (rw x at h)
]
