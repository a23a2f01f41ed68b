-- ===== src/Server/Program/Serving.antt =====
-- What the program answers, whatever it has answered before.
mod Tests
use spaceteam.Common.{
  ℕ, Text, codes, Bool, true, false, List, [], ◌∷◌, ◌++◌, Option, none, some, length, ◌<◌, Map,
  find, assign, text_order, Option-cases, inl, inr, ◌≡◌, ◌≢◌, refl, ap, sym, ◌∙◌, subst,
}
use spaceteam.Connection.Choice.{IsBest}
use spaceteam.Connection.Messages.{NoReferer, handle_bytes_best}
use spaceteam.Connection.Reads.{handle_bytes}
use spaceteam.Connection.{done, async_write, finish}
use spaceteam.Handler.Base.{Handler, static, s3}
use spaceteam.Handler.Dispatch.{Surroundings, handle_request}
use spaceteam.Common.{NoZero}
use spaceteam.Handler.Bucket.{command}
use spaceteam.Handler.Files.{get_mime_type}
use spaceteam.Handler.Served.Stored.{page, IsFile, read_file, read_object}
use spaceteam.Http.Request.Message.{Message, IsValid, request_text, read_back}
use spaceteam.Http.Response
use spaceteam.Http.Response.{ResponseCode, empty_response}
use spaceteam.Server.Handlers.{HasPrefix}
use spaceteam.Server.Loop.Handlers.{SameButHost}
use spaceteam.Server.Loop.Names.{has, Reach-Agrees}
use spaceteam.Server.Loop.{Running, running, Event, Reach}
use spaceteam.Server.Program.Crashes.{main_handlers}
use spaceteam.Server.Program.{serving, main}
use spaceteam.Server.Tables.{is_some}
use spaceteam.Status.{update_status}

is_some-true : {A : Type 0} (o : Option A) → is_some o ≡ true → (a : A) × (o ≡ some a)
is_some-true none e = cc
is_some-true (some a) e = (a, refl)

is_some-false : {A : Type 0} (o : Option A) → is_some o ≡ false → o ≡ none
is_some-false none e = refl
is_some-false (some a) e = cc

module _ (config : Text → Option Text) (around : Surroundings) (argv : List Text)
    {s : Running Handler} (started : main config argv ≡ serving s) {es : List Event}
    {t : Running Handler} (r : Reach (handle_request around) s es (running t)) where
  -- The best prefix of a path stays the best one.
  IsBest-later :
      (uri q : Text) (h : Handler)
      → IsBest s.handlers uri q h
      → (h' : Handler) × IsBest t.handlers uri q h' × SameButHost h h'
  IsBest-later uri q h best =
      let names = (Reach-Agrees (handle_request around) r).0 in
      let (h', at) = is_some-true (find q t.handlers) (names q ∙ ap is_some best.registered) in
      let (own, (origin, there, alike)) = main_handlers config around argv started r q h' at in
      let same : h ≡ origin = some_inj (sym best.registered ∙ there) in
      (
        h',
        record {
          prefix = best.prefix;
          registered = at;
          longest = λ p pre longer.
              is_some-false (find p t.handlers) (names p ∙ ap is_some (best.longest p pre longer));
        },
        subst (λ g. SameButHost g h') (sym same) alike,
      )
    where
      some_inj : {a b : Handler} → some a ≡ some b → a ≡ b
      some_inj e = cc

  -- Whatever a server that the program has started has done before: a read of a well-formed request
  -- without a `Referer` calls the handler with which the longest prefix of its path that the server
  -- has started with was registered, which is the same object but for the host of a proxy, and answers
  -- and counts what that handler returns.
  pub main_routes :
      (indeterminate : ResponseCode) (m : Message) (q : Text) (h : Handler)
      → IsValid m
      → NoReferer m.headers
      → IsBest s.handlers (b'/' ∷ m.path) q h
      → (h' : Handler) × SameButHost h h'
        × (handle_bytes
              (handle_request around)
              indeterminate
              (request_text m)
              t.server_status
              t.handlers
            ≡ finish
                (handle_request around)
                indeterminate
                (b'/' ∷ m.path)
                t.server_status
                t.handlers
                q
                (handle_request around h' (read_back m (some t.server_status)) empty_response))
  main_routes indeterminate m q h valid none_refers best =
      let (h', later, alike) = IsBest-later (b'/' ∷ m.path) q h best in
      (
        h',
        alike,
        handle_bytes_best (handle_request around) indeterminate m t.server_status t.handlers q h'
            valid none_refers later,
      )

  -- Whatever a server that the program has started has done before: a read of a well-formed request
  -- without a `Referer`, whose path is the longest prefix `q` of it that the server has started with,
  -- where `q` has a `StaticHandler`, and something behind it, which names a regular file below the
  -- handler's root that can be opened, is not Markdown, and has the name of the root's directory in
  -- its canonical path, writes a page with the bytes of the file and the type for its extension,
  -- counts the URI with code 200, and leaves the handler as it is.
  pub main_serves_file :
      (indeterminate : ResponseCode) (m : Message) (p q root rest path bytes : Text)
      → IsValid m
      → NoReferer m.headers
      → IsBest s.handlers (b'/' ∷ m.path) q (static p root)
      → b'/' ∷ m.path ≡ q ++ rest
      → rest ≢ []
      → IsFile around.files root rest path bytes
      → handle_bytes
          (handle_request around)
          indeterminate
          (request_text m)
          t.server_status
          t.handlers
        ≡ done
            (async_write (page (get_mime_type (around.files.extension path)) bytes) ∷ [])
            (update_status (b'/' ∷ m.path) Response.ok t.server_status)
            (assign q (static q root) t.handlers)
  main_serves_file indeterminate m p q root rest path bytes valid none_refers best at ne f =
      let (h', later, alike) = IsBest-later (b'/' ∷ m.path) q (static p root) best in
      let (own, _) = main_handlers config around argv started r q h' later.registered in
      let p_is_q : p ≡ q = subst (HasPrefix q) alike own in
      let here =
        subst (IsBest t.handlers (b'/' ∷ m.path) q) (alike ∙ ap (λ x. static x root) p_is_q)
          later in
      read_file around indeterminate m t.server_status t.handlers q root rest path bytes valid
        none_refers here at ne f

  -- Whatever a server that the program has started has done before: a read of a well-formed request
  -- without a `Referer`, whose path is the longest prefix `q` of it that the server has started with,
  -- where `q` has an `S3Handler`, one more byte, and a key, if the command for the handler's bucket
  -- and the key starts and no byte of its output is zero, writes an HTML page with the output, counts
  -- the URI with code 200, and leaves the handler as it is.
  pub main_serves_object :
      (indeterminate : ResponseCode) (m : Message) (p q bucket key output : Text) (c : ℕ)
      → IsValid m
      → NoReferer m.headers
      → IsBest s.handlers (b'/' ∷ m.path) q (s3 p bucket)
      → b'/' ∷ m.path ≡ q ++ c ∷ key
      → around.popen (command bucket key) ≡ some output
      → NoZero output
      → handle_bytes
          (handle_request around)
          indeterminate
          (request_text m)
          t.server_status
          t.handlers
        ≡ done
            (async_write (page (codes "text/html") output) ∷ [])
            (update_status (b'/' ∷ m.path) Response.ok t.server_status)
            (assign q (s3 q bucket) t.handlers)
  main_serves_object indeterminate m p q bucket key output c valid none_refers best at run clean =
      let (h', later, alike) = IsBest-later (b'/' ∷ m.path) q (s3 p bucket) best in
      let (own, _) = main_handlers config around argv started r q h' later.registered in
      let p_is_q : p ≡ q = subst (HasPrefix q) alike own in
      let here =
        subst (IsBest t.handlers (b'/' ∷ m.path) q) (alike ∙ ap (λ x. s3 x bucket) p_is_q) later in
      read_object around indeterminate m t.server_status t.handlers q bucket key output c valid
        none_refers here at run clean
