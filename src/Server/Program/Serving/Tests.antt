-- ===== src/Server/Program/Serving/Tests.antt =====
-- What a server with a StaticHandler answers.
use spaceteam.Common.{codes, [], ◌∷◌, equal, less, find, assign, text_order, refl, some, ◌≡◌}
use spaceteam.Connection.Reads.{handle_bytes}
use spaceteam.Connection.{done, async_write, finish}
use spaceteam.Handler.Base.{Handler, static}
use spaceteam.Handler.Dispatch.{handle_request}
use spaceteam.Handler.Files.{get_mime_type}
use spaceteam.Handler.Samples.{
  around, get, get-IsValid, get-NoReferer, table-IsBest, buckets-IsBest,
}
use spaceteam.Handler.Served.Stored.{page}
use spaceteam.Http.Characters.{is_ctl}
use spaceteam.Http.Request.Message.{request_text, read_back}
use spaceteam.Http.Response.{ResponseCode, empty_response}
use spaceteam.Server.Loop.Handlers.{SameButHost}
use spaceteam.Server.Program.Samples.{
  argv, static_file, static_started, static_run, one_accept, object_file, object_started,
  object_run, accept_object,
}
use spaceteam.Server.Program.Serving.{main_routes, main_serves_file, main_serves_object}
use spaceteam.Status.{update_status}

main_routes_example :
    (h' : Handler) × SameButHost (static (codes "/") (codes "/r/")) h'
    × (handle_bytes
          (handle_request around)
          ResponseCode.ok
          (request_text (get (codes "x")))
          static_started.server_status
          static_started.handlers
        ≡ finish
            (handle_request around)
            ResponseCode.ok
            (codes "/x")
            static_started.server_status
            static_started.handlers
            (codes "/")
            (handle_request around h'
              (read_back (get (codes "x")) (some static_started.server_status))
              empty_response))
unfolding is_ctl
main_routes_example =
    main_routes (λ path. static_file) around argv static_run one_accept ResponseCode.ok
      (get (codes "x")) (codes "/") (static (codes "/") (codes "/r/"))
      (get-IsValid b'x' (refl, refl)) (get-NoReferer (codes "x")) table-IsBest

main_serves_file_example :
    handle_bytes
      (handle_request around)
      ResponseCode.ok
      (request_text (get (codes "x")))
      static_started.server_status
      static_started.handlers
    ≡ done
        (async_write (page (codes "image/gif") (codes "hi")) ∷ [])
        (update_status (codes "/x") ResponseCode.ok static_started.server_status)
        static_started.handlers
unfolding is_ctl assign equal less find get_mime_type
main_serves_file_example =
    main_serves_file (λ path. static_file) around argv static_run one_accept ResponseCode.ok
      (get (codes "x")) (codes "/") (codes "/") (codes "/r/") (codes "x") (codes "/r/x")
      (codes "hi") (get-IsValid b'x' (refl, refl)) (get-NoReferer (codes "x")) table-IsBest refl
      (λ e. cc)
      (record {
        dir = codes "/r/";
        exists = refl;
        regular = refl;
        canonical = refl;
        canonical_root = refl;
        named = refl;
        opened = refl;
        not_markdown = λ e. cc;
      })

-- Under the prefix "/" the byte that is dropped is the first one of the key.
main_serves_object_example :
    handle_bytes
      (handle_request around)
      ResponseCode.ok
      (request_text (get (codes "x")))
      object_started.server_status
      object_started.handlers
    ≡ done
        (async_write (page (codes "text/html") (codes "<p>\nhi\n</p>")) ∷ [])
        (update_status (codes "/x") ResponseCode.ok object_started.server_status)
        object_started.handlers
unfolding is_ctl assign equal less
main_serves_object_example =
    main_serves_object (λ path. object_file) around argv object_run accept_object ResponseCode.ok
      (get (codes "x")) (codes "/") (codes "/") (codes "b") [] (codes "<p>\nhi\n</p>") b'x'
      (get-IsValid b'x' (refl, refl)) (get-NoReferer (codes "x")) buckets-IsBest refl refl
      (refl, (refl, (refl, (refl, (refl, (refl, (refl, (refl, (refl, (refl, (refl, tt)))))))))))
