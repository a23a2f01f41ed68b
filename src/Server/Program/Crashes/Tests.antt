-- ===== src/Server/Program/Crashes/Tests.antt =====
-- A request that ends the server, and the handlers of a server with a StaticHandler.
use spaceteam.Common.{Text, codes, List, [], ◌∷◌, some, equal, find, text_order, false, ◌≡◌, refl}
use spaceteam.Handler.Base.{Handler, static}
use spaceteam.Handler.Samples.{around}
use spaceteam.Http.Response.{ResponseCode}
use spaceteam.Server.Handlers.{HasPrefix}
use spaceteam.Server.Loop.Handlers.{SameButHost}
use spaceteam.Server.Loop.{Event, accepted, read}
use spaceteam.Server.Program.Crashes.{main_handlers}
use spaceteam.Server.Program.Samples.{static_file, static_started, static_run, one_accept, argv}

abbrev bytes : Text
bytes = codes "GET /a HTTP/1.1\r\nReferer: a:\r\n\r\n"

abbrev events : List Event
events = read ResponseCode.ok false bytes ∷ accepted false ∷ []

main_handlers_example :
    HasPrefix (codes "/") (static (codes "/") (codes "/r/"))
    × ((origin : Handler) × (find (codes "/") static_started.handlers ≡ some origin)
        × SameButHost origin (static (codes "/") (codes "/r/")))
unfolding find equal
main_handlers_example =
    main_handlers (λ path. static_file) around argv static_run one_accept (codes "/")
      (static (codes "/") (codes "/r/")) refl
