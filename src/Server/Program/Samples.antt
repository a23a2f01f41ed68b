-- ===== src/Server/Program/Samples.antt =====
-- A server of a small configuration file.
use spaceteam.Common.{
  false, arith, Text, codes, List, [], ◌∷◌, Option, some, equal, less, find, assign, text_order,
  pos, ◌≡◌, refl,
}
use spaceteam.Config.Parser.{run}
use spaceteam.Handler.Base.{Handler, static, s3, not_found, init, static_init, s3_init}
use spaceteam.Handler.Dispatch.{handle_request}
use spaceteam.Handler.Samples.{around}
use spaceteam.Server.Loop.{Running, running, accepted, begin, Reach, here, next, take_accept}
use spaceteam.Server.Program.{main, serving}
use spaceteam.Server.{ServerInfo, get_server_info, make_server, new_server, handle_accept}
use spaceteam.Status.{ServerStatus, new_status, add_handler_info}

abbrev pub file : Option Text
file = some (codes "port 80; path /a EchoHandler { } default NotFoundHandler { }")

abbrev pub info : ServerInfo
info = record {
  port = pos 80;
  uri_prefix_to_handler = (codes "/a", Handler.echo) ∷ (codes "default", Handler.not_found) ∷ [];
  handler_name_to_prefixes =
      (codes "EchoHandler", codes "/a" ∷ []) ∷ (codes "NotFoundHandler", codes "default" ∷ []) ∷ [];
}

abbrev pub argv : List Text
argv = codes "spaceteam" ∷ codes "config" ∷ []

abbrev pub listed : ServerStatus
listed = record new_status { handler_name_to_prefixes = info.handler_name_to_prefixes }

abbrev pub started : Running Handler
started = record {
  accepting = 1;
  reading = 0;
  writing = 0;
  busy = 0;
  answering = [];
  server_status = listed;
  handlers = info.uri_prefix_to_handler;
  written = [];
}

pub main_run : main (λ path. file) argv ≡ serving started
unfolding main make_server get_server_info run equal find assign less new_server add_handler_info
    begin
main_run = refl

-- a server with a StaticHandler, which accepts a connection
abbrev pub static_file : Option Text
static_file = some (codes "port 80; path / StaticHandler { root /r/; } default NotFoundHandler { }")

abbrev pub static_started : Running Handler
static_started = record started {
  server_status = record new_status {
    handler_name_to_prefixes =
        (codes "NotFoundHandler", codes "default" ∷ [])
        ∷ (codes "StaticHandler", codes "/" ∷ [])
        ∷ [];
  };
  handlers = (codes "/", static (codes "/") (codes "/r/")) ∷ (codes "default", not_found) ∷ [];
}

pub static_run : main (λ path. static_file) argv ≡ serving static_started
unfolding main make_server get_server_info run equal find assign less new_server add_handler_info
    begin init static_init
static_run = refl

pub one_accept :
    Reach
      (handle_request around)
      static_started
      (accepted false ∷ [])
      (running (record static_started { reading = 1 }))
unfolding begin handle_accept
one_accept = next here (take_accept false (omega arith) (omega arith) refl)

-- a server with an S3Handler, which accepts a connection
abbrev pub object_file : Option Text
object_file = some (codes "port 80; path / S3Handler { bucket b; } default NotFoundHandler { }")

abbrev pub object_started : Running Handler
object_started = record static_started {
  server_status = record new_status {
    handler_name_to_prefixes =
        (codes "NotFoundHandler", codes "default" ∷ []) ∷ (codes "S3Handler", codes "/" ∷ []) ∷ [];
  };
  handlers = (codes "/", s3 (codes "/") (codes "b")) ∷ (codes "default", not_found) ∷ [];
}

pub object_run : main (λ path. object_file) argv ≡ serving object_started
unfolding main make_server get_server_info run equal find assign less new_server add_handler_info
    begin init s3_init
object_run = refl

pub accept_object :
    Reach
      (handle_request around)
      object_started
      (accepted false ∷ [])
      (running (record object_started { reading = 1 }))
unfolding begin handle_accept
accept_object = next here (take_accept false (omega arith) (omega arith) refl)
