-- ===== src/Server/Tests.antt =====
-- The table of a small configuration file.
use spaceteam.Common.{
  arith, Text, codes, [], ◌∷◌, ◌≡◌, ◌≢◌, refl, Option, some, equal, less, find, assign, text_order,
  pos,
}
use spaceteam.Config.Syntax.{Config, nil, cons, simple, block, append}
use spaceteam.Config.Parser.{parse_file, accepted, run}
use spaceteam.Handler.Base.{Handler}
use spaceteam.Server.Loop.{accepted}
use spaceteam.Status.{decimal_from}
use spaceteam.Server.Port.{make_server-port, make_server-endpoint}
use spaceteam.Server.{ServerInfo, loaded, get_server_info, make_server, new_server}
use spaceteam.Server.Info.{
  IsHandlerOf, path_statement, get_server_info-registers, get_server_info-duplicate,
}

abbrev file : Option Text
file = some (codes "port 80; path /a EchoHandler { } default NotFoundHandler { }")

abbrev port_80 : Config
port_80 = cons (simple (codes "port" ∷ codes "80" ∷ [])) nil

abbrev last_default : Config
last_default = cons (block (codes "default" ∷ codes "NotFoundHandler" ∷ []) nil) nil

parse_file_sample :
    parse_file file
    ≡ accepted
        (append port_80 (cons (path_statement (codes "/a") (codes "EchoHandler") nil) last_default))
unfolding parse_file run
parse_file_sample = refl

abbrev info : ServerInfo
info = record {
  port = pos 80;
  uri_prefix_to_handler = (codes "/a", Handler.echo) ∷ (codes "default", Handler.not_found) ∷ [];
  handler_name_to_prefixes =
      (codes "EchoHandler", codes "/a" ∷ []) ∷ (codes "NotFoundHandler", codes "default" ∷ []) ∷ [];
}

get_server_info_sample : get_server_info file ≡ loaded info
unfolding get_server_info run equal find assign less
get_server_info_sample = refl

get_server_info-registers_example :
    IsHandlerOf
      (codes "/a")
      (codes "EchoHandler")
      nil
      (find (codes "/a") info.uri_prefix_to_handler)
unfolding equal
get_server_info-registers_example =
    get_server_info-registers file port_80 (codes "/a") (codes "EchoHandler") nil last_default info
      parse_file_sample get_server_info_sample refl

abbrev twice : Option Text
twice = some (codes "path /a EchoHandler { } port 80; path /a HoldingHandler { }")

parse_file-twice :
    parse_file twice
    ≡ accepted (
        append nil (
          cons
            (path_statement (codes "/a") (codes "EchoHandler") nil)
            (append port_80 (cons (path_statement (codes "/a") (codes "HoldingHandler") nil) nil))))
unfolding parse_file run
parse_file-twice = refl

get_server_info-duplicate_example : get_server_info twice ≢ loaded info
unfolding equal
get_server_info-duplicate_example =
    get_server_info-duplicate twice nil (codes "/a") (codes "EchoHandler") (codes "HoldingHandler")
      nil nil port_80 nil info parse_file-twice refl

make_server_sample : make_server file ≡ loaded (new_server info)
unfolding make_server get_server_info run equal find assign less
make_server_sample = refl

make_server-port_example : (new_server info).port ≡ pos 80
unfolding parse_file run new_server decimal_from
make_server-port_example =
    make_server-port file nil 80
      (cons (path_statement (codes "/a") (codes "EchoHandler") nil) last_default) (new_server info)
      refl (omega arith) make_server_sample

-- port 65616 is listened on as 80
abbrev far_file : Option Text
far_file = some (codes "port 65616;")

make_server-endpoint_example :
    (new_server (record info {
      port = pos 65616;
      uri_prefix_to_handler = [];
      handler_name_to_prefixes = [];
    })).endpoint
    ≡ 80
unfolding parse_file run make_server get_server_info new_server decimal_from equal
make_server-endpoint_example = make_server-endpoint far_file nil 65616 nil _ refl (omega arith) refl
