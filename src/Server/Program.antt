-- ===== src/Server/Program.antt =====
-- src/main.cc: the program. The files and the arguments are given, and the acceptor opens without an
-- exception.
pub mod Safety
pub mod Crashes
pub mod Serving
pub mod Samples
mod Tests
use spaceteam.Common.{ℕ, ◌+◌, ◌==◌, Text, List, length, [], ◌∷◌, Option, none, some, if◌then◌else◌}
use spaceteam.Handler.Base.{Handler}
use spaceteam.Server.{Loading, loaded, refused, Server, make_server}
use spaceteam.Server.Loop.{Running, opened}

-- What the program comes to: it returns a number, or a server is made and runs; or it throws, is
-- undefined, or never returns.
pub data Program : Type 0 where
  returned : ℕ → Program
  serving : Running Handler → Program
  threw fault diverged : Program

abbrev pub run_server : Loading Server → Program
run_server (loaded server) = serving (opened server.server_status server.uri_prefix_to_handler)
run_server refused = returned 1
run_server Loading.threw = Program.threw
run_server Loading.fault = Program.fault
run_server Loading.diverged = Program.diverged

-- `main`: `argv` holds the program's name and its arguments.
unfoldable pub main : (Text → Option Text) → List Text → Program
unfolding make_server
main read_file [] = Program.fault
main read_file (name ∷ config_file ∷ []) = run_server (make_server (read_file config_file))
main read_file _ = returned 1

-- The end of `run`, where the threads have nothing left to wait for and none is at work, and of
-- `main` behind it.
abbrev pub after_run : {H : Type 0} → Running H → Option ℕ
after_run t =
    if t.accepting + t.reading + t.writing + t.busy + length t.answering == 0 then some 0 else none
