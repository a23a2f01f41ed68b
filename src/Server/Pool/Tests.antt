-- ===== src/Server/Pool/Tests.antt =====
-- A connection that is accepted, read and answered with a page.
use spaceteam.Common.{
  ℕ, Text, codes, false, List, [], ◌∷◌, equal, find, assign, less, refl, text_order, arith,
}
use spaceteam.Connection.{answer_read, referred_prefix, search, do_write}
use spaceteam.Handler.Dispatch.{handle_request}
use spaceteam.Handler.Samples.{around, handlers}
use spaceteam.Http.Characters.{is_char, is_ctl, is_tspecial, is_digit}
use spaceteam.Http.Request.{parse}
use spaceteam.Http.Response.{ResponseCode, to_string, get_response_code}
use spaceteam.Server.Loop.{Event, accepted, read}
use spaceteam.Server.Pool.Lives.{LifeAt}
use spaceteam.Server.Pool.Safety.{Run-Life}
use spaceteam.Server.Pool.{
  to_write, Connection, new_connection, counting, Pool, going, begin_on, handle_read_on,
  opened_pool, accept_ends, read_ends, Run, here, next,
}
use spaceteam.Handler.Base.{Handler}
use spaceteam.Server.{handle_accept}
use spaceteam.Status.{new_status}

abbrev bytes : Text
bytes = codes "GET /e HTTP/1.1\r\n\r\n"

abbrev steps : List (ℕ × Event)
steps = (0, read ResponseCode.ok false bytes) ∷ (0, accepted false) ∷ []

abbrev answering : Connection
answering = record { waits = to_write }

abbrev after_steps : Pool Handler
after_steps = record {
  connections = answering ∷ new_connection ∷ [];
  threads = counting 0 (codes "/e") ResponseCode.ok ∷ [];
  server_status = new_status;
  handlers = handlers;
  written =
      (0, codes "HTTP/1.1 200 OK\r\nContent-Type: text/plain\r\n\r\nGET /e HTTP/1.1\r\n\r\n") ∷ [];
}

run_steps : Run (handle_request around) (opened_pool new_status handlers) steps (going after_steps)
unfolding begin_on handle_read_on handle_accept answer_read parse is_char is_ctl is_tspecial
    is_digit referred_prefix search find equal assign less handle_request do_write to_string
    get_response_code
run_steps =
    next (next here (accept_ends 0 false (new_connection, refl, refl) (omega arith) refl))
      (read_ends 0 ResponseCode.ok false bytes (_, refl, refl) (omega arith) (omega arith) refl)

Run-Life_example : LifeAt 0 steps answering.waits after_steps.threads after_steps.written
Run-Life_example = Run-Life (handle_request around) new_status handlers 0 answering run_steps refl
