-- ===== src/Server/Program/Tests.antt =====
-- Runs of the server on a small configuration file, and on a table of handlers.
use spaceteam.Common.{
  ℕ, ◌+◌, ◌%◌, arith, true, false, List, length, Text, codes, [], ◌∷◌, ◌≡◌, refl, equal, less, find,
  assign, text_order,
}
use spaceteam.Config.Parser.{accepted}
use spaceteam.Handler.Base.{Handler}
use spaceteam.Connection.{answer_read, referred_prefix, search, do_write}
use spaceteam.Http.Request.{parse}
use spaceteam.Handler.Dispatch.{handle_request}
use spaceteam.Handler.Samples.{
  around, handlers, get, get-IsValid, get-NoReferer, echo-IsBest, holding-IsBest,
}
use spaceteam.Http.Characters.{is_char, is_ctl, is_tspecial, is_digit}
use spaceteam.Http.Request.Message.{request_text}
use spaceteam.Http.Response.{ResponseCode, to_string, get_response_code}
use spaceteam.Server.Loop.Invariant.{accepts, failed_accepts, failed_reads, writes, updates}
use spaceteam.Server.Loop.Progress.{replicate, holding_stops, echo_answered}
use spaceteam.Server.Loop.Safety.{served_once}
use spaceteam.Server.Loop.{
  Running, Process, running, Event, accepted, read, wrote, Step, take_accept, take_read, take_write,
  take_update, updated, Reach, here, next, after_read, begin,
}
use spaceteam.Server.Program.Samples.{file, info, argv, listed, started, main_run}
use spaceteam.Server.Loop.History.{Answers, counted_of}
use spaceteam.Server.Program.Safety.{main_tables, main_ends, main_counts}
use spaceteam.Server.Tables.{is_some, is_listed}
use spaceteam.Status.Counts.{count_of, occurrences}
use spaceteam.Status.{new_status, update_status, unsigned_mod}
use spaceteam.Server.{handle_accept}

-- a server on the table of the samples, with its threads free and connections to read
abbrev at_work : Running Handler
at_work = record {
  accepting = 1;
  reading = 5;
  writing = 0;
  busy = 0;
  answering = [];
  server_status = new_status;
  handlers = handlers;
  written = [];
}

holding_stops_example :
    (t : Running Handler) × Reach
      (handle_request around)
      at_work
      (replicate 5 (read ResponseCode.ok false (request_text (get (codes "h")))))
      (running t)
    × ((e : Event) (p : Process Handler) → ¬ Step (handle_request around) t e p)
unfolding is_ctl
holding_stops_example =
    holding_stops around ResponseCode.ok (get (codes "h")) at_work (codes "/h") 5
      (get-IsValid b'h' (refl, refl)) (get-NoReferer (codes "h")) (omega arith) holding-IsBest refl
      refl (omega arith)

abbrev answer : Text
answer = codes "HTTP/1.1 200 OK\r\nContent-Type: text/plain\r\n\r\nGET /e HTTP/1.1\r\nA: b\r\n\r\n"

echo_answered_example :
    Reach
      (handle_request around)
      at_work
      (wrote false
        ∷ updated (codes "/e") ResponseCode.ok
        ∷ read ResponseCode.ok false (request_text (get (codes "e")))
        ∷ [])
      (running (record at_work {
        reading = 4;
        server_status = update_status (codes "/e") ResponseCode.ok new_status;
        handlers = handlers;
        written = answer ∷ [];
      }))
unfolding is_ctl assign equal
echo_answered_example =
    echo_answered around ResponseCode.ok (get (codes "e")) at_work (codes "/e") false
      (get-IsValid b'e' (refl, refl)) (get-NoReferer (codes "e")) (omega arith) echo-IsBest
      (omega arith) (omega arith)

-- one connection that is accepted, read and answered, and an accept that fails
abbrev page : Text
page = codes "HTTP/1.1 200 OK\r\nContent-Type: text/plain\r\n\r\nGET /a HTTP/1.1\r\n\r\n"

abbrev over : Running Handler
over = record started {
  accepting = 0;
  server_status = update_status (codes "/a") ResponseCode.ok listed;
  written = page ∷ [];
}

abbrev events : List Event
events =
    updated (codes "/a") ResponseCode.ok
    ∷ wrote false
    ∷ accepted true
    ∷ read ResponseCode.ok false (codes "GET /a HTTP/1.1\r\n\r\n")
    ∷ accepted false
    ∷ []

all_steps : Reach (handle_request around) started events (running over)
unfolding begin after_read handle_accept answer_read parse is_char is_ctl is_tspecial is_digit
    referred_prefix search find equal assign less handle_request do_write to_string
    get_response_code
all_steps =
    next
      (next
        (next
          (next (next here (take_accept false (omega arith) (omega arith) refl)) (
            take_read ResponseCode.ok false (codes "GET /a HTTP/1.1\r\n\r\n") (omega arith)
              (omega arith) (omega arith) refl))
          (take_accept true (omega arith) (omega arith) refl))
        (take_write false (omega arith) (omega arith) refl))
      (take_update [] [] (codes "/a") ResponseCode.ok refl refl)

main_tables_example :
    is_some (find (codes "/a") over.handlers)
    ≡ is_listed (codes "/a") over.server_status.handler_name_to_prefixes
main_tables_example = main_tables (λ path. file) around argv main_run all_steps (codes "/a")

abbrev exit_code : ℕ
exit_code = 0

main_ends_example :
    (exit_code ≡ 0)
    × (failed_accepts events ≡ 1)
    × (accepts events ≡ failed_reads events + writes events)
    × (over.server_status.num_requests ≡ writes events % unsigned_mod)
main_ends_example = main_ends (λ path. file) around argv main_run all_steps exit_code refl

served_once_example :
    (accepts events ≡ over.reading + over.busy + length over.written + failed_reads events)
    × (length over.written ≡ over.writing + writes events)
    × (length over.written ≡ length over.answering + updates events)
    × (over.accepting + failed_accepts events ≡ 1)
unfolding begin
served_once_example =
    served_once (handle_request around) listed info.uri_prefix_to_handler all_steps

main_counts_example :
    (asked : List (Text × ResponseCode)) × Answers events asked over.written
    × ((uri : Text) (code : ℕ)
        → occurrences uri code (counted_of events) + occurrences uri code over.answering
          ≡ occurrences uri code asked)
    × (length (counted_of events) + length over.answering ≡ length over.written)
    × ((uri : Text) (code : ℕ)
        → count_of uri code over.server_status
          ≡ occurrences uri code (counted_of events) % unsigned_mod)
    × (over.server_status.num_requests ≡ length (counted_of events) % unsigned_mod)
main_counts_example = main_counts (λ path. file) around argv main_run all_steps
