-- ===== src/Server/Program/Safety.antt =====
-- What holds of the program from its start.
use spaceteam.Common.{
  number_order, ap, length, ◌∙◌, ℕ, ◌+◌, ◌%◌, ◌==◌, Text, List, [], ◌∷◌, Option, some, find,
  text_order, Bool-cases, inl, inr, ◌≡◌, refl, sym, arith, subst,
}
use spaceteam.Handler.Base.{Handler}
use spaceteam.Handler.Dispatch.{Surroundings, handle_request}
use spaceteam.Server.Loop.{Running, running, Event, begin, Reach, opened}
use spaceteam.Server.Loop.Invariant.{Inv, accepts, failed_accepts, failed_reads, writes}
use spaceteam.Server.Loop.Names.{Reach-Agrees}
use spaceteam.Server.Loop.Safety.{Reach-Inv}
use spaceteam.Server.Program.{serving, main, after_run, run_server}
use spaceteam.Server.Tables.{is_some, is_listed, make_server-tables}
use spaceteam.Server.{
  Loading, loaded, refused, Server, make_server, new_server, get_server_info, ◌and_then◌,
  ServerInfo,
}
use spaceteam.Server.Loop.History.{Answers, no_answer, counted_of, Recorded, Reach-RecordedIn}
use spaceteam.Http.Response.{ResponseCode}
use spaceteam.Status.Counts.{
  count_of, value, occurrences, count_of-record_all, num_requests-record_all,
}
use spaceteam.Status.{ServerStatus, codes_of, unsigned_mod, add_handler_info}

-- A server that runs was made from the file of the one argument.
module _ (read_file : Text → Option Text) where
  run_server-serving :
      (l : Loading Server) (s : Running Handler)
      → run_server l ≡ serving s
      → (server : Server) × (l ≡ loaded server)
        × (s ≡ opened server.server_status server.uri_prefix_to_handler)
  run_server-serving (loaded server) s e = (server, refl, cc)
  run_server-serving refused s e = cc
  run_server-serving Loading.threw s e = cc
  run_server-serving Loading.fault s e = cc
  run_server-serving Loading.diverged s e = cc

  pub main-serving :
      (argv : List Text) (s : Running Handler)
      → main read_file argv ≡ serving s
      → (file : Option Text) × (server : Server) × (make_server file ≡ loaded server)
        × (s ≡ opened server.server_status server.uri_prefix_to_handler)
  unfolding main
  main-serving [] s e = cc
  main-serving (a ∷ []) s e = cc
  main-serving (a ∷ b ∷ c ∷ more) s e = cc
  main-serving (name ∷ path ∷ []) s e =
      let (server, made, same) = run_server-serving (make_server (read_file path)) s e in
      (read_file path, server, made, same)

make_server-counts :
    (file : Option Text) (server : Server)
    → make_server file ≡ loaded server
    → (server.server_status.num_requests ≡ 0) × (server.server_status.server_status ≡ [])
unfolding make_server new_server add_handler_info
make_server-counts file server e = from (get_server_info file) e
  where
    from :
        (l : Loading ServerInfo)
        → (l and_then (λ info. loaded (new_server info))) ≡ loaded server
        → (server.server_status.num_requests ≡ 0) × (server.server_status.server_status ≡ [])
    from (loaded info) e = (cc, cc)
    from refused e = cc
    from Loading.threw e = cc
    from Loading.fault e = cc
    from Loading.diverged e = cc

module _ (read_file : Text → Option Text) (around : Surroundings) (argv : List Text)
    {s : Running Handler} (started : main read_file argv ≡ serving s) {es : List Event}
    {t : Running Handler} (r : Reach (handle_request around) s es (running t)) where
  -- As long as a server that the program has started runs, a prefix has a handler exactly if the
  -- status page lists it under some class.
  pub main_tables :
      (name : Text)
      → is_some (find name t.handlers) ≡ is_listed name t.server_status.handler_name_to_prefixes
  unfolding begin
  main_tables name =
      let (file, server, made, same) = main-serving read_file argv s started in
      let (names, page) = Reach-Agrees (handle_request around) r in
      let first : is_some (find name s.handlers)
          ≡ is_listed name s.server_status.handler_name_to_prefixes =
        subst
          (λ (v : Running Handler).
            is_some (find name v.handlers)
            ≡ is_listed name v.server_status.handler_name_to_prefixes)
          (sym same) (make_server-tables file server name made) in
      names name ∙ first ∙ sym (ap (is_listed name) page)

  pub main-Inv : Inv es t
  main-Inv =
      let (file, server, made, same) = main-serving read_file argv s started in
      Reach-Inv (handle_request around) server.server_status server.uri_prefix_to_handler
        (subst (λ v. Reach (handle_request around) v es (running t)) same r)

  -- As long as a server that the program has started runs, each response that was given to
  -- `async_write` is the one to a completed read, in their order, and shows a code by its status
  -- line; where it has no status line, the code is what the memory of the response held. The
  -- calls of `UpdateStatus` that were made and those that wait to be made are together as many,
  -- for each URI and code, as those responses with that code to requests for that URI, and in all
  -- as many as the responses. The counter of each URI and code is the number of the calls for it
  -- that were made, and the total is the number of all of them, both modulo 2 ^ 32.
  pub main_counts :
      (asked : List (Text × ResponseCode)) × Answers es asked t.written
      × ((uri : Text) (code : ℕ)
          → occurrences uri code (counted_of es) + occurrences uri code t.answering
            ≡ occurrences uri code asked)
      × (length (counted_of es) + length t.answering ≡ length t.written)
      × ((uri : Text) (code : ℕ)
          → count_of uri code t.server_status ≡ occurrences uri code (counted_of es) % unsigned_mod)
      × (t.server_status.num_requests ≡ length (counted_of es) % unsigned_mod)
  unfolding begin find
  main_counts =
      let (file, server, made, same) = main-serving read_file argv s started in
      let status = server.server_status in
      let (no_total, no_counts) = make_server-counts file server made in
      let v : Recorded status es t =
        Reach-RecordedIn status around
          (subst (Recorded status []) (sym same) (record {
            asked = [];
            answers = no_answer;
            tallies = λ uri code. refl;
            many = refl;
            counts = refl;
          }))
          r in
      let none_of : (uri : Text) (code : ℕ) → count_of uri code status ≡ 0 =
        λ uri code. ap (λ m. value (find code (codes_of (find uri m)))) no_counts in
      (
        v.asked,
        v.answers,
        v.tallies,
        v.many,
        λ uri code.
            ap (count_of uri code) v.counts
            ∙ omega (
              arith,
              count_of-record_all (counted_of es) uri code status (omega (arith, none_of uri code)),
              none_of uri code,
            ),
        ap ServerStatus.num_requests v.counts
            ∙ omega (arith, num_requests-record_all (counted_of es) status (omega arith)),
      )

  -- If a server that the program has started ends, so that `main` returns, then it returns 0,
  -- one accept failed, the accepted connections are as many as the reads that failed and the
  -- writes that ended, and the total of the counters is the number of those writes modulo 2 ^
  -- 32.
  pub main_ends :
      (n : ℕ)
      → after_run t ≡ some n
      → (n ≡ 0)
        × (failed_accepts es ≡ 1)
        × (accepts es ≡ failed_reads es + writes es)
        × (t.server_status.num_requests ≡ writes es % unsigned_mod)
  main_ends n e =
      let v = main-Inv in
      let (asked, answers, tallies, all, counts, total) = main_counts in
      elim (Bool-cases (t.accepting + t.reading + t.writing + t.busy + length t.answering == 0)) [
        | inl idle ↦
            let zero_n = rw idle at e in ground (arith, v.one_accept, v.once, v.sent, v.waiting)
        | inr waits ↦ let off = rw waits at e in cc
      ]
