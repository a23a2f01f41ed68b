-- ===== src/Server/Loop/Progress.antt =====
-- When the server goes on, and when it stops.
use spaceteam.Common.{
  codes, refl, length-append, ◌∙◌, ◌++◌, assign, sym, ℕ, zero, suc, ◌+◌, ◌-◌, ◌≤◌, ◌<◌, Text, Bool,
  false, List, [], ◌∷◌, length, text_order, ◌≡◌, ap, arith, subst,
}
use spaceteam.Connection.{Handling, diverged, answer_read, do_write}
use spaceteam.Connection.Choice.{IsBest}
use spaceteam.Connection.Messages.{NoReferer, answer_read_best}
use spaceteam.Handler.Base.{Handler, echo, holding}
use spaceteam.Handler.Dispatch.{Surroundings, handle_request}
use spaceteam.Http.Fields.{Request}
use spaceteam.Http.Request.Message.{Message, IsValid, request_text}
use spaceteam.Http.Response
use spaceteam.Status.{update_status}
use spaceteam.Http.Response.{Response, ResponseCode, get_response_code}
use spaceteam.Server.Loop.{
  Running, Process, running, Event, read, wrote, updated, HasFreeThread, take_update, begin,
  after_read, Step, take_accept, take_read, take_write, Reach, here, next, num_of_threads,
  buffer_size,
}

abbrev pub replicate {ℓ} : {A : Type ℓ} → ℕ → A → List A
replicate zero a = []
replicate (suc n) a = a ∷ replicate n a

module _ {H : Type 0} (handle_request : H → Request → Response → Handling H) where
  -- With all threads in handlers that never return, nothing is taken.
  no_step :
      (s : Running H) (e : Event) (p : Process H)
      → num_of_threads ≤ s.busy
      → s.answering ≡ []
      → ¬ Step handle_request s e p
  no_step s e p full idle (take_accept error lt free eq) = omega arith
  no_step s e p full idle (take_read indeterminate error bytes lt free _ eq) = omega arith
  no_step s e p full idle (take_write error lt free eq) = omega arith
  no_step s e p full idle (take_update before after uri code at eq) =
      omega (arith, ap length (sym at ∙ idle), length-append before ((uri, code) ∷ after))

  abbrev pub held : Running H → ℕ → Running H
  held s n = record s { reading = s.reading - n; busy = s.busy + n }

  -- Reads whose handler never returns take one thread each.
  held-Reach :
      (s : Running H) (indeterminate : ResponseCode) (bytes : Text) (n : ℕ)
      → length bytes ≤ buffer_size
      → answer_read handle_request indeterminate bytes s.server_status s.handlers ≡ diverged
      → n ≤ s.reading
      → s.busy + n ≤ num_of_threads
      → s.answering ≡ []
      → Reach handle_request s (replicate n (read indeterminate false bytes)) (running (held s n))
  unfolding after_read
  held-Reach s indeterminate bytes zero l d r b idle =
      let same : s ≡ held s 0 = ground arith in
      subst (λ t. Reach handle_request s [] (running t)) same here
  held-Reach s indeterminate bytes (suc n) l d r b idle =
      next (held-Reach s indeterminate bytes n l d (omega arith) (omega arith) idle) (
        take_read indeterminate false bytes (omega arith) (omega (arith, ap length idle)) l
          (rw d (ground arith)))

-- From a server where no request waits to be counted, with free threads and at least as many
-- connections to read as there are free threads, if those connections all send one well-formed
-- request, of no more bytes than the buffer holds and without a `Referer`, whose longest registered
-- prefix has a `HoldingHandler`, the server comes to a state in which it takes no step at all.
pub holding_stops :
    (around : Surroundings) (indeterminate : ResponseCode) (m : Message) (s : Running Handler)
    (q : Text) (n : ℕ)
    → IsValid m
    → NoReferer m.headers
    → length (request_text m) ≤ buffer_size
    → IsBest s.handlers (b'/' ∷ m.path) q holding
    → s.answering ≡ []
    → s.busy + n ≡ num_of_threads
    → n ≤ s.reading
    → (t : Running Handler) × Reach
        (handle_request around)
        s
        (replicate n (read indeterminate false (request_text m)))
        (running t)
      × ((e : Event) (p : Process Handler) → ¬ Step (handle_request around) t e p)
unfolding handle_request
holding_stops around indeterminate m s q n valid h fits best idle full waiting =
    let never =
      answer_read_best (handle_request around) indeterminate m s.server_status s.handlers q holding
        valid h best in
    (
      held (handle_request around) s n,
      held-Reach (handle_request around) s indeterminate (request_text m) n fits never waiting
          (omega arith) idle,
      λ e p.
          no_step (handle_request around) (held (handle_request around) s n) e p (omega arith) idle,
    )

-- From a server with a free thread and a connection to read, whose peer sends a well-formed request,
-- of no more bytes than the buffer holds and without a `Referer`, whose longest registered prefix has
-- an `EchoHandler`, the read, its update and the write lead to a server that waits for one connection
-- less, has written the page with the bytes of the request, and has counted it.
pub echo_answered :
    (around : Surroundings) (indeterminate : ResponseCode) (m : Message) (s : Running Handler)
    (q : Text) (error : Bool)
    → IsValid m
    → NoReferer m.headers
    → length (request_text m) ≤ buffer_size
    → IsBest s.handlers (b'/' ∷ m.path) q echo
    → HasFreeThread s
    → 0 < s.reading
    → Reach
        (handle_request around)
        s
        (wrote error
          ∷ updated (b'/' ∷ m.path) Response.ok
          ∷ read indeterminate false (request_text m)
          ∷ [])
        (running (record s {
          reading = s.reading - 1;
          server_status = update_status (b'/' ∷ m.path) Response.ok s.server_status;
          handlers = assign q echo s.handlers;
          written =
              (codes "HTTP/1.1 200 OK\r\nContent-Type: text/plain\r\n\r\n" ++ request_text m)
              ∷ s.written;
        }))
unfolding after_read begin handle_request do_write get_response_code
echo_answered around indeterminate m s q error valid h fits best free waiting =
    next
      (next
        (next here (
          take_read indeterminate false (request_text m) waiting free fits (
            sym (
              ap (λ a. after_read false a (record s { reading = s.reading - 1 }))
                (answer_read_best (handle_request around) indeterminate m s.server_status s.handlers
                  q echo valid h best)))))
        (take_update [] s.answering (b'/' ∷ m.path) Response.ok refl refl))
      (take_write error (omega arith) free (ground arith))
