-- ===== src/Server/Loop.antt =====
-- The server at work: `run` of src/server.cc, and the completions that its threads take from the
-- io_service: `handle_accept`, `handle_read` and `handle_write`. The completions run on the threads at
-- the same time, in steps: a read is one step up to its `UpdateStatus`, which is another, and other
-- steps may come between the two.
pub mod Invariant
pub mod Names
pub mod History
pub mod Safety
pub mod Crashes
pub mod Handlers
pub mod Progress
use spaceteam.Common.{
  ℕ, zero, suc, ◌+◌, ◌-◌, ◌≤◌, ◌<◌, Text, Bool, true, false, List, [], ◌∷◌, ◌++◌, length, Map, ◌≡◌,
}
use spaceteam.Connection.{
  Operation, async_read_some, async_accept, async_write, Handling, Answer, answered, threw,
  undefined, diverged, answer_read, start,
}
use spaceteam.Http.Fields.{Request}
use spaceteam.Http.Response.{Response, ResponseCode}
use spaceteam.Server.{handle_accept, start_accept}
use spaceteam.Status.{ServerStatus, update_status}

-- `NUM_OF_THREADS_`
abbrev pub num_of_threads : ℕ
num_of_threads = 5

-- `BUFFER_SIZE`: a read transfers no more bytes
abbrev pub buffer_size : ℕ
buffer_size = 1024

-- What the io_service waits for, how many threads are in a handler that never returns, the URIs and
-- codes of the threads that have given a response and not yet counted it, what the connections share,
-- and the texts that were given to `async_write`, the last one first. A connection lives as long as it
-- waits for its one operation.
pub record Running (H : Type 0) : Type 0 where
  pub accepting : ℕ
  pub reading : ℕ
  pub writing : ℕ
  pub busy : ℕ
  pub answering : List (Text × ResponseCode)
  pub server_status : ServerStatus
  pub handlers : Map Text H
  pub written : List Text

-- The process: it runs; an exception leaves a thread and ends it; or its behaviour is undefined.
pub data Process (H : Type 0) : Type 0 where
  running : Running H → Process H
  terminated undefined_process : Process H

-- A completion, with what the operation ended with; or a call of `UpdateStatus`.
pub data Event : Type 0 where
  accepted : Bool → Event
  read : ResponseCode → Bool → Text → Event
  wrote : Bool → Event
  updated : Text → ResponseCode → Event

module _ {H : Type 0} where
  -- the operations that a completion starts
  unfoldable pub begin : List Operation → Running H → Running H
  begin [] s = s
  begin (async_accept ∷ ops) s = begin ops (record s { accepting = s.accepting + 1 })
  begin (async_read_some ∷ ops) s = begin ops (record s { reading = s.reading + 1 })
  begin (async_write text ∷ ops) s =
      begin ops (record s { writing = s.writing + 1; written = text ∷ s.written })

  -- `handle_read` up to its call of `UpdateStatus`; after an error it returns at once.
  unfoldable pub after_read : Bool → Answer H → Running H → Process H
  unfolding begin
  after_read true a s = running s
  after_read false (answered ops uri code handlers) s =
      running (begin ops (record s { answering = (uri, code) ∷ s.answering; handlers = handlers }))
  after_read false threw s = terminated
  after_read false undefined s = undefined_process
  after_read false diverged s = running (record s { busy = s.busy + 1 })

  -- A thread is free that is neither in a handler that never returns nor before an `UpdateStatus`.
  abbrev pub HasFreeThread : Running H → Type 0
  HasFreeThread s = s.busy + length s.answering < num_of_threads

-- The server after its constructor, which calls `start_accept`, and with the threads of `run`.
abbrev pub opened : {H : Type 0} → ServerStatus → Map Text H → Running H
opened status handlers = begin start_accept (record {
  accepting = 0;
  reading = 0;
  writing = 0;
  busy = 0;
  answering = [];
  server_status = status;
  handlers = handlers;
  written = [];
})

module _ {H : Type 0} (handle_request : H → Request → Response → Handling H) where
  -- A free thread takes a completion of an operation that is waited for; or one that has given its
  -- response counts the request.
  pub data Step (s : Running H) : Event → Process H → Type 0 where
    take_accept :
        (error : Bool) {p : Process H}
        → 0 < s.accepting
        → HasFreeThread s
        → p ≡ running (begin (handle_accept error).1 (record s { accepting = s.accepting - 1 }))
        → Step s (accepted error) p
    take_read :
        (indeterminate : ResponseCode) (error : Bool) (bytes : Text) {p : Process H}
        → 0 < s.reading
        → HasFreeThread s
        → length bytes ≤ buffer_size
        → p
          ≡ after_read error
              (answer_read handle_request indeterminate bytes s.server_status s.handlers)
              (record s { reading = s.reading - 1 })
        → Step s (read indeterminate error bytes) p
    take_write :
        (error : Bool) {p : Process H}
        → 0 < s.writing
        → HasFreeThread s
        → p ≡ running (record s { writing = s.writing - 1 })
        → Step s (wrote error) p
    take_update :
        (before after : List (Text × ResponseCode)) (uri : Text) (code : ResponseCode)
        {p : Process H}
        → s.answering ≡ before ++ (uri, code) ∷ after
        → p
          ≡ running (record s {
            answering = before ++ after;
            server_status = update_status uri code s.server_status;
          })
        → Step s (updated uri code) p

  -- the process after some completions, the last one first
  pub data Reach (s : Running H) : List Event → Process H → Type 0 where
    here : Reach s [] (running s)
    next :
        {es : List Event} {e : Event} {t : Running H} {p : Process H}
        → Reach s es (running t)
        → Step t e p
        → Reach s (e ∷ es) p
