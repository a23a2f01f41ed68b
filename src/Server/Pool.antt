-- ===== src/Server/Pool.antt =====
-- The server at work with its `Connection` objects: src/connection.cc, include/connection.h and `run`
-- of src/server.cc. Server.Loop counts what these objects wait for.
pub mod Places
pub mod Tally
pub mod Views
pub mod Lives
pub mod Threads
pub mod Changes
pub mod Safety
mod Tests
use spaceteam.Common.{
  ℕ, zero, suc, ◌+◌, ◌≤◌, ◌<◌, Text, Bool, true, false, List, [], ◌∷◌, ◌++◌, Option, none, some,
  length, Map, ◌≡◌,
}
use spaceteam.Connection.{
  Operation, async_read_some, async_accept, async_write, Handling, Answer, answered, answer_read,
  threw, undefined, diverged,
}
use spaceteam.Http.Fields.{Request}
use spaceteam.Http.Response.{Response, ResponseCode}
use spaceteam.Server.Loop.{Event, accepted, read, wrote, updated, num_of_threads, buffer_size}
use spaceteam.Server.{handle_accept, start_accept}
use spaceteam.Status.{ServerStatus, update_status}

-- The operation whose handler holds a pointer to a connection, if there is one.
pub data Wait : Type 0 where
  to_accept to_read to_write nothing : Wait

-- A connection: what it waits for. The tables that it points to are those of the server, its buffer is
-- the bytes that a read ends with, and its socket belongs to the network library.
pub record Connection : Type 0 where
  pub waits : Wait

-- A connection as `create` makes it, for `async_accept`.
abbrev pub new_connection : Connection
new_connection = record { waits = to_accept }

-- A thread in `handle_read` of the connection with a number: in a handler that never returns, or
-- before `UpdateStatus`.
pub data Thread : Type 0 where
  holding : ℕ → Thread
  counting : ℕ → Text → ResponseCode → Thread

-- The connections in the order of their creation, the threads that are in a connection, what the
-- connections share, and the texts given to `async_write`, each with the number of its connection, the
-- last one first.
pub record Pool (H : Type 0) : Type 0 where
  pub connections : List Connection
  pub threads : List Thread
  pub server_status : ServerStatus
  pub handlers : Map Text H
  pub written : List (ℕ × Text)

pub data Fate (H : Type 0) : Type 0 where
  going : Pool H → Fate H
  terminated undefined_process : Fate H

abbrev pub get_elem? {ℓ} : {A : Type ℓ} → List A → ℕ → Option A
get_elem? [] k = none
get_elem? (x ∷ xs) zero = some x
get_elem? (x ∷ xs) (suc k) = get_elem? xs k

-- the list with one element changed
abbrev pub change {ℓ} : {A : Type ℓ} → (A → A) → ℕ → List A → List A
change f k [] = []
change f zero (x ∷ xs) = f x ∷ xs
change f (suc k) (x ∷ xs) = x ∷ change f k xs

abbrev pub waits_for : Wait → Connection → Connection
waits_for w c = record c { waits = w }

module _ {H : Type 0} where
  -- the operations that a member of the connection `k` starts
  unfoldable pub begin_on : ℕ → List Operation → Pool H → Pool H
  begin_on k [] s = s
  begin_on k (async_accept ∷ ops) s =
      begin_on k ops (record s { connections = s.connections ++ new_connection ∷ [] })
  begin_on k (async_read_some ∷ ops) s =
      begin_on k ops (record s { connections = change (waits_for to_read) k s.connections })
  begin_on k (async_write text ∷ ops) s = begin_on k ops (record s {
    connections = change (waits_for to_write) k s.connections;
    written = (k, text) ∷ s.written;
  })

  -- the operation that the connection `k` waits for has ended
  abbrev pub end_on : ℕ → Pool H → Pool H
  end_on k s = record s { connections = change (waits_for nothing) k s.connections }

  -- `handle_read` of the connection `k`
  unfoldable pub handle_read_on : ℕ → Bool → Answer H → Pool H → Fate H
  unfolding begin_on
  handle_read_on k true a s = going s
  handle_read_on k false (answered ops uri code handlers) s =
      going (
        begin_on k ops
          (record s { threads = counting k uri code ∷ s.threads; handlers = handlers }))
  handle_read_on k false threw s = terminated
  handle_read_on k false undefined s = undefined_process
  handle_read_on k false diverged s = going (record s { threads = holding k ∷ s.threads })

  abbrev pub HasFree : Pool H → Type 0
  HasFree s = length s.threads < num_of_threads

  -- the connection `k` waits for an operation
  abbrev pub Waits : Wait → ℕ → Pool H → Type 0
  Waits w k s = (c : Connection) × (get_elem? s.connections k ≡ some c) × (c.waits ≡ w)

-- The server after its constructor, which creates one connection.
abbrev pub opened_pool : {H : Type 0} → ServerStatus → Map Text H → Pool H
opened_pool status handlers = begin_on zero start_accept (record {
  connections = [];
  threads = [];
  server_status = status;
  handlers = handlers;
  written = [];
})

module _ {H : Type 0} (handle_request : H → Request → Response → Handling H) where
  -- A free thread takes the completion of the operation of a connection; or one that is before it
  -- calls `UpdateStatus`.
  pub data Move (s : Pool H) : ℕ → Event → Fate H → Type 0 where
    accept_ends :
        (k : ℕ) (error : Bool) {p : Fate H}
        → Waits to_accept k s
        → HasFree s
        → p ≡ going (begin_on k (handle_accept error).1 (end_on k s))
        → Move s k (accepted error) p
    read_ends :
        (k : ℕ) (indeterminate : ResponseCode) (error : Bool) (bytes : Text) {p : Fate H}
        → Waits to_read k s
        → HasFree s
        → length bytes ≤ buffer_size
        → p
          ≡ handle_read_on k error
              (answer_read handle_request indeterminate bytes s.server_status s.handlers)
              (end_on k s)
        → Move s k (read indeterminate error bytes) p
    write_ends :
        (k : ℕ) (error : Bool) {p : Fate H}
        → Waits to_write k s
        → HasFree s
        → p ≡ going (end_on k s)
        → Move s k (wrote error) p
    counts :
        (before after : List Thread) (k : ℕ) (uri : Text) (code : ResponseCode) {p : Fate H}
        → s.threads ≡ before ++ counting k uri code ∷ after
        → p
          ≡ going (record s {
            threads = before ++ after;
            server_status = update_status uri code s.server_status;
          })
        → Move s k (updated uri code) p

  -- the pool after some events, each of a connection, the last one first
  pub data Run (s : Pool H) : List (ℕ × Event) → Fate H → Type 0 where
    here : Run s [] (going s)
    next :
        {es : List (ℕ × Event)} {k : ℕ} {e : Event} {t : Pool H} {p : Fate H}
        → Run s es (going t)
        → Move t k e p
        → Run s ((k, e) ∷ es) p
