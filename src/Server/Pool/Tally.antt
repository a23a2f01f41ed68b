-- ===== src/Server/Pool/Tally.antt =====
-- What the connections wait for, counted.
use spaceteam.Common.{
  ℕ, zero, suc, ◌+◌, Text, List, [], ◌∷◌, ◌++◌, some, length, ◌≡◌, refl, ap, arith,
}
use spaceteam.Http.Response.{ResponseCode}
use spaceteam.Server.Loop.{Running, Process, running, Event}
use spaceteam.Server.Pool.Places.{get_elem?-change}
use spaceteam.Server.Pool.{
  Wait, to_accept, to_read, to_write, nothing, Connection, Thread, holding, counting, Pool, Fate,
  going, get_elem?, change, waits_for,
}

-- 1 where a connection waits for an operation, and 0 where it does not
abbrev pub same_wait : Wait → Wait → ℕ
same_wait to_accept to_accept = 1
same_wait to_read to_read = 1
same_wait to_write to_write = 1
same_wait _ _ = 0

abbrev pub how_many : Wait → List Connection → ℕ
how_many w [] = 0
how_many w (c ∷ cs) = same_wait w c.waits + how_many w cs

-- the threads in a handler that never returns
abbrev pub holders : List Thread → ℕ
holders [] = 0
holders (holding k ∷ ts) = holders ts + 1
holders (counting k uri code ∷ ts) = holders ts

-- what the other threads have to count
abbrev pub to_count : List Thread → List (Text × ResponseCode)
to_count [] = []
to_count (holding k ∷ ts) = to_count ts
to_count (counting k uri code ∷ ts) = (uri, code) ∷ to_count ts

-- the texts that were given, without their connections
abbrev texts_in : List (ℕ × Text) → List Text
texts_in [] = []
texts_in ((k, text) ∷ ws) = text ∷ texts_in ws

-- The server as Server.Loop counts it.
abbrev pub view : {H : Type 0} → Pool H → Running H
view s = record {
  accepting = how_many to_accept s.connections;
  reading = how_many to_read s.connections;
  writing = how_many to_write s.connections;
  busy = holders s.threads;
  answering = to_count s.threads;
  server_status = s.server_status;
  handlers = s.handlers;
  written = texts_in s.written;
}

abbrev pub events_of : List (ℕ × Event) → List Event
events_of [] = []
events_of ((k, e) ∷ es) = e ∷ events_of es

abbrev pub seen : {H : Type 0} → Fate H → Process H
seen (going s) = running (view s)
seen Fate.terminated = Process.terminated
seen Fate.undefined_process = Process.undefined_process

pub how_many-append :
    (w : Wait) (cs ds : List Connection) → how_many w (cs ++ ds) ≡ how_many w cs + how_many w ds
how_many-append w [] ds = omega arith
how_many-append w (c ∷ cs) ds = omega (arith, how_many-append w cs ds)

how_many-change :
    (w : Wait) (f : Connection → Connection) (k : ℕ) (cs : List Connection) (c : Connection)
    → get_elem? cs k ≡ some c
    → how_many w (change f k cs) + same_wait w c.waits ≡ how_many w cs + same_wait w (f c).waits
how_many-change w f k [] c at = cc
how_many-change w f zero (d ∷ cs) c at = let same : d ≡ c = some_inj at in rw same (omega arith)
  where
    some_inj : {a b : Connection} → some a ≡ some b → a ≡ b
    some_inj e = cc
how_many-change w f (suc k) (d ∷ cs) c at = omega (arith, how_many-change w f k cs c at)

pub length-threads : (ts : List Thread) → length ts ≡ holders ts + length (to_count ts)
length-threads [] = refl
length-threads (holding k ∷ ts) = omega (arith, length-threads ts)
length-threads (counting k uri code ∷ ts) = omega (arith, length-threads ts)

pub holders-append : (ts us : List Thread) → holders (ts ++ us) ≡ holders ts + holders us
holders-append [] us = omega arith
holders-append (holding k ∷ ts) us = omega (arith, holders-append ts us)
holders-append (counting k uri code ∷ ts) us = holders-append ts us

pub to_count-append : (ts us : List Thread) → to_count (ts ++ us) ≡ to_count ts ++ to_count us
to_count-append [] us = refl
to_count-append (holding k ∷ ts) us = to_count-append ts us
to_count-append (counting k uri code ∷ ts) us = ap (◌∷◌ (uri, code)) (to_count-append ts us)

same_wait-nothing : (w : Wait) → same_wait w nothing ≡ 0
same_wait-nothing to_accept = refl
same_wait-nothing to_read = refl
same_wait-nothing to_write = refl
same_wait-nothing nothing = refl

-- The numbers behind the end of an operation, and behind another that the connection then starts.
module _ (v : Wait) (k : ℕ) (cs : List Connection)
    (waiting : (c : Connection) × (get_elem? cs k ≡ some c) × (c.waits ≡ v)) where
  pub how_many-ended :
      (w : Wait) → how_many w (change (waits_for nothing) k cs) + same_wait w v ≡ how_many w cs
  how_many-ended w =
      let (c, at, is) = waiting in
      let same = ap (same_wait w) is in
      omega (arith, how_many-change w (waits_for nothing) k cs c at, same_wait-nothing w, same)

  pub how_many-started :
      (w u : Wait)
      → how_many w (change (waits_for u) k (change (waits_for nothing) k cs)) + same_wait w v
        ≡ how_many w cs + same_wait w u
  how_many-started w u =
      let (c, at, is) = waiting in
      let there = get_elem?-change (waits_for nothing) k cs c at in
      omega (
        arith,
        how_many-change w (waits_for u) k (change (waits_for nothing) k cs) (waits_for nothing c)
            there,
        same_wait-nothing w,
        how_many-ended w,
      )
