-- ===== src/Server/Pool/Lives.antt =====
-- The life of one connection.
use spaceteam.Common.{
  ℕ, ◌+◌, ◌==◌, Text, Bool, true, false, List, [], ◌∷◌, none, some, if◌then◌else◌, ◌≡◌, subst,
  arith,
}
use spaceteam.Http.Response.{ResponseCode}
use spaceteam.Server.Loop.{Event, accepted, read, wrote, updated}
use spaceteam.Server.Pool.{
  Wait, to_accept, to_read, to_write, nothing, Connection, Thread, holding, counting, Pool,
  get_elem?,
}

abbrev pub one_if : Bool → ℕ
one_if true = 1
one_if false = 0

-- the threads that never leave a connection, and those that have yet to count its request
abbrev pub held_by : ℕ → List Thread → ℕ
held_by k [] = 0
held_by k (holding j ∷ ts) = one_if (j == k) + held_by k ts
held_by k (counting j uri code ∷ ts) = held_by k ts

abbrev pub uncounted : ℕ → List Thread → ℕ
uncounted k [] = 0
uncounted k (holding j ∷ ts) = uncounted k ts
uncounted k (counting j uri code ∷ ts) = one_if (j == k) + uncounted k ts

-- the texts that a connection has given to `async_write`
abbrev pub texts_of : ℕ → List (ℕ × Text) → List Text
texts_of k [] = []
texts_of k ((j, text) ∷ ws) = if j == k then text ∷ texts_of k ws else texts_of k ws

-- The life of a connection: what happened to it, the last event first, what it waits for, how many
-- threads never leave it, how many have yet to count its request, and the texts that it has given to
-- `async_write`.
pub data Life : List Event → Wait → ℕ → ℕ → List Text → Type 0 where
  created : Life [] to_accept 0 0 []
  refused : Life (accepted true ∷ []) nothing 0 0 []
  started : Life (accepted false ∷ []) to_read 0 0 []
  unread :
      (x : ResponseCode) (bytes : Text)
      → Life (read x true bytes ∷ accepted false ∷ []) nothing 0 0 []
  stuck :
      (x : ResponseCode) (bytes : Text)
      → Life (read x false bytes ∷ accepted false ∷ []) nothing 1 0 []
  answering :
      (x : ResponseCode) (bytes text : Text)
      → Life (read x false bytes ∷ accepted false ∷ []) to_write 0 1 (text ∷ [])
  sent :
      (x : ResponseCode) (bytes text : Text) (error : Bool)
      → Life (wrote error ∷ read x false bytes ∷ accepted false ∷ []) nothing 0 1 (text ∷ [])
  counted :
      (x : ResponseCode) (bytes text uri : Text) (code : ResponseCode)
      → Life (updated uri code ∷ read x false bytes ∷ accepted false ∷ []) to_write 0 0 (text ∷ [])
  counted_last :
      (x : ResponseCode) (bytes text uri : Text) (code : ResponseCode) (error : Bool)
      → Life
          (updated uri code ∷ wrote error ∷ read x false bytes ∷ accepted false ∷ [])
          nothing
          0
          0
          (text ∷ [])
  sent_last :
      (x : ResponseCode) (bytes text uri : Text) (code : ResponseCode) (error : Bool)
      → Life
          (wrote error ∷ updated uri code ∷ read x false bytes ∷ accepted false ∷ [])
          nothing
          0
          0
          (text ∷ [])

-- the events of one connection
abbrev pub events_at : ℕ → List (ℕ × Event) → List Event
events_at k [] = []
events_at k ((j, e) ∷ es) = if j == k then e ∷ events_at k es else events_at k es

-- the life of a connection among the events, the threads and the texts
abbrev pub LifeAt : ℕ → List (ℕ × Event) → Wait → List Thread → List (ℕ × Text) → Type 0
LifeAt k es w ts ws = Life (events_at k es) w (held_by k ts) (uncounted k ts) (texts_of k ws)

-- Every connection of a pool has such a life, and nothing happened in one that does not exist.
pub record Lives {H : Type 0} (es : List (ℕ × Event)) (s : Pool H) : Type 0 where
  pub each :
      (k : ℕ) (c : Connection)
      → get_elem? s.connections k ≡ some c
      → LifeAt k es c.waits s.threads s.written
  pub no_other :
      (k : ℕ)
      → get_elem? s.connections k ≡ none
      → (events_at k es ≡ [])
        × (held_by k s.threads ≡ 0)
        × (uncounted k s.threads ≡ 0)
        × (texts_of k s.written ≡ [])

-- What a completion does to a life.
pub accept-Life :
    {past : List Event} {h u : ℕ} {ts : List Text}
    → Life past to_accept h u ts
    → Life (accepted true ∷ past) nothing h u ts × Life (accepted false ∷ past) to_read h u ts
accept-Life created = (refused, started)

pub read-Life :
    {past : List Event} {h u : ℕ} {ts : List Text} (x : ResponseCode) (bytes text : Text)
    → Life past to_read h u ts
    → Life (read x true bytes ∷ past) nothing h u ts
      × Life (read x false bytes ∷ past) nothing (1 + h) u ts
      × Life (read x false bytes ∷ past) to_write h (1 + u) (text ∷ ts)
read-Life x bytes text started = (unread x bytes, stuck x bytes, answering x bytes text)

pub write-Life :
    {past : List Event} {h u : ℕ} {ts : List Text} (error : Bool)
    → Life past to_write h u ts
    → Life (wrote error ∷ past) nothing h u ts
write-Life error (answering x bytes text) = sent x bytes text error
write-Life error (counted x bytes text uri code) = sent_last x bytes text uri code error

pub update-Life :
    {past : List Event} {w : Wait} {h n : ℕ} {ts : List Text} (uri : Text) (code : ResponseCode)
    (u : ℕ)
    → Life past w h n ts
    → n ≡ 1 + u
    → Life (updated uri code ∷ past) w h u ts
update-Life uri code u created e = absurd (omega (arith, e))
update-Life uri code u (answering x bytes text) e =
    subst
      (λ i.
        Life (updated uri code ∷ read x false bytes ∷ accepted false ∷ []) to_write 0 i (text ∷ []))
      (omega (arith, e)) (counted x bytes text uri code)
update-Life uri code u (sent x bytes text error) e =
    subst
      (λ i.
        Life (updated uri code ∷ wrote error ∷ read x false bytes ∷ accepted false ∷ []) nothing 0 i
          (text ∷ []))
      (omega (arith, e)) (counted_last x bytes text uri code error)
update-Life uri code u refused e = absurd (omega (arith, e))
update-Life uri code u started e = absurd (omega (arith, e))
update-Life uri code u (unread x bytes) e = absurd (omega (arith, e))
update-Life uri code u (stuck x bytes) e = absurd (omega (arith, e))
update-Life uri code u (counted x bytes text v c) e = absurd (omega (arith, e))
update-Life uri code u (counted_last x bytes text v c error) e = absurd (omega (arith, e))
update-Life uri code u (sent_last x bytes text v c error) e = absurd (omega (arith, e))
