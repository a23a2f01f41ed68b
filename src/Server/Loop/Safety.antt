-- ===== src/Server/Loop/Safety.antt =====
-- What holds of a server at work since its constructor.
use spaceteam.Common.{◌+◌, Text, List, [], length, Map, ◌≡◌, arith}
use spaceteam.Connection.{Handling}
use spaceteam.Http.Fields.{Request}
use spaceteam.Http.Response.{Response}
use spaceteam.Server.Loop.{Running, running, Event, begin, Reach, opened}
use spaceteam.Server.Loop.Invariant.{
  accepts, failed_accepts, failed_reads, writes, updates, Inv, Reach-Holds,
}
use spaceteam.Status.{ServerStatus}

opened-Inv :
    {H : Type 0} (status : ServerStatus) (handlers : Map Text H) → Inv [] (opened status handlers)
unfolding begin
opened-Inv status handlers = ground arith

module _ {H : Type 0} (handle_request : H → Request → Response → Handling H) (status : ServerStatus)
    (handlers : Map Text H) {es : List Event} {t : Running H}
    (r : Reach handle_request (opened status handlers) es (running t)) where
  pub Reach-Inv : Inv es t
  Reach-Inv = Reach-Holds handle_request (opened-Inv status handlers) r

  -- While the process runs, the number of the connections that were accepted since its start is
  -- the sum of those that wait to be read, those whose handler never returned, the responses
  -- that were given to `async_write`, and the reads that failed. The responses are those still
  -- being written and those whose write ended, and as well those that wait to be counted and
  -- those that were counted. The server waits for one connection until an accept fails, and from
  -- then on for none.
  pub served_once :
      (accepts es ≡ t.reading + t.busy + length t.written + failed_reads es)
      × (length t.written ≡ t.writing + writes es)
      × (length t.written ≡ length t.answering + updates es)
      × (t.accepting + failed_accepts es ≡ 1)
  served_once = let v = Reach-Inv in (v.once, v.sent, v.waiting, v.one_accept)
