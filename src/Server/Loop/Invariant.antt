-- ===== src/Server/Loop/Invariant.antt =====
-- What holds whatever completes, and in whatever order.
use spaceteam.Common.{
  ℕ, ◌+◌, ◌-◌, ◌≤◌, ◌<◌, Text, Bool, true, false, List, [], ◌∷◌, some, length, length-append, ◌++◌,
  ap, Map, text_order, ◌≡◌, refl, arith, sym, subst,
}
use spaceteam.Connection.Calls.{answer_read_rule}
use spaceteam.Connection.{
  async_write, Handling, handled, Answer, answered, answer, answer_read, threw, undefined, diverged,
  do_write,
}
use spaceteam.Http.Fields.{Request}
use spaceteam.Http.Request.{parse}
use spaceteam.Http.Response.{Response, ResponseCode}
use spaceteam.Server.{handle_accept}
use spaceteam.Server.Loop.{
  Running, Process, running, Event, accepted, read, wrote, begin, after_read, Step, take_accept,
  take_read, take_write, take_update, HasFreeThread, updated, Reach, here, next, num_of_threads,
}
use spaceteam.Status.{ServerStatus, update_status}

-- A read that has given its response has started one write.
abbrev pub StartsWrite : {H : Type 0} → Answer H → Type 0
StartsWrite (answered ops uri code handlers) = (text : Text) × (ops ≡ async_write text ∷ [])
StartsWrite _ = Unit

module _ {H : Type 0} (handle_request : H → Request → Response → Handling H)
    (indeterminate : ResponseCode) (handlers : Map Text H) where
  answer-StartsWrite :
      (uri key : Text) (g : Handling H)
      → StartsWrite (answer handle_request indeterminate uri handlers key g)
  unfolding do_write
  answer-StartsWrite uri key (handled _ response h) = (_, refl)
  answer-StartsWrite uri key threw = tt
  answer-StartsWrite uri key undefined = tt
  answer-StartsWrite uri key diverged = tt

  pub answer_read-StartsWrite :
      (bytes : Text) (s : ServerStatus)
      → StartsWrite (answer_read handle_request indeterminate bytes s handlers)
  answer_read-StartsWrite bytes s =
      answer_read_rule handle_request indeterminate bytes s handlers StartsWrite (λ r. tt)
        (λ key h at. answer-StartsWrite (parse bytes (some s)).uri key _)

-- the accepts that ended well, those that failed, the reads, those that failed, the writes, and the
-- updates
abbrev pub accepts : List Event → ℕ
accepts [] = 0
accepts (accepted false ∷ es) = accepts es + 1
accepts (_ ∷ es) = accepts es

abbrev pub failed_accepts : List Event → ℕ
failed_accepts [] = 0
failed_accepts (accepted true ∷ es) = failed_accepts es + 1
failed_accepts (_ ∷ es) = failed_accepts es

abbrev pub reads : List Event → ℕ
reads [] = 0
reads (read _ _ _ ∷ es) = reads es + 1
reads (_ ∷ es) = reads es

abbrev pub failed_reads : List Event → ℕ
failed_reads [] = 0
failed_reads (read _ true _ ∷ es) = failed_reads es + 1
failed_reads (_ ∷ es) = failed_reads es

abbrev pub writes : List Event → ℕ
writes [] = 0
writes (wrote _ ∷ es) = writes es + 1
writes (_ ∷ es) = writes es

abbrev pub updates : List Event → ℕ
updates [] = 0
updates (updated _ _ ∷ es) = updates es + 1
updates (_ ∷ es) = updates es

pub record Inv {H : Type 0} (es : List Event) (t : Running H) : Type 0 where
  pub one_accept : t.accepting + failed_accepts es ≡ 1
  pub threads : t.busy + length t.answering ≤ num_of_threads
  pub once : accepts es ≡ t.reading + t.busy + length t.written + failed_reads es
  pub taken : reads es ≡ t.busy + length t.written + failed_reads es
  pub sent : length t.written ≡ t.writing + writes es
  pub waiting : length t.written ≡ length t.answering + updates es

abbrev pub Holds : {H : Type 0} → List Event → Process H → Type 0
Holds es (running t) = Inv es t
Holds es _ = Unit

module _ {H : Type 0} (handle_request : H → Request → Response → Handling H) where
  accept-Holds :
      (es : List Event) (t : Running H) (error : Bool)
      → Inv es t
      → 0 < t.accepting
      → Inv
          (accepted error ∷ es)
          (begin (handle_accept error).1 (record t { accepting = t.accepting - 1 }))
  unfolding begin handle_accept
  accept-Holds es t true v p = ground arith
  accept-Holds es t false v p = ground arith

  after_read-Holds :
      (es : List Event) (t : Running H) (indeterminate : ResponseCode) (error : Bool) (bytes : Text)
      (a : Answer H)
      → Inv es t
      → 0 < t.reading
      → HasFreeThread t
      → StartsWrite a
      → Holds
          (read indeterminate error bytes ∷ es)
          (after_read error a (record t { reading = t.reading - 1 }))
  unfolding after_read begin
  after_read-Holds es t indeterminate true bytes a v p b w = ground arith
  after_read-Holds es t indeterminate false bytes (answered ops uri code handlers) v p b (text, e) =
      rw e (ground arith)
  after_read-Holds es t indeterminate false bytes threw v p b w = tt
  after_read-Holds es t indeterminate false bytes undefined v p b w = tt
  after_read-Holds es t indeterminate false bytes diverged v p b w = ground arith

  update-Holds :
      (es : List Event) (t : Running H) (before after : List (Text × ResponseCode)) (uri : Text)
      (code : ResponseCode)
      → Inv es t
      → t.answering ≡ before ++ (uri, code) ∷ after
      → Inv (updated uri code ∷ es) (record t {
        answering = before ++ after;
        server_status = update_status uri code t.server_status;
      })
  update-Holds es t before after uri code v at =
      let many = ap length at in
      ground (arith, length-append before ((uri, code) ∷ after), length-append before after)

  Step-Holds :
      {es : List Event} {e : Event} {t : Running H} {p : Process H}
      → Inv es t
      → Step handle_request t e p
      → Holds (e ∷ es) p
  Step-Holds {es = es} {t = t} v (take_accept error lt b eq) =
      subst (Holds (accepted error ∷ es)) (sym eq) (accept-Holds es t error v lt)
  Step-Holds {es = es} {t = t} v (take_read indeterminate error bytes lt b _ eq) =
      subst (Holds (read indeterminate error bytes ∷ es)) (sym eq) (
        after_read-Holds es t indeterminate error bytes _ v lt b
          (answer_read-StartsWrite handle_request indeterminate t.handlers bytes t.server_status))
  Step-Holds {es = es} {t = t} v (take_write error lt b eq) =
      subst (Holds (wrote error ∷ es)) (sym eq) (ground arith)
  Step-Holds {es = es} {t = t} v (take_update before after uri code at eq) =
      subst (Holds (updated uri code ∷ es)) (sym eq) (update-Holds es t before after uri code v at)

  pub Reach-Holds :
      {s : Running H} {es : List Event} {p : Process H}
      → Inv [] s
      → Reach handle_request s es p
      → Holds es p
  Reach-Holds v here = v
  Reach-Holds v (next r st) = Step-Holds (Reach-Holds v r) st
