-- ===== src/Server/Loop/History.antt =====
-- The counters of a server at work, and the responses that it has given, against the events.
use spaceteam.Common.{
  ℕ, Text, ◌+◌, ◌++◌, length-append, arith, Bool, ◌-◌, true, false, List, [], ◌∷◌, length, some,
  Map, text_order, ◌≡◌, ◌⊎◌, refl, ap, sym, ◌∙◌, subst,
}
use spaceteam.Connection.{
  Handling, handled, Answer, answered, answer, answer_read, threw, undefined, diverged,
}
use spaceteam.Connection.Calls.{answer_read_rule}
use spaceteam.Handler.Base.{Handler}
use spaceteam.Handler.Codes.{ShowsCode, answer_read-ShowsCode}
use spaceteam.Handler.Dispatch.{Surroundings, handle_request}
use spaceteam.Http.Request.{parse}
use spaceteam.Http.Response.{ResponseCode, empty_response, status_line}
use spaceteam.Server.Loop.{
  Running, Process, running, Event, accepted, read, wrote, updated, begin, after_read, Step,
  take_accept, take_read, take_write, take_update, Reach, here, next,
}
use spaceteam.Server.{handle_accept}
use spaceteam.Status.Counts.{record_all, occurrences}
use spaceteam.Status.Counts as Counts
use spaceteam.Status.Order.{update_status-record_all}
use spaceteam.Status.{ServerStatus, update_status}

-- the requests that were counted, the last one first
abbrev pub counted_of : List Event → List Counts.Event
counted_of [] = []
counted_of (updated uri code ∷ es) = (uri, code) ∷ counted_of es
counted_of (_ ∷ es) = counted_of es

-- A text shows a code: it begins with the status line of the code and a line end; or it begins with
-- the line end, and the code is what the memory of the response happened to hold.
abbrev pub TextShows : ResponseCode → ResponseCode → Text → Type 0
TextShows indeterminate code text =
    (line : Text) × (rest : Text) × (text ≡ line ++ (b'\r' ∷ b'\n' ∷ rest))
    × ((line ≡ status_line code) ⊎ ((line ≡ []) × (code ≡ indeterminate)))

-- Reads among the events that were answered, each one with the URI of the request that its bytes
-- hold, a code, and a text that shows the code.
pub data Answers : List Event → List Counts.Event → List Text → Type 0 where
  no_answer : Answers [] [] []
  other :
      {es : List Event} {asked : List Counts.Event} {texts : List Text} (e : Event)
      → Answers es asked texts
      → Answers (e ∷ es) asked texts
  answer_to :
      {es : List Event} {asked : List Counts.Event} {texts : List Text}
      (indeterminate : ResponseCode) (bytes : Text) (s : ServerStatus) {uri : Text}
      (code : ResponseCode) {text : Text}
      → Answers es asked texts
      → uri ≡ (parse bytes (some s)).uri
      → TextShows indeterminate code text
      → Answers (read indeterminate false bytes ∷ es) ((uri, code) ∷ asked) (text ∷ texts)

-- the URI to count
abbrev IsFor : {H : Type 0} → Text → Answer H → Type 0
IsFor uri (answered ops counted_uri code handlers) = counted_uri ≡ uri
IsFor uri _ = Unit

module _ (around : Surroundings) (indeterminate : ResponseCode) (handlers : Map Text Handler) where
  answer-IsFor :
      (uri key : Text) (g : Handling Handler)
      → IsFor uri (answer (handle_request around) indeterminate uri handlers key g)
  answer-IsFor uri key (handled ended r h) = refl
  answer-IsFor uri key Handling.threw = tt
  answer-IsFor uri key Handling.undefined = tt
  answer-IsFor uri key Handling.diverged = tt

  answer_read-IsFor :
      (bytes : Text) (s : ServerStatus)
      → IsFor
          (parse bytes (some s)).uri
          (answer_read (handle_request around) indeterminate bytes s handlers)
  answer_read-IsFor bytes s =
      let request = parse bytes (some s) in
      answer_read_rule (handle_request around) indeterminate bytes s handlers (IsFor request.uri)
        (λ r. tt)
        (λ key h at. answer-IsFor request.uri key (handle_request around h request empty_response))

occurrences-append :
    (uri : Text) (code : ℕ) (before after : List Counts.Event)
    → occurrences uri code (before ++ after)
      ≡ occurrences uri code before + occurrences uri code after
occurrences-append uri code [] after = omega arith
occurrences-append uri code (e ∷ before) after =
    omega (arith, occurrences-append uri code before after)

-- The responses are those of answered reads, and the reads that were answered are those that were
-- counted and those that wait to be counted, URI by URI and code by code.
pub record Recorded (status : ServerStatus) (es : List Event) (t : Running Handler) : Type 0 where
  pub asked : List Counts.Event
  pub answers : Answers es asked t.written
  pub tallies :
      (uri : Text) (code : ℕ)
      → occurrences uri code (counted_of es) + occurrences uri code t.answering
        ≡ occurrences uri code asked
  pub many : length (counted_of es) + length t.answering ≡ length t.written
  pub counts : t.server_status ≡ record_all (counted_of es) status

module _ (status : ServerStatus) (around : Surroundings) where
  abbrev RecordedIn : List Event → Process Handler → Type 0
  RecordedIn es (running t) = Recorded status es t
  RecordedIn es _ = Unit

  module _ (es : List Event) (t : Running Handler) (h : Recorded status es t) where
    -- an event that is no answer and counts nothing
    unanswered :
        (e : Event) (accepting reading writing busy : ℕ)
        → counted_of (e ∷ es) ≡ counted_of es
        → Recorded status
            (e ∷ es)
            (record t { accepting = accepting; reading = reading; writing = writing; busy = busy })
    unanswered e accepting reading writing busy same =
        let as_many = ap length same in
        record {
          asked = h.asked;
          answers = other e h.answers;
          tallies = λ u c. omega (arith, h.tallies u c, ap (occurrences u c) same);
          many = omega (arith, h.many);
          counts = h.counts ∙ ap (λ l. record_all l status) (sym same);
        }

    accept-Recorded :
        (error : Bool)
        → Recorded status
            (accepted error ∷ es)
            (begin (handle_accept error).1 (record t { accepting = t.accepting - 1 }))
    unfolding begin handle_accept
    accept-Recorded true =
        unanswered (accepted true) (t.accepting - 1) t.reading t.writing t.busy refl
    accept-Recorded false =
        unanswered (accepted false) (t.accepting - 1 + 1) (t.reading + 1) t.writing t.busy refl

    write-Recorded :
        (error : Bool) → Recorded status (wrote error ∷ es) (record t { writing = t.writing - 1 })
    write-Recorded error =
        unanswered (wrote error) t.accepting t.reading (t.writing - 1) t.busy refl

    after_read-RecordedIn :
        (indeterminate : ResponseCode) (error : Bool) (bytes : Text) (s : ServerStatus)
        (a : Answer Handler)
        → ShowsCode indeterminate a
        → IsFor (parse bytes (some s)).uri a
        → RecordedIn
            (read indeterminate error bytes ∷ es)
            (after_read error a (record t { reading = t.reading - 1 }))
    unfolding after_read begin
    after_read-RecordedIn x true bytes s a shows for =
        unanswered (read x true bytes) t.accepting (t.reading - 1) t.writing t.busy refl
    after_read-RecordedIn x false bytes s (answered ops uri code handlers) (line, rest, same, shows)
          for =
        rw same (record {
          asked = (uri, code) ∷ h.asked;
          answers = answer_to x bytes s code h.answers for (line, rest, refl, shows);
          tallies = λ u c. omega (arith, h.tallies u c);
          many = omega (arith, h.many);
          counts = h.counts;
        })
    after_read-RecordedIn x false bytes s threw shows for = tt
    after_read-RecordedIn x false bytes s undefined shows for = tt
    after_read-RecordedIn x false bytes s diverged shows for =
        unanswered (read x false bytes) t.accepting (t.reading - 1) t.writing (t.busy + 1) refl

    update-Recorded :
        (before after : List Counts.Event) (uri : Text) (code : ResponseCode)
        → t.answering ≡ before ++ (uri, code) ∷ after
        → Recorded status (updated uri code ∷ es) (record t {
          answering = before ++ after;
          server_status = update_status uri code t.server_status;
        })
    update-Recorded before after uri code at =
        let some_answers = ap length at in
        record {
          asked = h.asked;
          answers = other _ h.answers;
          tallies = λ u c. omega (
            arith,
            h.tallies u c,
            ap (occurrences u c) at,
            occurrences-append u c before ((uri, code) ∷ after),
            occurrences-append u c before after,
          );
          many = omega (
            arith,
            h.many,
            length-append before ((uri, code) ∷ after),
            length-append before after,
          );
          counts =
              ap (update_status uri code) h.counts
              ∙ update_status-record_all uri code (counted_of es) status;
        }

  Step-RecordedIn :
      {es : List Event} {e : Event} {t : Running Handler} {p : Process Handler}
      → Recorded status es t
      → Step (handle_request around) t e p
      → RecordedIn (e ∷ es) p
  Step-RecordedIn {es} {t = t} h (take_accept error lt b eq) =
      subst (RecordedIn (accepted error ∷ es)) (sym eq) (accept-Recorded es t h error)
  Step-RecordedIn {es} {t = t} h (take_read x error bytes lt b _ eq) =
      subst (RecordedIn (read x error bytes ∷ es)) (sym eq) (
        after_read-RecordedIn es t h x error bytes t.server_status _
          (answer_read-ShowsCode around x t.handlers bytes t.server_status)
          (answer_read-IsFor around x t.handlers bytes t.server_status))
  Step-RecordedIn {es} {t = t} h (take_write error lt b eq) =
      subst (RecordedIn (wrote error ∷ es)) (sym eq) (write-Recorded es t h error)
  Step-RecordedIn {es} {t = t} h (take_update before after uri code at eq) =
      subst (RecordedIn (updated uri code ∷ es)) (sym eq)
        (update-Recorded es t h before after uri code at)

  pub Reach-RecordedIn :
      {s : Running Handler} {es : List Event} {p : Process Handler}
      → Recorded status [] s
      → Reach (handle_request around) s es p
      → RecordedIn es p
  Reach-RecordedIn h here = h
  Reach-RecordedIn h (next r st) = Step-RecordedIn (Reach-RecordedIn h r) st
