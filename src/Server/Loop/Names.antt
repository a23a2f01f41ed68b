-- ===== src/Server/Loop/Names.antt =====
-- The prefixes of the handlers while the server works: none comes, and none goes.
use spaceteam.Common.{
  ◌-◌, Text, Bool, true, false, List, [], ◌∷◌, some, equal, equal_iff, Map, find, assign,
  find-assign, text_order, Bool-cases, inl, inr, ◌≡◌, refl, ap, sym, ◌∙◌, subst,
}
use spaceteam.Connection.Calls.{answer_read_rule}
use spaceteam.Connection.{
  Operation, async_read_some, async_accept, async_write, Handling, handled, Answer, answered,
  answer, answer_read, threw, undefined, diverged,
}
use spaceteam.Http.Fields.{Request}
use spaceteam.Http.Request.{parse}
use spaceteam.Http.Response.{Response, ResponseCode}
use spaceteam.Server.Loop.{
  Running, Process, running, Event, begin, after_read, Step, take_accept, take_read, take_write,
  take_update, Reach, here, next,
}
use spaceteam.Server.Tables.{is_some}
use spaceteam.Server.{handle_accept}
use spaceteam.Status.{ServerStatus, update_status}

-- the prefixes of a table
abbrev pub has : {H : Type 0} → Map Text H → Text → Bool
has handlers name = is_some (find name handlers)

-- A read leaves the prefixes of the handlers.
abbrev KeepsNames : {H : Type 0} → Map Text H → Answer H → Type 0
KeepsNames handlers (answered ops uri code handlers') =
    (name : Text) → has handlers' name ≡ has handlers name
KeepsNames handlers _ = Unit

module _ {H : Type 0} where
  assign-has :
      (handlers : Map Text H) (key name : Text) (g h : H)
      → find key handlers ≡ some g
      → has (assign key h handlers) name ≡ has handlers name
  assign-has handlers key name g h at =
      ap is_some (find-assign key name h handlers) ∙ elim (Bool-cases (equal name key)) [
        | inl e ↦
            let same = (equal_iff name key).0 e in
            let there : find name handlers ≡ some g =
              subst (λ k. find k handlers ≡ some g) (sym same) at in
            rw (e, there) refl
        | inr e ↦ rw e refl
      ]

module _ {H : Type 0} (handle_request : H → Request → Response → Handling H)
    (indeterminate : ResponseCode) (handlers : Map Text H) where
  answer-KeepsNames :
      (uri key : Text) (g : H) (r : Handling H)
      → find key handlers ≡ some g
      → KeepsNames handlers (answer handle_request indeterminate uri handlers key r)
  answer-KeepsNames uri key g (handled _ response h) at =
      λ name. assign-has handlers key name g h at
  answer-KeepsNames uri key g Handling.threw at = tt
  answer-KeepsNames uri key g Handling.undefined at = tt
  answer-KeepsNames uri key g Handling.diverged at = tt

  answer_read-KeepsNames :
      (bytes : Text) (s : ServerStatus)
      → KeepsNames handlers (answer_read handle_request indeterminate bytes s handlers)
  answer_read-KeepsNames bytes s =
      answer_read_rule handle_request indeterminate bytes s handlers (KeepsNames handlers) (λ r. tt)
        (λ key h at. answer-KeepsNames (parse bytes (some s)).uri key h _ at)

-- a state on the prefixes of another, with the same page of them
abbrev pub Agrees : {H : Type 0} → Running H → Running H → Type 0
Agrees first t =
    ((name : Text) → has t.handlers name ≡ has first.handlers name)
    × (t.server_status.handler_name_to_prefixes ≡ first.server_status.handler_name_to_prefixes)

module _ {H : Type 0} (first : Running H) where
  abbrev AgreesIn : Process H → Type 0
  AgreesIn (running t) = Agrees first t
  AgreesIn _ = Unit

  begin-Agrees :
      (ops : List Operation) (t : Running H) → Agrees first t → Agrees first (begin ops t)
  unfolding begin
  begin-Agrees [] t a = a
  begin-Agrees (async_accept ∷ ops) t a = begin-Agrees ops _ a
  begin-Agrees (async_read_some ∷ ops) t a = begin-Agrees ops _ a
  begin-Agrees (async_write text ∷ ops) t a = begin-Agrees ops _ a

  after_read-AgreesIn :
      (t : Running H) (error : Bool) (a : Answer H)
      → Agrees first t
      → KeepsNames t.handlers a
      → AgreesIn (after_read error a (record t { reading = t.reading - 1 }))
  unfolding after_read
  after_read-AgreesIn t true a g k = g
  after_read-AgreesIn t false (answered ops uri code handlers) g k =
      begin-Agrees ops _ ((λ name. k name ∙ g.0 name), g.1)
  after_read-AgreesIn t false threw g k = tt
  after_read-AgreesIn t false undefined g k = tt
  after_read-AgreesIn t false diverged g k = g

  module _ (handle_request : H → Request → Response → Handling H) where
    Step-AgreesIn :
        {e : Event} {t : Running H} {p : Process H}
        → Agrees first t
        → Step handle_request t e p
        → AgreesIn p
    unfolding update_status
    Step-AgreesIn {t = t} a (take_accept error lt b eq) =
        subst AgreesIn (sym eq) (begin-Agrees (handle_accept error).1 _ a)
    Step-AgreesIn {t = t} a (take_read indeterminate error bytes lt b _ eq) =
        subst AgreesIn (sym eq) (
          after_read-AgreesIn t error _ a
            (answer_read-KeepsNames handle_request indeterminate t.handlers bytes t.server_status))
    Step-AgreesIn {t = t} a (take_write error lt b eq) = subst AgreesIn (sym eq) a
    Step-AgreesIn {t = t} a (take_update before after uri code at eq) = subst AgreesIn (sym eq) a

    Reach-AgreesIn :
        {es : List Event} {p : Process H} → Reach handle_request first es p → AgreesIn p
    Reach-AgreesIn here = ((λ name. refl), refl)
    Reach-AgreesIn (next r st) = Step-AgreesIn (Reach-AgreesIn r) st

-- While the server runs, it has the prefixes of its start, and so has its page.
pub Reach-Agrees :
    {H : Type 0} (handle_request : H → Request → Response → Handling H) {s t : Running H}
    {es : List Event}
    → Reach handle_request s es (running t)
    → Agrees s t
Reach-Agrees handle_request {s = s} r = Reach-AgreesIn s handle_request r
