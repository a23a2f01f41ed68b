-- ===== src/Server/Loop/Handlers.antt =====
-- The handlers while the server works: a call may change only the host of a proxy.
use spaceteam.Common.{
  ◌-◌, Text, Bool, true, false, List, [], ◌∷◌, none, some, equal, equal_iff, Map, find, assign,
  find-assign, text_order, Bool-cases, inl, inr, ◌≡◌, refl, sym, ◌∙◌, subst,
}
use spaceteam.Connection.Calls.{answer_read_rule}
use spaceteam.Connection.{
  Operation, async_read_some, async_accept, async_write, Handling, handled, Answer, answered,
  answer, answer_read, threw, undefined, diverged,
}
use spaceteam.Handler.Base.{
  Handled, returned, Handler, echo, not_found, status, holding, static, s3, proxy,
}
use spaceteam.Handler.Dispatch.{Surroundings, handle_request, left}
use spaceteam.Handler.Simple.{echo_handle, not_found_handle, status_handle, holding_handle}
use spaceteam.Handler.Files.{static_handle}
use spaceteam.Handler.Bucket.{s3_handle}
use spaceteam.Handler.Remote.{proxy_handle}
use spaceteam.Http.Fields.{Request}
use spaceteam.Http.Request.{parse}
use spaceteam.Http.Response.{Response, ResponseCode, empty_response}
use spaceteam.Server.Loop.{
  Running, Process, running, Event, begin, after_read, Step, take_accept, take_read, take_write,
  take_update, Reach, here, next,
}
use spaceteam.Server.{handle_accept}
use spaceteam.Status.{ServerStatus}

-- the same object, but for the host of a proxy
abbrev pub SameButHost : Handler → Handler → Type 0
SameButHost (proxy p host portno) g = (host' : Text) × (g ≡ proxy p host' portno)
SameButHost h g = g ≡ h

pub SameButHost-refl : (h : Handler) → SameButHost h h
SameButHost-refl echo = refl
SameButHost-refl not_found = refl
SameButHost-refl status = refl
SameButHost-refl holding = refl
SameButHost-refl (static p root) = refl
SameButHost-refl (s3 p bucket) = refl
SameButHost-refl (proxy p host portno) = (host, refl)

SameButHost-trans : (h i j : Handler) → SameButHost h i → SameButHost i j → SameButHost h j
SameButHost-trans echo i j a b = subst (λ g. SameButHost g j) a b
SameButHost-trans not_found i j a b = subst (λ g. SameButHost g j) a b
SameButHost-trans status i j a b = subst (λ g. SameButHost g j) a b
SameButHost-trans holding i j a b = subst (λ g. SameButHost g j) a b
SameButHost-trans (static p root) i j a b = subst (λ g. SameButHost g j) a b
SameButHost-trans (s3 p bucket) i j a b = subst (λ g. SameButHost g j) a b
SameButHost-trans (proxy p host portno) i j (host', e) b = subst (λ g. SameButHost g j) e b

-- what a call leaves of its handler
abbrev Leaves : Handler → Handling Handler → Type 0
Leaves h (handled _ response g) = SameButHost h g
Leaves h _ = Unit

left-Leaves : (h g : Handler) (r : Handled) → SameButHost h g → Leaves h (left g r)
left-Leaves h g (returned result (some r)) e = e
left-Leaves h g (returned result none) e = tt
left-Leaves h g Handled.threw e = tt
left-Leaves h g Handled.undefined e = tt
left-Leaves h g Handled.diverges e = tt

module _ (around : Surroundings) where
  handle_request-Leaves :
      (h : Handler) (request : Request) (r : Response)
      → Leaves h (handle_request around h request r)
  unfolding handle_request
  handle_request-Leaves echo request r = left-Leaves echo echo (echo_handle request (some r)) refl
  handle_request-Leaves not_found request r =
      left-Leaves not_found not_found (not_found_handle request (some r)) refl
  handle_request-Leaves status request r =
      left-Leaves status status (status_handle request (some r)) refl
  handle_request-Leaves holding request r =
      left-Leaves holding holding (holding_handle request (some r)) refl
  handle_request-Leaves (static p root) request r =
      left-Leaves (static p root) (static p root)
        (static_handle around.files p root request (some r)) refl
  handle_request-Leaves (s3 p bucket) request r =
      left-Leaves (s3 p bucket) (s3 p bucket) (s3_handle around.popen p bucket request (some r))
        refl
  handle_request-Leaves (proxy p host portno) request r =
      let result = proxy_handle around.network around.redirects p host request.uri r in
      left-Leaves (proxy p host portno) (proxy p result.1 portno) result.0 (result.1, refl)

-- Every handler of the second table stands in the first one, but for the host of a proxy.
abbrev pub ComesFrom : Map Text Handler → Map Text Handler → Type 0
ComesFrom first second =
    (name : Text) (h : Handler)
    → find name second ≡ some h
    → (origin : Handler) × (find name first ≡ some origin) × SameButHost origin h

abbrev pub ComeFrom : Map Text Handler → Answer Handler → Type 0
ComeFrom handlers (answered ops uri code handlers') = ComesFrom handlers handlers'
ComeFrom handlers _ = Unit

assign-ComesFrom :
    (handlers : Map Text Handler) (key : Text) (g h : Handler)
    → find key handlers ≡ some g
    → SameButHost g h
    → ComesFrom handlers (assign key h handlers)
assign-ComesFrom handlers key g h at same name i found =
    let there = sym (find-assign key name h handlers) ∙ found in
    elim (Bool-cases (equal name key)) [
      | inl e ↦
          let here : find name handlers ≡ some g =
            subst (λ k. find k handlers ≡ some g) (sym ((equal_iff name key).0 e)) at in
          (g, here, subst (SameButHost g) (some_inj (rw e at there)) same)
      | inr e ↦ (i, rw e at there, SameButHost-refl i)
    ]
  where
    some_inj : {a b : Handler} → some a ≡ some b → a ≡ b
    some_inj e = cc

module _ (around : Surroundings) (indeterminate : ResponseCode) (handlers : Map Text Handler) where
  answer-ComeFrom :
      (uri key : Text) (g : Handler) (r : Handling Handler)
      → find key handlers ≡ some g
      → Leaves g r
      → ComeFrom handlers (answer (handle_request around) indeterminate uri handlers key r)
  answer-ComeFrom uri key g (handled _ response h) at same =
      assign-ComesFrom handlers key g h at same
  answer-ComeFrom uri key g Handling.threw at same = tt
  answer-ComeFrom uri key g Handling.undefined at same = tt
  answer-ComeFrom uri key g Handling.diverged at same = tt

  answer_read-ComeFrom :
      (bytes : Text) (s : ServerStatus)
      → ComeFrom handlers (answer_read (handle_request around) indeterminate bytes s handlers)
  answer_read-ComeFrom bytes s =
      answer_read_rule (handle_request around) indeterminate bytes s handlers (ComeFrom handlers)
        (λ r. tt)
        (λ key h at.
          answer-ComeFrom (parse bytes (some s)).uri key h _ at
            (handle_request-Leaves around h (parse bytes (some s)) empty_response))

module _ (first : Map Text Handler) where
  abbrev ComesIn : Process Handler → Type 0
  ComesIn (running t) = ComesFrom first t.handlers
  ComesIn _ = Unit

  begin-Comes :
      (ops : List Operation) (t : Running Handler)
      → ComesFrom first t.handlers
      → ComesFrom first (begin ops t).handlers
  unfolding begin
  begin-Comes [] t a = a
  begin-Comes (async_accept ∷ ops) t a = begin-Comes ops _ a
  begin-Comes (async_read_some ∷ ops) t a = begin-Comes ops _ a
  begin-Comes (async_write text ∷ ops) t a = begin-Comes ops _ a

  ComesFrom-trans :
      (second third : Map Text Handler)
      → ComesFrom first second
      → ComesFrom second third
      → ComesFrom first third
  ComesFrom-trans second third a b name h at =
      let (i, at', same) = b name h at in
      let (j, at'', same') = a name i at' in (j, at'', SameButHost-trans j i h same' same)

  after_read-ComesIn :
      (t : Running Handler) (error : Bool) (a : Answer Handler)
      → ComesFrom first t.handlers
      → ComeFrom t.handlers a
      → ComesIn (after_read error a (record t { reading = t.reading - 1 }))
  unfolding after_read
  after_read-ComesIn t true a c k = c
  after_read-ComesIn t false (answered ops uri code handlers) c k =
      begin-Comes ops _ (ComesFrom-trans t.handlers handlers c k)
  after_read-ComesIn t false threw c k = tt
  after_read-ComesIn t false undefined c k = tt
  after_read-ComesIn t false diverged c k = c

  module _ (around : Surroundings) where
    Step-ComesIn :
        {e : Event} {t : Running Handler} {p : Process Handler}
        → ComesFrom first t.handlers
        → Step (handle_request around) t e p
        → ComesIn p
    Step-ComesIn {t = t} a (take_accept error lt b eq) =
        subst ComesIn (sym eq) (begin-Comes (handle_accept error).1 _ a)
    Step-ComesIn {t = t} a (take_read indeterminate error bytes lt b _ eq) =
        subst ComesIn (sym eq) (
          after_read-ComesIn t error _ a
            (answer_read-ComeFrom around indeterminate t.handlers bytes t.server_status))
    Step-ComesIn {t = t} a (take_write error lt b eq) = subst ComesIn (sym eq) a
    Step-ComesIn {t = t} a (take_update before after uri code at eq) = subst ComesIn (sym eq) a

    pub Reach-ComesIn :
        {s : Running Handler} {es : List Event} {p : Process Handler}
        → ComesFrom first s.handlers
        → Reach (handle_request around) s es p
        → ComesIn p
    Reach-ComesIn a here = a
    Reach-ComesIn a (next r st) = Step-ComesIn (Reach-ComesIn a r) st
