-- ===== src/Server/Loop/Crashes.antt =====
-- How an exception ends the process.
use spaceteam.Common.{
  Text, codes, Bool, true, false, List, ◌∷◌, none, some, Map, find, text_order, ◌≡◌, ◌⊎◌, inl, inr,
  refl, sym, ◌∙◌,
}
use spaceteam.Connection.Calls.{answer_read_rule}
use spaceteam.Connection.{
  Handling, handled, Answer, answered, threw, undefined, diverged, answer, answer_read,
  referred_prefix,
}
use spaceteam.Http.Fields.{Request}
use spaceteam.Http.Request.{parse}
use spaceteam.Http.Response.{Response, ResponseCode, empty_response}
use spaceteam.Server.Loop.{
  Running, Process, running, terminated, Event, read, after_read, take_accept, take_read,
  take_write, take_update, Reach, here, next,
}
use spaceteam.Status.{ServerStatus}

after_read-threw :
    {H : Type 0} (error : Bool) (a : Answer H) (t : Running H)
    → after_read error a t ≡ terminated
    → (error ≡ false) × (a ≡ threw)
unfolding after_read
after_read-threw true a t e = cc
after_read-threw false (answered ops uri code handlers) t e = cc
after_read-threw false threw t e = (refl, refl)
after_read-threw false undefined t e = cc
after_read-threw false diverged t e = cc

module _ {H : Type 0} (handle_request : H → Request → Response → Handling H) where
  answer-threw :
      (indeterminate : ResponseCode) (uri key : Text) (handlers : Map Text H) (g : Handling H)
      → answer handle_request indeterminate uri handlers key g ≡ threw
      → g ≡ Handling.threw
  answer-threw indeterminate uri key handlers (handled ended r h) e = cc
  answer-threw indeterminate uri key handlers Handling.threw e = refl
  answer-threw indeterminate uri key handlers Handling.undefined e = cc
  answer-threw indeterminate uri key handlers Handling.diverged e = cc

  -- What makes a read throw: a `Referer` without a path, no default handler, or a handler that throws.
  abbrev pub Throws : Request → Map Text H → Type 0
  Throws request handlers =
      (referred_prefix request.headers request.uri ≡ none)
      ⊎ (find (codes "default") handlers ≡ none)
      ⊎ ((key : Text) × (h : H) × (find key handlers ≡ some h)
          × (handle_request h request empty_response ≡ Handling.threw))

  answer_read-Throws :
      (indeterminate : ResponseCode) (bytes : Text) (s : ServerStatus) (handlers : Map Text H)
      → answer_read handle_request indeterminate bytes s handlers ≡ threw
      → Throws (parse bytes (some s)) handlers
  answer_read-Throws indeterminate bytes s handlers =
      answer_read_rule handle_request indeterminate bytes s handlers
        (λ a. a ≡ threw → Throws (parse bytes (some s)) handlers)
        (λ r e. elim r [ inl bad ↦ inl bad | inr off ↦ inr (inl off) ])
        (λ key h at e. inr (inr (key, h, at, answer-threw indeterminate _ key handlers _ e)))

  -- the read that ended the process, and the server before it
  pub record Crash (s : Running H) (es : List Event) : Type 0 where
    pub before : Running H
    pub earlier : List Event
    pub indeterminate : ResponseCode
    pub bytes : Text
    pub last : es ≡ read indeterminate false bytes ∷ earlier
    pub reached : Reach handle_request s earlier (running before)
    pub reason : Throws (parse bytes (some before.server_status)) before.handlers

  pub Reach-Crash :
      {s : Running H} {es : List Event} {p : Process H}
      → Reach handle_request s es p
      → p ≡ terminated
      → Crash s es
  Reach-Crash here e = cc
  Reach-Crash (next r (take_accept error lt free eq)) e = let both = sym eq ∙ e in cc
  Reach-Crash (next r (take_write error lt free eq)) e = let both = sym eq ∙ e in cc
  Reach-Crash (next r (take_update before after uri code at eq)) e = let both = sym eq ∙ e in cc
  Reach-Crash {s = s}
        (next {es = es} {t = t} r (take_read indeterminate error bytes lt free fits eq)) e =
      let (fine, a) = after_read-threw error _ _ (sym eq ∙ e) in
      record {
        before = t;
        earlier = es;
        indeterminate = indeterminate;
        bytes = bytes;
        last = rw fine refl;
        reached = r;
        reason = answer_read-Throws indeterminate bytes t.server_status t.handlers a;
      }
