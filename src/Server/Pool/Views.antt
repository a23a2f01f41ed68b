-- ===== src/Server/Pool/Views.antt =====
-- The steps of the connections are steps of the server that counts them.
use spaceteam.Common.{
  ℕ, ◌-◌, Text, Bool, true, false, List, [], ◌∷◌, ◌++◌, ◌≡◌, refl, ap, sym, ◌∙◌, arith,
}
use spaceteam.Connection.{async_write, Handling, Answer, answered, threw, undefined, diverged}
use spaceteam.Http.Fields.{Request}
use spaceteam.Http.Response.{Response, ResponseCode}
use spaceteam.Server.Loop.Invariant.{StartsWrite, answer_read-StartsWrite}
use spaceteam.Server.Loop.{
  running, Event, begin, after_read, Step, take_accept, take_read, take_write, take_update, Reach,
  HasFreeThread,
}
use spaceteam.Server.Pool.{
  Wait, to_accept, to_read, to_write, nothing, new_connection, Thread, holding, counting, Pool,
  Fate, change, waits_for, begin_on, end_on, handle_read_on, HasFree, Waits, Move, accept_ends,
  read_ends, write_ends, counts, Run,
}
use spaceteam.Server.{handle_accept}
use spaceteam.Status.{update_status}
use spaceteam.Server.Pool.Tally.{
  how_many, holders, to_count, view, events_of, seen, how_many-append, length-threads,
  holders-append, to_count-append, how_many-ended, how_many-started,
}

module _ {H : Type 0} where
  view_with :
      (s : Pool H) {a r w : ℕ}
      → how_many to_accept s.connections ≡ a
      → how_many to_read s.connections ≡ r
      → how_many to_write s.connections ≡ w
      → view s ≡ record (view s) { accepting = a; reading = r; writing = w }
  view_with s e f g = rw (e, f, g) refl

  pub accept-view :
      (k : ℕ) (error : Bool) (s : Pool H)
      → Waits to_accept k s
      → view (begin_on k (handle_accept error).1 (end_on k s))
        ≡ begin (handle_accept error).1 (record (view s) { accepting = (view s).accepting - 1 })
  unfolding begin_on begin handle_accept
  accept-view k true s w =
      let n = how_many-ended to_accept k s.connections w in
      view_with (end_on k s) (omega (arith, n to_accept)) (omega (arith, n to_read))
        (omega (arith, n to_write))
  accept-view k false s w =
      let n = λ (v : Wait). how_many-started to_accept k s.connections w v to_read in
      let m = λ (v : Wait).
        how_many-append v
          (change (waits_for to_read) k (change (waits_for nothing) k s.connections))
          (new_connection ∷ []) in
      view_with (begin_on k (handle_accept false).1 (end_on k s))
        (omega (arith, n to_accept, m to_accept)) (omega (arith, n to_read, m to_read))
        (omega (arith, n to_write, m to_write))

  pub read-view :
      (k : ℕ) (error : Bool) (a : Answer H) (s : Pool H)
      → Waits to_read k s
      → StartsWrite a
      → seen (handle_read_on k error a (end_on k s))
        ≡ after_read error a (record (view s) { reading = (view s).reading - 1 })
  unfolding handle_read_on begin_on after_read begin
  read-view k true a s w f =
      let n = how_many-ended to_read k s.connections w in
      ap running (
        view_with (end_on k s) (omega (arith, n to_accept)) (omega (arith, n to_read))
          (omega (arith, n to_write)))
  read-view k false (answered ops uri code handlers) s w (text, f) =
      let n = λ (v : Wait). how_many-started to_read k s.connections w v to_write in
      let after =
        begin_on k (async_write text ∷ []) (record (end_on k s) {
          threads = counting k uri code ∷ s.threads;
          handlers = handlers;
        }) in
      rw f (
        ap running (
          view_with after (omega (arith, n to_accept)) (omega (arith, n to_read))
            (omega (arith, n to_write))))
  read-view k false threw s w f = refl
  read-view k false undefined s w f = refl
  read-view k false diverged s w f =
      let n = how_many-ended to_read k s.connections w in
      ap running (
        view_with (record (end_on k s) { threads = holding k ∷ s.threads })
          (omega (arith, n to_accept)) (omega (arith, n to_read)) (omega (arith, n to_write)))

  pub write-view :
      (k : ℕ) (s : Pool H)
      → Waits to_write k s
      → view (end_on k s) ≡ record (view s) { writing = (view s).writing - 1 }
  write-view k s w =
      let n = how_many-ended to_write k s.connections w in
      view_with (end_on k s) (omega (arith, n to_accept)) (omega (arith, n to_read))
        (omega (arith, n to_write))

  pub free-pool : (s : Pool H) → HasFreeThread (view s) → HasFree s
  free-pool s free = omega (arith, length-threads s.threads)

  free-view : (s : Pool H) → HasFree s → HasFreeThread (view s)
  free-view s free = omega (arith, length-threads s.threads)

pub update-view :
    {H : Type 0} (before after : List Thread) (k : ℕ) (uri : Text) (code : ResponseCode)
    (s : Pool H)
    → s.threads ≡ before ++ counting k uri code ∷ after
    → view (record s {
      threads = before ++ after;
      server_status = update_status uri code s.server_status;
    })
      ≡ record (view s) {
        answering = to_count before ++ to_count after;
        server_status = update_status uri code s.server_status;
      }
update-view before after k uri code s at =
    let held : holders (before ++ after) ≡ holders s.threads =
      holders-append before after
      ∙ sym (holders-append before (counting k uri code ∷ after))
      ∙ sym (ap holders at) in
    rw (held, to_count-append before after) refl

module _ {H : Type 0} (handle_request : H → Request → Response → Handling H) where
  Move-Step :
      {s : Pool H} {k : ℕ} {e : Event} {p : Fate H}
      → Move handle_request s k e p
      → Step handle_request (view s) e (seen p)
  Move-Step {s = s} (accept_ends k error w free eq) =
      take_accept error (omega (arith, how_many-ended to_accept k s.connections w to_accept))
        (free-view s free) (ap seen eq ∙ ap running (accept-view k error s w))
  Move-Step {s = s} (read_ends k indeterminate error bytes w free fits eq) =
      take_read indeterminate error bytes
        (omega (arith, how_many-ended to_read k s.connections w to_read)) (free-view s free) fits
        (ap seen eq
          ∙ read-view k error _ s w (
              answer_read-StartsWrite handle_request indeterminate s.handlers bytes
                s.server_status))
  Move-Step {s = s} (write_ends k error w free eq) =
      take_write error (omega (arith, how_many-ended to_write k s.connections w to_write))
        (free-view s free) (ap seen eq ∙ ap running (write-view k s w))
  Move-Step {s = s} (counts before after k uri code at eq) =
      take_update (to_count before) (to_count after) uri code
        (ap to_count at ∙ to_count-append before (counting k uri code ∷ after))
        (ap seen eq ∙ ap running (update-view before after k uri code s at))

  -- Each run of the connections is a run of the server that only counts what its connections wait
  -- for, over the same events.
  pub Run-Reach :
      {s : Pool H} {es : List (ℕ × Event)} {p : Fate H}
      → Run handle_request s es p
      → Reach handle_request (view s) (events_of es) (seen p)
  Run-Reach Run.here = Reach.here
  Run-Reach (Run.next r m) = Reach.next (Run-Reach r) (Move-Step m)
