-- ===== src/Server/Pool/Safety.antt =====
-- Every connection of a server has its life.
use spaceteam.Common.{
  ℕ, zero, suc, ◌+◌, Text, Bool, true, false, List, [], ◌∷◌, ◌++◌, some, Map, Option-cases, inl,
  inr, ◌≡◌, refl, ap, sym, subst, arith,
}
use spaceteam.Connection.{async_write, Handling, Answer, answered, threw, undefined, diverged}
use spaceteam.Http.Fields.{Request}
use spaceteam.Http.Response.{Response, ResponseCode}
use spaceteam.Server.Loop.Invariant.{StartsWrite, answer_read-StartsWrite}
use spaceteam.Server.Loop.{Event, accepted, read, wrote, updated}
use spaceteam.Server.Pool.Lives.{
  Life, created, Lives, one_if, held_by, uncounted, texts_of, events_at, LifeAt, accept-Life,
  read-Life, write-Life, update-Life,
}
use spaceteam.Server.Pool.Places.{change_id}
use spaceteam.Server.Pool.Threads.{
  texts_of_same, SameBut-refl, SameBut-holding, SameBut-counting, one_of_same, held_by-append,
  uncounted-append,
}
use spaceteam.Server.Pool.Changes.{Lives-change, Lives-snoc, life_of, Lives-ended, Lives-over}
use spaceteam.Server.Pool.{
  to_accept, to_read, to_write, nothing, Connection, new_connection, Thread, counting, Pool, Fate,
  going, get_elem?, change, waits_for, begin_on, end_on, handle_read_on, Waits, opened_pool, Move,
  accept_ends, read_ends, write_ends, counts, Run, here, next,
}
use spaceteam.Server.{handle_accept}
use spaceteam.Status.{ServerStatus, update_status}

abbrev pub LivesIn : {H : Type 0} → List (ℕ × Event) → Fate H → Type 0
LivesIn es (going s) = Lives es s
LivesIn es _ = Unit

module _ {H : Type 0} where
  accept-Lives :
      (k : ℕ) (error : Bool) (es : List (ℕ × Event)) (s : Pool H)
      → Lives es s
      → Waits to_accept k s
      → Lives ((k, accepted error) ∷ es) (begin_on k (handle_accept error).1 (end_on k s))
  unfolding begin_on handle_accept
  accept-Lives k true es s v w =
      Lives-over k (accepted true) es s _ v w refl (SameBut-refl k s.threads s.written)
        (accept-Life (life_of k es s v w)).0
  accept-Lives k false es s v w = Lives-snoc _ _ (
      Lives-ended to_read k (accepted false) es s
        (record s {
          connections = change (waits_for to_read) k (change (waits_for nothing) k s.connections);
        })
        v w refl (SameBut-refl k s.threads s.written) (accept-Life (life_of k es s v w)).1)

  read-Lives :
      (k : ℕ) (x : ResponseCode) (error : Bool) (bytes : Text) (a : Answer H)
      (es : List (ℕ × Event)) (s : Pool H)
      → Lives es s
      → Waits to_read k s
      → StartsWrite a
      → LivesIn ((k, read x error bytes) ∷ es) (handle_read_on k error a (end_on k s))
  unfolding handle_read_on begin_on
  read-Lives k x true bytes a es s v w f =
      Lives-over k (read x true bytes) es s _ v w refl (SameBut-refl k s.threads s.written)
        (read-Life x bytes [] (life_of k es s v w)).0
  read-Lives k x false bytes (answered ops uri code handlers) es s v w (text, f) = rw f (
      Lives-ended to_write k (read x false bytes) es s
        (begin_on k (async_write text ∷ [])
          (record (end_on k s) { threads = counting k uri code ∷ s.threads; handlers = handlers }))
        v w refl (SameBut-counting k uri code text s.threads s.written)
        (rw (one_of_same k, texts_of_same k text s.written)
          (read-Life x bytes text (life_of k es s v w)).2))
  read-Lives k x false bytes threw es s v w f = tt
  read-Lives k x false bytes undefined es s v w f = tt
  read-Lives k x false bytes diverged es s v w f =
      Lives-over k (read x false bytes) es s _ v w refl (SameBut-holding k s.threads s.written)
        (rw (one_of_same k) (read-Life x bytes [] (life_of k es s v w)).1)

  update-Lives :
      (before after : List Thread) (k : ℕ) (uri : Text) (code : ResponseCode)
      (es : List (ℕ × Event)) (s : Pool H)
      → Lives es s
      → s.threads ≡ before ++ counting k uri code ∷ after
      → Lives ((k, updated uri code) ∷ es) (record s {
        threads = before ++ after;
        server_status = update_status uri code s.server_status;
      })
  update-Lives before after k uri code es s v e =
      let one : uncounted k s.threads ≡ 1 + uncounted k (before ++ after) = omega (
        arith,
        ap (uncounted k) e,
        uncounted-append k before (counting k uri code ∷ after),
        uncounted-append k before after,
        one_of_same k,
      ) in
      let held = λ (j : ℕ). leaves-held j e in
      elim (Option-cases (get_elem? s.connections k)) [
        | inl off ↦ let (n, h, u, w) = v.no_other k off in absurd (omega (arith, one, u))
        | inr (c, at) ↦
            Lives-change (λ d. d) k (updated uri code) es s _ c v at
              (sym (change_id k s.connections))
              (λ j other. (
                held j,
                omega (
                  arith,
                  ap (uncounted j) e,
                  uncounted-append j before (counting k uri code ∷ after),
                  uncounted-append j before after,
                  ap one_if other,
                ),
                refl,
              ))
              (subst
                (λ h.
                  Life (updated uri code ∷ events_at k es) c.waits h (uncounted k (before ++ after))
                    (texts_of k s.written))
                (sym (held k)) (update-Life uri code _ (v.each k c at) one))
      ]
    where
      leaves-held :
          (j : ℕ)
          → s.threads ≡ before ++ counting k uri code ∷ after
          → held_by j (before ++ after) ≡ held_by j s.threads
      leaves-held j e = omega (
        arith,
        ap (held_by j) e,
        held_by-append j before (counting k uri code ∷ after),
        held_by-append j before after,
      )

module _ {H : Type 0} (handle_request : H → Request → Response → Handling H) where
  Move-LivesIn :
      {es : List (ℕ × Event)} {s : Pool H} {k : ℕ} {e : Event} {p : Fate H}
      → Lives es s
      → Move handle_request s k e p
      → LivesIn ((k, e) ∷ es) p
  Move-LivesIn {es = es} {s = s} v (accept_ends k error w free eq) =
      subst (LivesIn ((k, accepted error) ∷ es)) (sym eq) (accept-Lives k error es s v w)
  Move-LivesIn {es = es} {s = s} v (read_ends k x error bytes w free fits eq) =
      subst (LivesIn ((k, read x error bytes) ∷ es)) (sym eq) (
        read-Lives k x error bytes _ es s v w
          (answer_read-StartsWrite handle_request x s.handlers bytes s.server_status))
  Move-LivesIn {es = es} {s = s} v (write_ends k error w free eq) =
      subst (LivesIn ((k, wrote error) ∷ es)) (sym eq) (
        Lives-over k (wrote error) es s _ v w refl (SameBut-refl k s.threads s.written)
          (write-Life error (life_of k es s v w)))
  Move-LivesIn {es = es} {s = s} v (counts before after k uri code at eq) =
      subst (LivesIn ((k, updated uri code) ∷ es)) (sym eq)
        (update-Lives before after k uri code es s v at)

  Run-LivesIn :
      {s : Pool H} {es : List (ℕ × Event)} {p : Fate H}
      → Lives [] s
      → Run handle_request s es p
      → LivesIn es p
  Run-LivesIn v here = v
  Run-LivesIn v (next r m) = Move-LivesIn (Run-LivesIn v r) m

  -- Each connection of a server that has run since its constructor has lived so: it was created and
  -- waits to be accepted; then it was refused, or started and read once; then the read failed, or a
  -- thread is in its handler for ever, or it has given one text to `async_write`, whose write ends
  -- once and which is counted once, in either order. In no other case has it given a text. It waits
  -- for an operation and has a thread as its events say, and otherwise nothing is left of it.
  pub Run-Life :
      (status : ServerStatus) (handlers : Map Text H) {es : List (ℕ × Event)} {t : Pool H} (k : ℕ)
      (c : Connection)
      → Run handle_request (opened_pool status handlers) es (going t)
      → get_elem? t.connections k ≡ some c
      → LifeAt k es c.waits t.threads t.written
  unfolding begin_on
  Run-Life status handlers k c r at =
      let first : Lives [] (opened_pool status handlers) = record {
        each = λ j d found. first_created j d found;
        no_other = λ j off. (refl, refl, refl, refl);
      } in
      (Run-LivesIn first r).each k c at
    where
      some_inj : {a b : Connection} → some a ≡ some b → a ≡ b
      some_inj e = cc

      first_created :
          (j : ℕ) (d : Connection)
          → get_elem? (new_connection ∷ []) j ≡ some d
          → Life [] d.waits 0 0 []
      first_created zero d found =
          subst (λ (x : Connection). Life [] x.waits 0 0 []) (some_inj found) created
      first_created (suc j) d found = cc
