-- ===== src/Server/Pool/Changes.antt =====
-- How one event changes the lives of the connections.
use spaceteam.Common.{
  ℕ, ◌==◌, ==_iff, List, [], ◌∷◌, ◌++◌, none, some, Bool-cases, inl, inr, ◌≡◌, refl, ap, sym, ◌∙◌,
  subst,
}
use spaceteam.Server.Loop.{Event}
use spaceteam.Server.Pool.Lives.{
  Life, created, Lives, held_by, uncounted, texts_of, events_at, LifeAt,
}
use spaceteam.Server.Pool.Places.{
  change-twice, get_elem?-change_cases, get_elem?-change-none, get_elem?-snoc_cases,
  get_elem?-snoc-none,
}
use spaceteam.Server.Pool.Threads.{SameBut}
use spaceteam.Server.Pool.{
  Wait, nothing, Connection, new_connection, Pool, get_elem?, change, waits_for, Waits,
}

-- An event belongs to its connection, and to no other.
events_at_same :
    (k : ℕ) (e : Event) (es : List (ℕ × Event)) → events_at k ((k, e) ∷ es) ≡ e ∷ events_at k es
events_at_same k e es = rw ((==_iff k k).1 refl) refl

module _ {H : Type 0} where
  -- An event of one connection changes what it waits for, and the threads that are in it.
  pub Lives-change :
      (f : Connection → Connection) (k : ℕ) (e : Event) (es : List (ℕ × Event)) (s t : Pool H)
      (c : Connection)
      → Lives es s
      → get_elem? s.connections k ≡ some c
      → t.connections ≡ change f k s.connections
      → SameBut k s.threads t.threads s.written t.written
      → Life
          (e ∷ events_at k es)
          (f c).waits
          (held_by k t.threads)
          (uncounted k t.threads)
          (texts_of k t.written)
      → Lives ((k, e) ∷ es) t
  Lives-change f k e es s t c v at eq same life = record {
    each = λ j d found.
        elim (get_elem?-change_cases f k j s.connections d
          (subst (λ cs. get_elem? cs j ≡ some d) eq found)) [
            | inl (it, (c', at', is)) ↦
                let one : c ≡ c' = some_inj (sym at ∙ at') in
                let shape : d ≡ f c = is ∙ sym (ap f one) in
                subst (λ i. LifeAt i ((k, e) ∷ es) d.waits t.threads t.written) it
                  (subst (λ (x : Connection). LifeAt k ((k, e) ∷ es) x.waits t.threads t.written)
                    (sym shape)
                    (subst
                      (λ past.
                        Life past (f c).waits (held_by k t.threads) (uncounted k t.threads)
                          (texts_of k t.written))
                      (sym (events_at_same k e es)) life))
            | inr (other, at') ↦
                let (h, u, w) = same j other in rw (other, h, u, w) (v.each j d at')
          ];
    no_other = λ j off.
        let gone =
          get_elem?-change-none f k j s.connections (subst (λ cs. get_elem? cs j ≡ none) eq off) in
        elim (Bool-cases (k == j)) [
          | inl it ↦
              let there : get_elem? s.connections k ≡ none =
                subst (λ i. get_elem? s.connections i ≡ none) (sym ((==_iff k j).0 it)) gone in
              cc
          | inr other ↦
              let (h, u, w) = same j other in
              let (n, p, q, o) = v.no_other j gone in (rw other n, h ∙ p, u ∙ q, w ∙ o)
        ];
  }
    where
      some_inj : {a b : Connection} → some a ≡ some b → a ≡ b
      some_inj e = cc

  pub Lives-snoc :
      (es : List (ℕ × Event)) (s : Pool H)
      → Lives es s
      → Lives es (record s { connections = s.connections ++ new_connection ∷ [] })
  Lives-snoc es s v = record {
    each = λ j d found. elim (get_elem?-snoc_cases j s.connections new_connection d found) [
      | inl at ↦ v.each j d at
      | inr (off, is) ↦
          let (n, h, u, w) = v.no_other j off in
          subst (λ (x : Connection). LifeAt j es x.waits s.threads s.written) (sym is)
            (rw (n, h, u, w) created)
    ];
    no_other = λ j off. v.no_other j (get_elem?-snoc-none j s.connections new_connection off);
  }

  -- the life of a connection that waits
  pub life_of :
      {w : Wait} (k : ℕ) (es : List (ℕ × Event)) (s : Pool H)
      → Lives es s
      → Waits w k s
      → LifeAt k es w s.threads s.written
  life_of k es s v (c, at, is) = subst (λ w. LifeAt k es w s.threads s.written) is (v.each k c at)

  -- The operation ends, and the connection may start another one.
  pub Lives-ended :
      {w : Wait} (u : Wait) (k : ℕ) (e : Event) (es : List (ℕ × Event)) (s t : Pool H)
      → Lives es s
      → Waits w k s
      → t.connections ≡ change (waits_for u) k (change (waits_for nothing) k s.connections)
      → SameBut k s.threads t.threads s.written t.written
      → Life
          (e ∷ events_at k es)
          u
          (held_by k t.threads)
          (uncounted k t.threads)
          (texts_of k t.written)
      → Lives ((k, e) ∷ es) t
  Lives-ended u k e es s t v (c, at, is) eq same life =
      Lives-change (waits_for u) k e es s t c v at
        (eq ∙ change-twice (waits_for nothing) (waits_for u) k s.connections) same life

  -- The operation ends, and the connection starts no other.
  pub Lives-over :
      {w : Wait} (k : ℕ) (e : Event) (es : List (ℕ × Event)) (s t : Pool H)
      → Lives es s
      → Waits w k s
      → t.connections ≡ change (waits_for nothing) k s.connections
      → SameBut k s.threads t.threads s.written t.written
      → Life
          (e ∷ events_at k es)
          nothing
          (held_by k t.threads)
          (uncounted k t.threads)
          (texts_of k t.written)
      → Lives ((k, e) ∷ es) t
  Lives-over k e es s t v (c, at, is) eq same life =
      Lives-change (waits_for nothing) k e es s t c v at eq same life
