-- ===== src/Status/Order.antt =====
-- The order of the updates: threads that count requests one after another leave the same counters
-- whichever comes first.
use mathlib.Core.List.{Perm, Permᴰ}
use mathlib.Core.Logic.{∥∥₁_elim}
use spaceteam.Common.{
  ℕ, ◌+◌, ◌%◌, Text, List, [], ◌∷◌, ◌≡◌, refl, ap, ap₂, sym, ◌∙◌, arith, false, ◌==◌, ==_iff, equal,
  equal_iff, Bool-cases, inl, inr, Map, find, assign, number_order, text_order, find-assign_self,
  find-assign_other, assign-assign, assign_comm,
}
use spaceteam.Http.Response.{ResponseCode}
use spaceteam.Status.{
  ServerStatus, unsigned_mod, response_code_number, codes_of, bump, update_status,
}
use spaceteam.Status.Counts.{Event, record_all}

-- one more for a code
abbrev tick : ℕ → Map ℕ ℕ → Map ℕ ℕ
tick c m = assign c (bump (find c m)) m

-- one more for a URI and a code
abbrev count : Text → ℕ → Map Text (Map ℕ ℕ) → Map Text (Map ℕ ℕ)
count u c m = assign u (tick c (codes_of (find u m))) m

other_key : (a b : ℕ) → (a == b) ≡ false → (b == a) ≡ false
other_key a b h = ground arith

tick_comm : (c d : ℕ) (m : Map ℕ ℕ) → tick c (tick d m) ≡ tick d (tick c m)
tick_comm c d m = elim (Bool-cases (c == d)) [
  | inl p ↦ let e : c ≡ d = (==_iff c d).0 p in rw e refl
  | inr p ↦
      ap (λ o. assign c (bump o) (tick d m)) (find-assign_other d c _ m p)
      ∙ assign_comm c d _ _ m p
      ∙ ap (λ o. assign d (bump o) (tick c m)) (sym (find-assign_other c d _ m (other_key c d p)))
]

other_text : (u v : Text) → equal u v ≡ false → equal v u ≡ false
other_text u v h = ground (arith, equal_iff u v, equal_iff v u)

count_self :
    (u : Text) (c d : ℕ) (m : Map Text (Map ℕ ℕ))
    → count u c (count u d m) ≡ assign u (tick c (tick d (codes_of (find u m)))) m
count_self u c d m =
    ap (λ o. assign u (tick c (codes_of o)) (count u d m)) (find-assign_self u _ m)
    ∙ assign-assign u _ _ m

count_comm :
    (u v : Text) (c d : ℕ) (m : Map Text (Map ℕ ℕ))
    → count u c (count v d m) ≡ count v d (count u c m)
count_comm u v c d m = elim (Bool-cases (equal u v)) [
  | inl p ↦
      let e : u ≡ v = (equal_iff u v).0 p in
      rw e (
        count_self v c d m
        ∙ ap (λ t. assign v t m) (tick_comm c d (codes_of (find v m)))
        ∙ sym (count_self v d c m))
  | inr p ↦
      ap (λ o. assign u (tick c (codes_of o)) (count v d m)) (find-assign_other v u _ m p)
      ∙ assign_comm u v _ _ m p
      ∙ ap (λ o. assign v (tick d (codes_of o)) (count u c m))
          (sym (find-assign_other u v _ m (other_text u v p)))
]

-- Two updates can change places.
update_status_comm :
    (u v : Text) (c d : ResponseCode) (s : ServerStatus)
    → update_status u c (update_status v d s) ≡ update_status v d (update_status u c s)
unfolding update_status
update_status_comm u v c d s =
    ap
      (λ m. record s {
        server_status = m;
        num_requests = ((s.num_requests + 1) % unsigned_mod + 1) % unsigned_mod;
      })
      (count_comm u v (response_code_number c) (response_code_number d) s.server_status)

record_all-Permᴰ :
    {es fs : List Event} → Permᴰ es fs → (s : ServerStatus) → record_all es s ≡ record_all fs s
record_all-Permᴰ Permᴰ.nil s = refl
record_all-Permᴰ (Permᴰ.cons {a = a} {b = b} {l₁ = l} {l₂ = k} e d) s =
    record_all-Permᴰ d (update_status a.0 a.1 s)
    ∙ ap (λ (x : Event). record_all k (update_status x.0 x.1 s)) e
record_all-Permᴰ (Permᴰ.swap {a = a} {b = b} {a' = a'} {b' = b'} {l = l} e f) s =
    ap (record_all l) (update_status_comm b.0 a.0 b.1 a.1 s)
    ∙ ap₂ (λ (x y : Event). record_all l (update_status y.0 y.1 (update_status x.0 x.1 s))) f e
record_all-Permᴰ (Permᴰ.trans d e) s = record_all-Permᴰ d s ∙ record_all-Permᴰ e s

ServerStatus-IsSet : IsSet ServerStatus
ServerStatus-IsSet = hlevel

-- Two histories of requests of which one is a permutation of the other lead from one
-- `ServerStatus` to the same one.
pub record_all-Perm :
    {es fs : List Event} (s : ServerStatus) → Perm es fs → record_all es s ≡ record_all fs s
record_all-Perm {es = es} {fs = fs} s p =
    ∥∥₁_elim p (ServerStatus-IsSet (record_all es s) (record_all fs s)) (λ d. record_all-Permᴰ d s)

-- The last update of a history may come first.
pub update_status-record_all :
    (u : Text) (c : ResponseCode) (es : List Event) (s : ServerStatus)
    → update_status u c (record_all es s) ≡ record_all ((u, c) ∷ es) s
update_status-record_all u c [] s = refl
update_status-record_all u c ((v, d) ∷ es) s =
    update_status-record_all u c es (update_status v d s)
    ∙ ap (record_all es) (update_status_comm u v c d s)
