-- ===== src/Common/Maps.antt =====
-- `std::map` as the list of its entries in the order of the keys. The order is an interface.
use Prim.Native.Nat.{ℕ}
use mathlib.Core.Path.{◌≡◌, refl, sym, ap, ◌∙◌}
use mathlib.Core.Logic.{◌↔◌, inl, inr}
use mathlib.Core.Bool.{Bool, true, false}
use mathlib.Core.Option.{Option, none, some}
use mathlib.Core.List.{List, [], ◌∷◌}
use native.Mathlib.Omega.{arith}
use spaceteam.Common.Tests.{ltb, ◌==◌, ==_iff, if◌then◌else◌, Bool-cases}
use spaceteam.Common.Texts.{Text, equal, equal_iff, less, less_trans, less_total, less_irrefl}

-- What `std::map` asks of its keys: a strict total order.
pub record Order {ℓ} (K : Type ℓ) : Type ℓ where
  pub same : K → K → Bool
  pub before : K → K → Bool
  pub same_iff : (a b : K) → (same a b ≡ true) ↔ (a ≡ b)
  pub before_trans : (a b c : K) → before a b ≡ true → before b c ≡ true → before a c ≡ true
  pub before_total : (a b : K) → same a b ≡ false → before a b ≡ false → before b a ≡ true
  pub before_irrefl : (a : K) → before a a ≡ false

pub ltb_trans : (a b c : ℕ) → ltb a b ≡ true → ltb b c ≡ true → ltb a c ≡ true
ltb_trans a b c h k = ground arith

pub ltb_total : (a b : ℕ) → (a == b) ≡ false → ltb a b ≡ false → ltb b a ≡ true
ltb_total a b h k = ground arith

pub ltb_irrefl : (a : ℕ) → ltb a a ≡ false
ltb_irrefl a = ground arith

instance abbrev pub number_order : Order ℕ
number_order = record {
  same = ◌==◌;
  before = ltb;
  same_iff = ==_iff;
  before_trans = ltb_trans;
  before_total = ltb_total;
  before_irrefl = ltb_irrefl;
}

instance abbrev pub text_order : Order Text
text_order = record {
  same = equal;
  before = less;
  same_iff = equal_iff;
  before_trans = less_trans;
  before_total = less_total;
  before_irrefl = less_irrefl;
}

abbrev pub Map {ℓ κ} : Type ℓ → Type κ → Type (ℓ ⊔ κ)
Map K V = List (K × V)

pub same_refl {ℓ} : {K : Type ℓ} ⦃o : Order K⦄ (k : K) → o.same k k ≡ true
same_refl ⦃o⦄ k = (o.same_iff k k).1 refl

before_asym {ℓ} : {K : Type ℓ} ⦃o : Order K⦄ (k j : K) → o.before k j ≡ true → o.before j k ≡ false
before_asym ⦃o⦄ k j h = ground (arith, o.before_trans k j k h, o.before_irrefl k)

same_sym {ℓ} : {K : Type ℓ} ⦃o : Order K⦄ (k j : K) → o.same k j ≡ false → o.same j k ≡ false
same_sym ⦃o⦄ k j h = ground (arith, o.same_iff k j, o.same_iff j k)

module _ {ℓ κ} {K : Type ℓ} {V : Type κ} ⦃o : Order K⦄ where
  -- `find`
  unfoldable pub find : K → Map K V → Option V
  find k [] = none
  find k ((j, v) ∷ m) = if o.same k j then some v else find k m

  -- `m[k] = v`
  unfoldable pub assign : K → V → Map K V → Map K V
  assign k v [] = (k, v) ∷ []
  assign k v ((j, w) ∷ m) =
      let later = (j, w) ∷ assign k v m in
      if o.same k j then (k, v) ∷ m else if o.before k j then (k, v) ∷ (j, w) ∷ m else later

  -- A lookup finds what was assigned last.
  pub find-assign :
      (k j : K) (v : V) (m : Map K V)
      → find j (assign k v m) ≡ (if o.same j k then some v else find j m)
  unfolding find assign
  find-assign k j v [] = refl
  find-assign k j v ((i, w) ∷ m) =
      ground (arith, o.same_iff j k, o.same_iff k i, o.same_iff j i, find-assign k j v m)

  pub find-assign_self : (k : K) (v : V) (m : Map K V) → find k (assign k v m) ≡ some v
  find-assign_self k v m = find-assign k k v m ∙ rw same_refl

  pub find-assign_other :
      (k j : K) (v : V) (m : Map K V) → o.same j k ≡ false → find j (assign k v m) ≡ find j m
  find-assign_other k j v m h = find-assign k j v m ∙ rw h

  -- The keys stand in the order, each once.
  abbrev pub Above : K → Map K V → Type 0
  Above k [] = Unit
  Above k ((j, v) ∷ m) = (o.before k j ≡ true) × Above k m

  abbrev pub IsSorted : Map K V → Type 0
  IsSorted [] = Unit
  IsSorted ((k, v) ∷ m) = Above k m × IsSorted m

  Above-trans : (k j : K) (m : Map K V) → o.before k j ≡ true → Above j m → Above k m
  Above-trans k j [] h a = tt
  Above-trans k j ((i, v) ∷ m) h a = (o.before_trans k j i h a.0, Above-trans k j m h a.1)

  Above-assign :
      (i k : K) (v : V) (m : Map K V) → o.before i k ≡ true → Above i m → Above i (assign k v m)
  unfolding assign
  Above-assign i k v [] h a = (h, tt)
  Above-assign i k v ((j, w) ∷ m) h a = elim (Bool-cases (o.same k j)) [
    | inl p ↦ rw p (h, a.1)
    | inr p ↦ elim (Bool-cases (o.before k j)) [
      | inl q ↦ rw (p, q) (h, a)
      | inr q ↦ rw (p, q) (a.0, Above-assign i k v m h a.1)
    ]
  ]

  -- An assignment keeps the entries sorted.
  pub assign-IsSorted : (k : K) (v : V) (m : Map K V) → IsSorted m → IsSorted (assign k v m)
  unfolding assign
  assign-IsSorted k v [] s = (tt, tt)
  assign-IsSorted k v ((j, w) ∷ m) s = elim (Bool-cases (o.same k j)) [
    | inl p ↦ rw p (rw (sym ((o.same_iff k j).0 p)) at s)
    | inr p ↦ elim (Bool-cases (o.before k j)) [
      | inl q ↦ rw (p, q) ((q, Above-trans k j m q s.0), s)
      | inr q ↦
          rw (p, q) (Above-assign j k v m (o.before_total k j p q) s.0, assign-IsSorted k v m s.1)
    ]
  ]

  -- A second assignment to a key takes the place of the first.
  pub assign-assign : (k : K) (v w : V) (m : Map K V) → assign k v (assign k w m) ≡ assign k v m
  unfolding assign
  assign-assign k v w [] = rw same_refl refl
  assign-assign k v w ((j, u) ∷ m) = elim (Bool-cases (o.same k j)) [
    | inl p ↦ rw p (rw same_refl refl)
    | inr p ↦ elim (Bool-cases (o.before k j)) [
      | inl q ↦ rw (p, q) (rw same_refl refl)
      | inr q ↦ rw (p, q) (rw (p, q) (ap (◌∷◌ (j, u)) (assign-assign k v w m)))
    ]
  ]

  -- Assignments to different keys can change places.
  pub assign_comm :
      (k j : K) (v w : V) (m : Map K V)
      → o.same k j ≡ false
      → assign k v (assign j w m) ≡ assign j w (assign k v m)
  unfolding assign
  assign_comm k j v w [] d = ground (
    arith,
    same_sym k j,
    o.before_total k j,
    o.before_total j k,
    before_asym k j,
    before_asym j k,
  )
  assign_comm k j v w ((i, u) ∷ m) d = ground (
    arith,
    assign_comm k j v w m,
    same_sym k j,
    o.same_iff k i,
    o.same_iff j i,
    o.before_total k j,
    o.before_total k i,
    o.before_total j i,
    before_asym k j,
    before_asym j k,
    o.before_trans k i j,
    o.before_trans j i k,
  )
