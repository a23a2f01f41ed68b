-- ===== src/Status/Counts.antt =====
-- The counters against a history: after any requests each counter is the number of requests that it
-- stands for, and the totals agree, modulo 2 ^ 32.
use spaceteam.Common.{
  ℕ, ◌+◌, ◌%◌, ◌<◌, Text, List, [], ◌∷◌, ◌≡◌, refl, ap, ◌∙◌, arith, Bool, ◌&&◌, ◌==◌, ==_iff, equal,
  equal_iff, less, if◌then◌else◌, Bool-cases, Option, none, some, inl, inr, Map, find, assign,
  number_order, text_order, find-assign_self, find-assign_other, IsSorted, assign-IsSorted, length,
}
use spaceteam.Http.Response.{ResponseCode}
use spaceteam.Status.{
  ServerStatus, new_status, unsigned_mod, response_code_number, codes_of, bump, update_status,
}

-- the counter of a URI and a code; a missing one is 0
abbrev pub value : Option ℕ → ℕ
value none = 0
value (some n) = n

abbrev pub count_of : Text → ℕ → ServerStatus → ℕ
count_of uri code s = value (find code (codes_of (find uri s.server_status)))

abbrev pub Event : Type 0
Event = Text × ResponseCode

abbrev pub hits : Text → ℕ → Event → Bool
hits uri code e = equal uri e.0 && code == response_code_number e.1

find_code :
    (code c : ℕ) (m : Map ℕ ℕ)
    → value (find code (assign c (bump (find c m)) m))
      ≡ (if code == c then bump (find code m) else value (find code m))
find_code code c m = elim (Bool-cases (code == c)) [
  | inl p ↦
      let e : code ≡ c = (==_iff code c).0 p in
      rw (p, e) (ap value (find-assign_self c (bump (find c m)) m))
  | inr p ↦ rw p (ap value (find-assign_other c code (bump (find c m)) m p))
]

-- One update counts for its own URI and code, and leaves every other counter.
count_of-update_status :
    (uri u : Text) (code : ℕ) (c : ResponseCode) (s : ServerStatus)
    → count_of uri code (update_status u c s) ≡ (
        if hits uri code (u, c)
        then bump (find code (codes_of (find uri s.server_status)))
        else count_of uri code s)
unfolding update_status
count_of-update_status uri u code c s = elim (Bool-cases (equal uri u)) [
  | inl p ↦
      let e : uri ≡ u = (equal_iff uri u).0 p in
      rw (p, e)
        (ap (λ o. value (find code (codes_of o))) (find-assign_self u _ s.server_status)
          ∙ find_code code (response_code_number c) _)
  | inr p ↦
      rw p (ap (λ o. value (find code (codes_of o))) (find-assign_other u uri _ s.server_status p))
]

-- the state after a history of requests
abbrev pub record_all : List Event → ServerStatus → ServerStatus
record_all [] s = s
record_all ((u, c) ∷ es) s = record_all es (update_status u c s)

-- how often a history hits a counter
abbrev pub occurrences : Text → ℕ → List Event → ℕ
occurrences uri code [] = 0
occurrences uri code (e ∷ es) = (if hits uri code e then 1 else 0) + occurrences uri code es

bump-value : (o : Option ℕ) → value o < unsigned_mod → bump o ≡ (value o + 1) % unsigned_mod
bump-value none h = refl
bump-value (some n) h = refl

count_of-step :
    (uri : Text) (code : ℕ) (e : Event) (s : ServerStatus)
    → count_of uri code s < unsigned_mod
    → count_of uri code (update_status e.0 e.1 s)
      ≡ (count_of uri code s + (if hits uri code e then 1 else 0)) % unsigned_mod
count_of-step uri code (u, c) s h = elim (Bool-cases (hits uri code (u, c))) [
  | inl p ↦ count_of-update_status uri u code c s ∙ rw p (bump-value _ h)
  | inr p ↦ count_of-update_status uri u code c s ∙ rw p (omega arith)
]

pub count_of-record_all :
    (es : List Event) (uri : Text) (code : ℕ) (s : ServerStatus)
    → count_of uri code s < unsigned_mod
    → count_of uri code (record_all es s)
      ≡ (count_of uri code s + occurrences uri code es) % unsigned_mod
count_of-record_all [] uri code s h = omega arith
count_of-record_all (e ∷ es) uri code s h =
    let step = count_of-step uri code e s h in
    omega (arith, count_of-record_all es uri code (update_status e.0 e.1 s) (omega arith))

pub num_requests-record_all :
    (es : List Event) (s : ServerStatus)
    → s.num_requests < unsigned_mod
    → (record_all es s).num_requests ≡ (s.num_requests + length es) % unsigned_mod
unfolding update_status
num_requests-record_all [] s h = omega arith
num_requests-record_all ((u, c) ∷ es) s h =
    omega (arith, num_requests-record_all es (update_status u c s) (omega arith))

-- From a new `ServerStatus`, after the requests of any history, the counter of a URI and a code is
-- the number of those requests with that URI and code, and the total is the number of all of them,
-- both modulo 2 ^ 32.
pub record_all-counts :
    (es : List Event) (uri : Text) (code : ℕ)
    → (count_of uri code (record_all es new_status) ≡ occurrences uri code es % unsigned_mod)
      × ((record_all es new_status).num_requests ≡ length es % unsigned_mod)
unfolding find
record_all-counts es uri code = (
  omega (arith, count_of-record_all es uri code new_status (omega arith)),
  omega (arith, num_requests-record_all es new_status (omega arith)),
)

-- every map of counters is sorted
abbrev pub AllSorted : Map Text (Map ℕ ℕ) → Type 0
AllSorted [] = Unit
AllSorted ((u, counts) ∷ m) = IsSorted counts × AllSorted m

-- The maps hold each URI once and, for each, each code once, in ascending order.
abbrev pub IsOrdered : ServerStatus → Type 0
IsOrdered s = IsSorted s.server_status × AllSorted s.server_status

find-AllSorted : (u : Text) (m : Map Text (Map ℕ ℕ)) → AllSorted m → IsSorted (codes_of (find u m))
unfolding find
find-AllSorted u [] h = tt
find-AllSorted u ((v, counts) ∷ m) h = elim (Bool-cases (equal u v)) [
  | inl p ↦ rw p h.0
  | inr p ↦ rw p (find-AllSorted u m h.1)
]

assign-AllSorted :
    (u : Text) (counts : Map ℕ ℕ) (m : Map Text (Map ℕ ℕ))
    → IsSorted counts
    → AllSorted m
    → AllSorted (assign u counts m)
unfolding assign
assign-AllSorted u counts [] k h = (k, tt)
assign-AllSorted u counts ((v, old) ∷ m) k h = elim (Bool-cases (equal u v)) [
  | inl p ↦ rw p (k, h.1)
  | inr p ↦ elim (Bool-cases (less u v)) [
    | inl q ↦ rw (p, q) (k, h)
    | inr q ↦ rw (p, q) (h.0, assign-AllSorted u counts m k h.1)
  ]
]

update_status-IsOrdered :
    (u : Text) (c : ResponseCode) (s : ServerStatus) → IsOrdered s → IsOrdered (update_status u c s)
unfolding update_status
update_status-IsOrdered u c s (h, k) = (
  assign-IsSorted u _ s.server_status h,
  assign-AllSorted u _ s.server_status
      (assign-IsSorted (response_code_number c) _ (codes_of (find u s.server_status))
        (find-AllSorted u s.server_status k))
      k,
)

-- After any history the report names each URI once and each of its codes once, in ascending order.
pub record_all-IsOrdered :
    (es : List Event) (s : ServerStatus) → IsOrdered s → IsOrdered (record_all es s)
record_all-IsOrdered [] s h = h
record_all-IsOrdered ((u, c) ∷ es) s h =
    record_all-IsOrdered es (update_status u c s) (update_status-IsOrdered u c s h)
