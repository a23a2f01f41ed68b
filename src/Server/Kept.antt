-- ===== src/Server/Kept.antt =====
-- What a round of the loop of `getServerInfo` leaves of the paths before it.
use spaceteam.Common.{
  zero, suc, Text, codes, true, false, List, [], ◌∷◌, ◌++◌, Option, none, some, equal, equal_iff,
  find, text_order, find-assign_other, Bool-cases, inl, inr, ◌≡◌, ◌≢◌, refl, ap, ◌∙◌, subst, ℤ, pos,
  negsuc,
}
use spaceteam.Config.Syntax.{Config, Statement, simple, block, nil, cons, tokens}
use spaceteam.Handler.Base.{Handler, create_by_name, init}
use spaceteam.Server.{
  Load, Loading, ◌and_then◌, loaded, refused, threw, fault, diverged, stoi, contains, registered,
  set_port, load_port, load_known, load_path, load_default, load_by_key, load_statement,
  load_statements, initialise,
}

-- a path whose handler stays as it is
abbrev Kept : Text → Load → Load → Type 0
Kept name l m =
    (contains name m.path_names ≡ true)
    × (find name m.uri_prefix_to_handler ≡ find name l.uri_prefix_to_handler)

pub loaded_inj {ℓ} : {A : Type ℓ} {a b : A} → Loading.loaded a ≡ loaded b → a ≡ b
loaded_inj e = cc

contains-append :
    (name : Text) (xs ys : List Text) → contains name xs ≡ true → contains name (xs ++ ys) ≡ true
unfolding contains
contains-append name [] ys h = cc
contains-append name (x ∷ xs) ys h = elim (Bool-cases (equal name x)) [
  | inl e ↦ rw e refl
  | inr e ↦ rw e (contains-append name xs ys (rw e at h))
]

set_port-keeps :
    (o : Option ℤ) (name : Text) (l m : Load)
    → set_port l o ≡ loaded m
    → contains name l.path_names ≡ true
    → Kept name l m
set_port-keeps none name l m e h = cc
set_port-keeps (some n) name l m e h = subst (Kept name l) (loaded_inj e) (h, refl)

load_port-keeps :
    (port : ℤ) (values : List Text) (name : Text) (l m : Load)
    → load_port port values l ≡ loaded m
    → contains name l.path_names ≡ true
    → Kept name l m
unfolding stoi
load_port-keeps (negsuc zero) (value ∷ more) name l m e h = set_port-keeps (stoi value) name l m e h
load_port-keeps (negsuc zero) [] name l m e h = cc
load_port-keeps (negsuc (suc n)) values name l m e h = cc
load_port-keeps (pos n) values name l m e h = cc

registered-keeps :
    (o : Option Handler) (name key handler_id : Text) (names : List Text) (l m : Load)
    → registered key handler_id names l o ≡ loaded m
    → equal name key ≡ false
    → contains name names ≡ true
    → Kept name l m
registered-keeps none name key handler_id names l m e d h = cc
registered-keeps (some g) name key handler_id names l m e d h =
    subst (Kept name l) (loaded_inj e) (h, find-assign_other key name g l.uri_prefix_to_handler d)

load_known-keeps :
    (o : Option Handler) (name key handler_id : Text) (config : Config) (l m : Load)
    → load_known key handler_id config l o ≡ loaded m
    → equal name key ≡ false
    → contains name l.path_names ≡ true
    → Kept name l m
load_known-keeps none name key handler_id config l m e d h = cc
load_known-keeps (some g) name key handler_id config l m e d h =
    registered-keeps (init g key config) name key handler_id (l.path_names ++ key ∷ []) l m e d
      (contains-append name l.path_names (key ∷ []) h)

other_name :
    (name key : Text) (names : List Text)
    → contains name names ≡ true
    → contains key names ≡ false
    → equal name key ≡ false
other_name name key names h k = elim (Bool-cases (equal name key)) [
  | inr e ↦ e
  | inl e ↦ let f = ap (λ t. contains t names) ((equal_iff name key).0 e) in cc
]

load_path-keeps :
    (s : Statement) (name : Text) (l m : Load)
    → load_path s l ≡ loaded m
    → contains name l.path_names ≡ true
    → Kept name l m
unfolding load_path
load_path-keeps (simple ts) name l m e h = cc
load_path-keeps (block [] c) name l m e h = cc
load_path-keeps (block (a ∷ []) c) name l m e h = cc
load_path-keeps (block (a ∷ b ∷ []) c) name l m e h = cc
load_path-keeps (block (a ∷ b ∷ i ∷ d ∷ r) c) name l m e h = cc
load_path-keeps (block (a ∷ key ∷ i ∷ []) c) name l m e h =
    elim (Bool-cases (contains key l.path_names)) [
      | inl k ↦ let f = rw k at e in cc
      | inr k ↦
          load_known-keeps (create_by_name i) name key i c l m (rw k at e)
            (other_name name key l.path_names h k) h
    ]

load_default-keeps :
    (s : Statement) (name : Text) (l m : Load)
    → load_default s l ≡ loaded m
    → equal name (codes "default") ≡ false
    → contains name l.path_names ≡ true
    → Kept name l m
unfolding load_default
load_default-keeps (simple ts) name l m e d h = cc
load_default-keeps (block [] c) name l m e d h = cc
load_default-keeps (block (a ∷ b ∷ i ∷ r) c) name l m e d h = cc
load_default-keeps (block (a ∷ i ∷ []) c) name l m e d h =
    registered-keeps (initialise (create_by_name i) (codes "default") c) name (codes "default") i
      l.path_names l m e d h
load_default-keeps (block (a ∷ []) c) name l m e d h = cc

pub load_by_key-keeps :
    (ts : List Text) (s : Statement) (name : Text) (l m : Load)
    → load_by_key ts s l ≡ loaded m
    → equal name (codes "default") ≡ false
    → contains name l.path_names ≡ true
    → Kept name l m
unfolding load_path
load_by_key-keeps [] s name l m e d h = cc
load_by_key-keeps (key ∷ values) s name l m e d h = elim (Bool-cases (equal key (codes "port"))) [
  | inl p ↦ load_port-keeps l.port values name l m (rw p at e) h
  | inr p ↦ elim (Bool-cases (equal key (codes "path"))) [
    | inl q ↦ load_path-keeps s name l m (rw (p, q) at e) h
    | inr q ↦ elim (Bool-cases (equal key (codes "default"))) [
      | inl r ↦ load_default-keeps s name l m (rw (p, q, r) at e) d h
      | inr r ↦ absurd (neither values (rw (p, q, r) at e))
    ]
  ]
]
  where
    neither : (vs : List Text) → elim vs [ [] ↦ Loading.fault | _ ∷ _ ↦ refused ] ≢ Loading.loaded m
    neither [] = cc
    neither (v ∷ vs) = cc

pub and_then-loaded {ℓ κ} :
    {A : Type ℓ} {B : Type κ} (o : Loading A) (k : A → Loading B) (b : B)
    → (o and_then k) ≡ loaded b
    → (a : A) × (o ≡ loaded a) × (k a ≡ loaded b)
and_then-loaded (loaded a) k b e = (a, refl, e)
and_then-loaded refused k b e = cc
and_then-loaded threw k b e = cc
and_then-loaded fault k b e = cc
and_then-loaded diverged k b e = cc

pub load_statements-keeps :
    (c : Config) (name : Text) (l m : Load)
    → load_statements c l ≡ loaded m
    → equal name (codes "default") ≡ false
    → contains name l.path_names ≡ true
    → Kept name l m
unfolding load_statements
load_statements-keeps nil name l m e d h = subst (Kept name l) (loaded_inj e) (h, refl)
load_statements-keeps (cons s c) name l m e d h =
    let (a, first, rest) = and_then-loaded (load_statement s l) (load_statements c) m e in
    let now = load_by_key-keeps (tokens s) s name l a first d h in
    let later = load_statements-keeps c name a m rest d now.0 in (later.0, later.1 ∙ now.1)
