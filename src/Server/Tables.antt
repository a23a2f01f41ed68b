-- ===== src/Server/Tables.antt =====
-- The two tables of a server: the handlers by prefix, and the prefixes by class.
use spaceteam.Common.{
  Text, Bool, true, false, ◌||◌, List, [], ◌∷◌, ◌++◌, Option, none, some, equal, less,
  if◌then◌else◌, Map, find, assign, text_order, find-assign, Bool-cases, inl, inr, ◌≡◌, refl, ap,
  sym, ◌∙◌, arith, subst,
}
use spaceteam.Handler.Base.{Handler}
use spaceteam.Server.Rounds.{make_server-keeps_all, IsMade}
use spaceteam.Server.{
  Load, loaded, Server, contains, register, prefixes_of, new_server, make_server,
}
use spaceteam.Status.{add_handler_info}

abbrev pub is_some {ℓ} : {A : Type ℓ} → Option A → Bool
is_some none = false
is_some (some a) = true

-- a prefix stands under some class
abbrev pub is_listed : Text → Map Text (List Text) → Bool
is_listed name [] = false
is_listed name ((id, prefixes) ∷ m) = contains name prefixes || is_listed name m

contains-snoc :
    (name : Text) (ps : List Text) (n : Text)
    → contains name (ps ++ n ∷ []) ≡ (contains name ps || equal name n)
unfolding contains
contains-snoc name [] n = ground arith
contains-snoc name (p ∷ ps) n = ground (arith, contains-snoc name ps n)

contains-find :
    (name id : Text) (m : Map Text (List Text))
    → contains name (prefixes_of (find id m)) ≡ true
    → is_listed name m ≡ true
unfolding find contains
contains-find name id [] h = cc
contains-find name id ((j, w) ∷ m) h = elim (Bool-cases (equal id j)) [
  | inl e ↦ let g = rw e at h in rw g refl
  | inr e ↦ let g = contains-find name id m (rw e at h) in ground arith
]

is_listed-assign :
    (name id n : Text) (ps : List Text) (m : Map Text (List Text))
    → ps ≡ prefixes_of (find id m)
    → is_listed name (assign id (ps ++ n ∷ []) m) ≡ (equal name n || is_listed name m)
unfolding find assign contains
is_listed-assign name id n ps [] at = rw at (ground (arith, contains-snoc name [] n))
is_listed-assign name id n ps ((j, w) ∷ m) at = elim (Bool-cases (equal id j)) [
  | inl e ↦ let same = rw e at at in rw (e, same) (ground (arith, contains-snoc name w n))
  | inr e ↦ elim (Bool-cases (less id j)) [
    | inl b ↦
        let later = rw e at at in
        let held = contains-find name id m in
        let kept =
          subst (λ qs. contains name qs ≡ true → is_listed name m ≡ true) (sym later) held in
        rw (e, b) (ground (arith, contains-snoc name ps n))
    | inr b ↦ rw (e, b) (ground (arith, is_listed-assign name id n ps m (rw e at at)))
  ]
]

-- the tables name the same prefixes
abbrev SameNames : Load → Type 0
SameNames l =
    (name : Text)
    → is_some (find name l.uri_prefix_to_handler) ≡ is_listed name l.handler_name_to_prefixes

register-SameNames :
    (name handler_id : Text) (h : Handler) (names : List Text) (l : Load)
    → IsMade handler_id name h
    → SameNames l
    → SameNames (register name handler_id h names l)
register-SameNames name handler_id h names l made same n =
    ap is_some (find-assign name n h l.uri_prefix_to_handler)
    ∙ split (equal n name) refl
    ∙ sym (is_listed-assign n handler_id name _ l.handler_name_to_prefixes refl)
  where
    split :
        (b : Bool)
        → equal n name ≡ b
        → is_some (if equal n name then some h else find n l.uri_prefix_to_handler)
          ≡ (equal n name || is_listed n l.handler_name_to_prefixes)
    split true e = rw e refl
    split false e = rw e (same n)

-- In a server that is made, the table by which handlers are found has an entry for exactly the
-- prefixes that the status page lists under the handlers' classes.
pub make_server-tables :
    (file : Option Text) (server : Server) (name : Text)
    → make_server file ≡ loaded server
    → is_some (find name server.uri_prefix_to_handler)
      ≡ is_listed name server.server_status.handler_name_to_prefixes
unfolding new_server add_handler_info find
make_server-tables file server name e =
    let (l, same, made) =
      make_server-keeps_all SameNames (λ value n l unset read p. p) register-SameNames file server e
        (λ n. refl) in
    subst
      (λ (v : Server).
        is_some (find name v.uri_prefix_to_handler)
        ≡ is_listed name v.server_status.handler_name_to_prefixes)
      made (same name)
