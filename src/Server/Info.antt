-- ===== src/Server/Info.antt =====
-- What `getServerInfo` registers.
use spaceteam.Common.{
  Text, codes, true, false, List, [], ◌∷◌, ◌++◌, Option, none, some, equal, equal_iff, find,
  text_order, find-assign_self, Bool-cases, Option-cases, inl, inr, ◌≡◌, ◌≢◌, refl, sym, subst,
}
use spaceteam.Config.Syntax.{Config, Statement, block, nil, cons, tokens, append}
use spaceteam.Config.Parser.{parse_file, accepted}
use spaceteam.Handler.Base.{Handler, create_by_name, init}
use spaceteam.Server.{
  Load, loaded, ServerInfo, contains, load_known, load_path, load_statement, load_statements,
  info_of, get_server_info, initial,
}
use spaceteam.Server.Kept.{loaded_inj, load_by_key-keeps, and_then-loaded, load_statements-keeps}

-- the handler of a `path` statement, made and initialised
abbrev pub IsHandlerOf : Text → Text → Config → Option Handler → Type 0
IsHandlerOf name handler_id config found =
    (g : Handler) × (h : Handler) × (create_by_name handler_id ≡ some g)
    × (init g name config ≡ some h)
    × (found ≡ some h)

abbrev pub path_statement : Text → Text → Config → Statement
path_statement name handler_id config = block (codes "path" ∷ name ∷ handler_id ∷ []) config

contains-last : (name : Text) (names : List Text) → contains name (names ++ name ∷ []) ≡ true
unfolding contains
contains-last name [] = rw ((equal_iff name name).1 refl) refl
contains-last name (n ∷ names) = elim (Bool-cases (equal name n)) [
  | inl e ↦ rw e refl
  | inr e ↦ rw e (contains-last name names)
]

load_known-registers :
    (o : Option Handler) (name handler_id : Text) (config : Config) (l m : Load)
    → create_by_name handler_id ≡ o
    → load_known name handler_id config l o ≡ loaded m
    → (contains name m.path_names ≡ true)
      × IsHandlerOf name handler_id config (find name m.uri_prefix_to_handler)
load_known-registers none name handler_id config l m c e = cc
load_known-registers (some g) name handler_id config l m c e =
    elim (Option-cases (init g name config)) [
      | inl n ↦ let f = rw n at e in cc
      | inr (h, i) ↦
          let same = loaded_inj (rw i at e) in
          subst
            (λ k.
              (contains name k.path_names ≡ true)
              × IsHandlerOf name handler_id config (find name k.uri_prefix_to_handler))
            same
            (
              contains-last name l.path_names,
              (g, h, c, i, find-assign_self name h l.uri_prefix_to_handler),
            )
    ]

load_path-registers :
    (name handler_id : Text) (config : Config) (l m : Load)
    → load_path (path_statement name handler_id config) l ≡ loaded m
    → (contains name m.path_names ≡ true)
      × IsHandlerOf name handler_id config (find name m.uri_prefix_to_handler)
unfolding load_path
load_path-registers name handler_id config l m e = elim (Bool-cases (contains name l.path_names)) [
  | inl k ↦ let f = rw k at e in cc
  | inr k ↦
      load_known-registers (create_by_name handler_id) name handler_id config l m refl (rw k at e)
]

load_statements-registers :
    (before : Config) (name handler_id : Text) (config after : Config) (l m : Load)
    → load_statements (append before (cons (path_statement name handler_id config) after)) l
      ≡ loaded m
    → equal name (codes "default") ≡ false
    → IsHandlerOf name handler_id config (find name m.uri_prefix_to_handler)
unfolding load_statements equal
load_statements-registers nil name handler_id config after l m e d =
    let s = path_statement name handler_id config in
    let (a, first, rest) = and_then-loaded (load_statement s l) (load_statements after) m e in
    let (k, found) = load_path-registers name handler_id config l a first in
    subst (IsHandlerOf name handler_id config)
      (sym (load_statements-keeps after name a m rest d k).1) found
load_statements-registers (cons s before) name handler_id config after l m e d =
    let all = append before (cons (path_statement name handler_id config) after) in
    let (a, first, rest) = and_then-loaded (load_statement s l) (load_statements all) m e in
    load_statements-registers before name handler_id config after a m rest d

-- If `getServerInfo` succeeds on a file, then for every `path` statement of its configuration whose
-- name is not "default", the class that the statement names exists, its object's `Init` with the
-- statement's name and block succeeds, and the initialised object is what the table holds for the
-- name in the end: no other statement replaces it.
pub get_server_info-registers :
    (file : Option Text) (before : Config) (name handler_id : Text) (config after : Config)
    (info : ServerInfo)
    → parse_file file
      ≡ accepted (append before (cons (path_statement name handler_id config) after))
    → get_server_info file ≡ loaded info
    → equal name (codes "default") ≡ false
    → IsHandlerOf name handler_id config (find name info.uri_prefix_to_handler)
unfolding get_server_info
get_server_info-registers file before name handler_id config after info p e d =
    let all = append before (cons (path_statement name handler_id config) after) in
    let (m, run, same) =
      and_then-loaded (load_statements all initial) (λ l. loaded (info_of l)) info (rw p at e) in
    subst (λ i. IsHandlerOf name handler_id config (find name i.uri_prefix_to_handler))
      (loaded_inj same)
      (load_statements-registers before name handler_id config after initial m run d)

load_path-refuses :
    (name handler_id : Text) (config : Config) (l m : Load)
    → contains name l.path_names ≡ true
    → load_path (path_statement name handler_id config) l ≢ loaded m
unfolding load_path
load_path-refuses name handler_id config l m h = rw h cc

load_statements-refuses :
    (before : Config) (name handler_id : Text) (config after : Config) (l m : Load)
    → equal name (codes "default") ≡ false
    → contains name l.path_names ≡ true
    → load_statements (append before (cons (path_statement name handler_id config) after)) l
      ≢ loaded m
unfolding load_statements equal
load_statements-refuses nil name handler_id config after l m d h e =
    let s = path_statement name handler_id config in
    let (a, first, rest) = and_then-loaded (load_statement s l) (load_statements after) m e in
    load_path-refuses name handler_id config l a h first
load_statements-refuses (cons s before) name handler_id config after l m d h e =
    let all = append before (cons (path_statement name handler_id config) after) in
    let (a, first, rest) = and_then-loaded (load_statement s l) (load_statements all) m e in
    load_statements-refuses before name handler_id config after a m d
      (load_by_key-keeps (tokens s) s name l a first d h).0 rest

load_statements-duplicate :
    (before : Config) (name id id' : Text) (config config' between after : Config) (l m : Load)
    → equal name (codes "default") ≡ false
    → load_statements
        (append before (
          cons
            (path_statement name id config)
            (append between (cons (path_statement name id' config') after))))
        l
      ≢ loaded m
unfolding load_statements equal
load_statements-duplicate nil name id id' config config' between after l m d e =
    let s = path_statement name id config in
    let all = append between (cons (path_statement name id' config') after) in
    let (a, first, rest) = and_then-loaded (load_statement s l) (load_statements all) m e in
    load_statements-refuses between name id' config' after a m d
      (load_path-registers name id config l a first).0 rest
load_statements-duplicate (cons s before) name id id' config config' between after l m d e =
    let all = append before (
      cons (path_statement name id config)
        (append between (cons (path_statement name id' config') after))) in
    let (a, first, rest) = and_then-loaded (load_statement s l) (load_statements all) m e in
    load_statements-duplicate before name id id' config config' between after a m d rest

-- `getServerInfo` does not succeed on a file whose configuration has two `path` statements with one
-- name other than "default", wherever they stand.
pub get_server_info-duplicate :
    (file : Option Text) (before : Config) (name id id' : Text)
    (config config' between after : Config) (info : ServerInfo)
    → parse_file file
      ≡ accepted (
          append before (
            cons
              (path_statement name id config)
              (append between (cons (path_statement name id' config') after))))
    → equal name (codes "default") ≡ false
    → get_server_info file ≢ loaded info
unfolding get_server_info
get_server_info-duplicate file before name id id' config config' between after info p d e =
    let all = append before (
      cons (path_statement name id config)
        (append between (cons (path_statement name id' config') after))) in
    let (m, run, same) =
      and_then-loaded (load_statements all initial) (λ l. loaded (info_of l)) info (rw p at e) in
    load_statements-duplicate before name id id' config config' between after initial m d run
