-- ===== src/Server/Rounds.antt =====
-- A rule for the loop of `getServerInfo`: what the reading of a port and each registration keep, every
-- server that is made has.
use spaceteam.Common.{
  zero, suc, Text, codes, List, [], ◌∷◌, Option, none, some, equal, text_order, Bool-cases, inl,
  inr, ◌≡◌, refl, ap, ◌∙◌, subst, ℤ, pos, negsuc,
}
use spaceteam.Config.Parser.{Outcome, accepted, rejected, undefined, out_of_fuel, parse_file}
use spaceteam.Config.Syntax.{Config, Statement, simple, block, nil, cons, tokens}
use spaceteam.Handler.Base.{Handler, create_by_name, init}
use spaceteam.Server.Kept.{loaded_inj, and_then-loaded}
use spaceteam.Server.{
  Load, Loading, loaded, refused, Server, ServerInfo, stoi, contains, register, registered,
  set_port, load_port, load_known, load_path, load_default, load_by_key, load_statement,
  load_statements, initialise, initial, info_of, load_config, get_server_info, new_server,
  make_server,
}

-- an initialised object of a class
abbrev pub IsMade : Text → Text → Handler → Type 0
IsMade handler_id name h =
    (g : Handler) × (config : Config) × (create_by_name handler_id ≡ some g)
    × (init g name config ≡ some h)

-- Whatever the port and the registrations keep, the loop keeps.
module _ (P : Load → Type 0)
    (keeps_port : (value : Text) (n : ℤ) (l : Load)
      → l.port ≡ negsuc zero
      → stoi value ≡ some n
      → P l
      → P (record l { port = n }))
    (keeps_register : (name handler_id : Text) (h : Handler) (names : List Text) (l : Load)
      → IsMade handler_id name h
      → P l
      → P (register name handler_id h names l)) where
  abbrev Ensures : Loading Load → Type 0
  Ensures (loaded l) = P l
  Ensures _ = Unit

  set_port-Ensures :
      (value : Text) (o : Option ℤ) (l : Load)
      → l.port ≡ negsuc zero
      → stoi value ≡ o
      → P l
      → Ensures (set_port l o)
  set_port-Ensures value none l unset e p = tt
  set_port-Ensures value (some n) l unset e p = keeps_port value n l unset e p

  load_port-Ensures :
      (n : ℤ) (values : List Text) (l : Load) → l.port ≡ n → P l → Ensures (load_port n values l)
  unfolding stoi
  load_port-Ensures (negsuc zero) (value ∷ more) l at p =
      set_port-Ensures value (stoi value) l at refl p
  load_port-Ensures (negsuc zero) [] l at p = tt
  load_port-Ensures (negsuc (suc n)) values l at p = tt
  load_port-Ensures (pos n) values l at p = tt

  registered-Ensures :
      (o : Option Handler) (name handler_id : Text) (names : List Text) (l : Load)
      → ((h : Handler) → o ≡ some h → IsMade handler_id name h)
      → P l
      → Ensures (registered name handler_id names l o)
  registered-Ensures none name handler_id names l made p = tt
  registered-Ensures (some h) name handler_id names l made p =
      keeps_register name handler_id h names l (made h refl) p

  load_known-Ensures :
      (o : Option Handler) (name handler_id : Text) (config : Config) (l : Load)
      → create_by_name handler_id ≡ o
      → P l
      → Ensures (load_known name handler_id config l o)
  load_known-Ensures none name handler_id config l e p = tt
  load_known-Ensures (some g) name handler_id config l e p =
      registered-Ensures (init g name config) name handler_id _ l (λ h made. (g, config, e, made)) p

  load_path-Ensures : (s : Statement) (l : Load) → P l → Ensures (load_path s l)
  unfolding load_path
  load_path-Ensures (simple ts) l p = tt
  load_path-Ensures (block [] c) l p = tt
  load_path-Ensures (block (a ∷ []) c) l p = tt
  load_path-Ensures (block (a ∷ b ∷ []) c) l p = tt
  load_path-Ensures (block (a ∷ b ∷ i ∷ d ∷ r) c) l p = tt
  load_path-Ensures (block (a ∷ name ∷ i ∷ []) c) l p =
      elim (Bool-cases (contains name l.path_names)) [
        | inl e ↦ rw e tt
        | inr e ↦ rw e (load_known-Ensures (create_by_name i) name i c l refl p)
      ]

  load_default-Ensures : (s : Statement) (l : Load) → P l → Ensures (load_default s l)
  unfolding load_default
  load_default-Ensures (simple ts) l p = tt
  load_default-Ensures (block [] c) l p = tt
  load_default-Ensures (block (a ∷ []) c) l p = tt
  load_default-Ensures (block (a ∷ b ∷ i ∷ r) c) l p = tt
  load_default-Ensures (block (a ∷ i ∷ []) c) l p =
      registered-Ensures (initialise (create_by_name i) (codes "default") c) (codes "default") i
        l.path_names l (initialised (create_by_name i) refl) p
    where
      initialised :
          (o : Option Handler)
          → create_by_name i ≡ o
          → (h : Handler) → initialise o (codes "default") c ≡ some h
          → IsMade i (codes "default") h
      initialised none e h made = cc
      initialised (some g) e h made = (g, c, e, made)

  load_by_key-Ensures :
      (ts : List Text) (s : Statement) (l : Load) → P l → Ensures (load_by_key ts s l)
  load_by_key-Ensures [] s l p = tt
  load_by_key-Ensures (key ∷ values) s l p = elim (Bool-cases (equal key (codes "port"))) [
    | inl e ↦ rw e (load_port-Ensures l.port values l refl p)
    | inr e ↦ elim (Bool-cases (equal key (codes "path"))) [
      | inl f ↦ rw (e, f) (load_path-Ensures s l p)
      | inr f ↦ elim (Bool-cases (equal key (codes "default"))) [
        | inl g ↦ rw (e, f, g) (load_default-Ensures s l p)
        | inr g ↦ rw (e, f, g) (neither values)
      ]
    ]
  ]
    where
      neither : (vs : List Text) → Ensures (elim vs [ [] ↦ Loading.fault | _ ∷ _ ↦ refused ])
      neither [] = tt
      neither (v ∷ vs) = tt

  pub load_statements-keeps_all :
      (c : Config) (l m : Load) → load_statements c l ≡ loaded m → P l → P m
  unfolding load_statements
  load_statements-keeps_all nil l m e p = subst P (loaded_inj e) p
  load_statements-keeps_all (cons s c) l m e p =
      let (a, first, rest) = and_then-loaded (load_statement s l) (load_statements c) m e in
      load_statements-keeps_all c a m rest
        (subst Ensures first (load_by_key-Ensures (tokens s) s l p))

  -- So a server that is made comes from variables that have it.
  pub make_server-keeps_all :
      (file : Option Text) (server : Server)
      → make_server file ≡ loaded server
      → P initial
      → (l : Load) × P l × (new_server (info_of l) ≡ server)
  unfolding make_server get_server_info
  make_server-keeps_all file server e p =
      let (info, read, made) =
        and_then-loaded (load_config (parse_file file)) (λ i. loaded (new_server i)) server e in
      let (l, q, same) = config_keeps (parse_file file) info read p in
      (l, q, ap new_server same ∙ loaded_inj made)
    where
      config_keeps :
          (o : Outcome) (info : ServerInfo)
          → load_config o ≡ loaded info
          → P initial
          → (l : Load) × P l × (info_of l ≡ info)
      config_keeps (accepted c) info e p =
          let (l, run, same) =
            and_then-loaded (load_statements c initial) (λ l. loaded (info_of l)) info e in
          (l, load_statements-keeps_all c initial l run p, loaded_inj same)
      config_keeps (rejected c) info e p = cc
      config_keeps undefined info e p = cc
      config_keeps out_of_fuel info e p = cc
