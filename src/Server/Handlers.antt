-- ===== src/Server/Handlers.antt =====
-- The handlers of a server have the prefixes under which they stand.
use spaceteam.Common.{
  Text, List, [], Option, none, some, equal, equal_iff, Map, find, find-assign, text_order,
  Bool-cases, inl, inr, ◌≡◌, refl, sym, ◌∙◌, subst,
}
use spaceteam.Config.Syntax.{Config}
use spaceteam.Handler.Base.{
  Handler, echo, not_found, status, holding, static, s3, proxy, init, parse_config, setting,
  ConfigMap, ◌>>=◌, static_init, s3_init, proxy_init,
}
use spaceteam.Server.Rounds.{make_server-keeps_all, IsMade}
use spaceteam.Server.{Load, loaded, Server, register, make_server, new_server}

-- the member `uri_prefix_` of the handlers that have it
abbrev pub HasPrefix : Text → Handler → Type 0
HasPrefix name (static uri_prefix root) = uri_prefix ≡ name
HasPrefix name (s3 uri_prefix bucket) = uri_prefix ≡ name
HasPrefix name (proxy uri_prefix host portno) = uri_prefix ≡ name
HasPrefix name _ = Unit

abbrev PrefixIf : Text → Option Handler → Type 0
PrefixIf name none = Unit
PrefixIf name (some h) = HasPrefix name h

-- where the settings can be read
settings-PrefixIf :
    (name : Text) (config : Config) (make : ConfigMap → Handler)
    → ((m : ConfigMap) → HasPrefix name (make m))
    → (o : Option ConfigMap) → PrefixIf name (o >>= λ m. some (make m))
settings-PrefixIf name config make has none = tt
settings-PrefixIf name config make has (some m) = has m

init-PrefixIf : (g : Handler) (name : Text) (config : Config) → PrefixIf name (init g name config)
unfolding init static_init s3_init proxy_init
init-PrefixIf echo name config = tt
init-PrefixIf not_found name config = tt
init-PrefixIf status name config = tt
init-PrefixIf holding name config = tt
init-PrefixIf (static _ _) name config =
    settings-PrefixIf name config (λ m. static name (setting "root" m)) (λ m. refl)
      (parse_config config [])
init-PrefixIf (s3 _ _) name config =
    settings-PrefixIf name config (λ m. s3 name (setting "bucket" m)) (λ m. refl)
      (parse_config config [])
init-PrefixIf (proxy _ _ _) name config =
    settings-PrefixIf name config (λ m. proxy name (setting "host" m) (setting "portno" m))
      (λ m. refl) (parse_config config [])

-- every handler of a table
abbrev pub OwnPrefixes : Map Text Handler → Type 0
OwnPrefixes handlers = (name : Text) (h : Handler) → find name handlers ≡ some h → HasPrefix name h

register-OwnPrefixes :
    (name handler_id : Text) (h : Handler) (names : List Text) (l : Load)
    → IsMade handler_id name h
    → OwnPrefixes l.uri_prefix_to_handler
    → OwnPrefixes (register name handler_id h names l).uri_prefix_to_handler
register-OwnPrefixes name handler_id h names l (g, config, known, made) own k i at =
    let there = sym (find-assign name k h l.uri_prefix_to_handler) ∙ at in
    elim (Bool-cases (equal k name)) [
      | inl e ↦
          let same : h ≡ i = some_inj (rw e at there) in
          let has = subst (PrefixIf name) made (init-PrefixIf g name config) in
          subst (λ n. HasPrefix n i) (sym ((equal_iff k name).0 e))
            (subst (HasPrefix name) same has)
      | inr e ↦ own k i (rw e at there)
    ]
  where
    some_inj : {a b : Handler} → some a ≡ some b → a ≡ b
    some_inj e = cc

pub make_server-OwnPrefixes :
    (file : Option Text) (server : Server)
    → make_server file ≡ loaded server
    → OwnPrefixes server.uri_prefix_to_handler
unfolding new_server find
make_server-OwnPrefixes file server e =
    let (l, own, made) =
      make_server-keeps_all (λ l. OwnPrefixes l.uri_prefix_to_handler) (λ value n l unset read p. p)
        register-OwnPrefixes file server e (λ name h at. cc) in
    subst (λ (v : Server). OwnPrefixes v.uri_prefix_to_handler) made own
