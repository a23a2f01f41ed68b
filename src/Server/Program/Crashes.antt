-- ===== src/Server/Program/Crashes.antt =====
-- How the program ends when it does not return, and the handlers that it has until then.
mod Tests
use spaceteam.Common.{
  Text, codes, Bool, true, false, List, [], ◌∷◌, Option, none, some, drop, Map, find, text_order,
  ◌⊎◌, ◌≡◌, sym, subst,
}
use spaceteam.Connection.{index_of, index_from}
use spaceteam.Handler.Base.{Handler, echo, not_found, status, holding, static, s3, proxy}
use spaceteam.Handler.Dispatch.{Surroundings, handle_request}
use spaceteam.Handler.Throws.{Fails}
use spaceteam.Http.Fields.{Headers, Request}
use spaceteam.Http.Response.{empty_response}
use spaceteam.Server.Handlers.{HasPrefix, make_server-OwnPrefixes}
use spaceteam.Server.Loop.Crashes.{Throws, Crash}
use spaceteam.Server.Loop.Handlers.{SameButHost, SameButHost-refl, ComesFrom, Reach-ComesIn}
use spaceteam.Server.Loop.{Running, Process, running, Event, begin, Reach, opened}
use spaceteam.Server.Program.Safety.{main-serving}
use spaceteam.Server.Program.{serving, main}
use spaceteam.Server.Tables.{is_listed}
use spaceteam.Server.{Server}

-- a `Referer` that has no slash behind its first eight bytes
abbrev pub HasBadReferer : Headers → Type 0
HasBadReferer [] = ⊥
HasBadReferer ((name, value) ∷ hs) =
    ((name ≡ codes "Referer") × (index_of b'/' (drop 8 value) ≡ none)) ⊎ HasBadReferer hs

-- What makes the process end while it reads a request: a `Referer` without a path, no default
-- handler, or a registered handler that throws.
abbrev pub Fatal : Surroundings → Running Handler → Request → Type 0
Fatal around t request =
    HasBadReferer request.headers
    ⊎ (is_listed (codes "default") t.server_status.handler_name_to_prefixes ≡ false)
    ⊎ ((key : Text) × (h : Handler) × (find key t.handlers ≡ some h)
        × Fails around h request empty_response)

SameButHost-HasPrefix :
    (name : Text) (g h : Handler) → HasPrefix name g → SameButHost g h → HasPrefix name h
SameButHost-HasPrefix name echo h own e = subst (HasPrefix name) (sym e) own
SameButHost-HasPrefix name not_found h own e = subst (HasPrefix name) (sym e) own
SameButHost-HasPrefix name status h own e = subst (HasPrefix name) (sym e) own
SameButHost-HasPrefix name holding h own e = subst (HasPrefix name) (sym e) own
SameButHost-HasPrefix name (static p root) h own e = subst (HasPrefix name) (sym e) own
SameButHost-HasPrefix name (s3 p bucket) h own e = subst (HasPrefix name) (sym e) own
SameButHost-HasPrefix name (proxy p host portno) h own (host', e) =
    subst (HasPrefix name) (sym e) own

module _ (read_file : Text → Option Text) (around : Surroundings) (argv : List Text)
    {s : Running Handler} (started : main read_file argv ≡ serving s) where
  -- As long as a server that the program has started runs, every handler of the table is one of those
  -- that it started with under the same prefix, but for the host of a proxy, and a handler that keeps
  -- its prefix has the one under which it stands.
  pub main_handlers :
      {es : List Event} {t : Running Handler}
      → Reach (handle_request around) s es (running t)
      → (name : Text) (h : Handler) → find name t.handlers ≡ some h
      → HasPrefix name h
        × ((origin : Handler) × (find name s.handlers ≡ some origin) × SameButHost origin h)
  unfolding begin
  main_handlers r name h at =
      let (file, server, made, same) = main-serving read_file argv s started in
      let (origin, there, alike) =
        Reach-ComesIn s.handlers around (λ n g found. (g, found, SameButHost-refl g)) r name h at in
      let own : HasPrefix name origin =
        make_server-OwnPrefixes file server made name origin
          (subst (λ v. find name v.handlers ≡ some origin) same there) in
      (SameButHost-HasPrefix name origin h own alike, (origin, there, alike))
