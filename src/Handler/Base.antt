-- ===== src/Handler/Base.antt =====
-- `RequestHandler`: src/request_handler.cc and include/request_handler.h, with the registry that the
-- macros in the handlers' headers fill, and each handler's `Init`.
use Prim.Native.String.{String}
use spaceteam.Common.{
  Text, codes, Bool, not, ◌&&◌, List, [], ◌∷◌, Option, none, some, equal, ltb, length, take,
  c_string, Map, find, assign, text_order,
}
use spaceteam.Config.Syntax.{Config, nil, cons, tokens}
use spaceteam.Http.Response.{Response}

pub data HandlerStatus : Type 0 where
  ok error : HandlerStatus

-- How `HandleRequest` ends: it returns, throws, dereferences a null pointer, or never returns. The
-- response is `none` where the pointer to it is null.
pub data Handled : Type 0 where
  returned : HandlerStatus → Option Response → Handled
  threw undefined diverges : Handled

-- the objects that `CreateByName` makes, with the members that their `Init` sets
pub data Handler : Type 0 where
  echo not_found status holding : Handler
  static : Text → Text → Handler
  s3 : Text → Text → Handler
  proxy : Text → Text → Text → Handler

infixl 5 ◌>>=◌
abbrev pub ◌>>=◌ {ℓ κ} : {A : Type ℓ} {B : Type κ} → Option A → (A → Option B) → Option B
none >>= k = none
some a >>= k = k a

-- `request_handler_builders`: one entry for each class that is registered, built with empty members
abbrev pub request_handler_builders : Map Text Handler
request_handler_builders =
    (codes "EchoHandler", echo)
    ∷ (codes "HoldingHandler", holding)
    ∷ (codes "NotFoundHandler", not_found)
    ∷ (codes "ProxyHandler", proxy [] [] [])
    ∷ (codes "S3Handler", s3 [] [])
    ∷ (codes "StaticHandler", static [] [])
    ∷ (codes "StatusHandler", status)
    ∷ []

-- `CreateByName`, on the C string of a name: all callers pass `c_str()`. `none` is a null pointer.
unfoldable pub create_by_name : Text → Option Handler
create_by_name type = find (c_string type) request_handler_builders

abbrev pub ConfigMap : Type 0
ConfigMap = Map Text Text

-- `config_map_[tokens_[0]] = tokens_[1]`; `none` is a read past the end of the tokens
abbrev pub add_entry : List Text → ConfigMap → Option ConfigMap
add_entry (key ∷ value ∷ more) m = some (assign key value m)
add_entry _ m = none

-- `ParseConfig`
unfoldable pub parse_config : Config → ConfigMap → Option ConfigMap
parse_config nil m = some m
parse_config (cons s c) m = do m' ← add_entry (tokens s) m; parse_config c m'

-- `config_map_[key]`: the empty text where the key is missing
abbrev pub value_or_empty : Option Text → Text
value_or_empty none = []
value_or_empty (some v) = v

abbrev pub setting : String → ConfigMap → Text
setting key m = value_or_empty (find (codes key) m)

-- `Init` of each handler, which always returns OK, unless it is undefined (`none`)
abbrev pub echo_init : Text → Config → Option Handler
echo_init uri_prefix config = some echo

abbrev pub not_found_init : Text → Config → Option Handler
not_found_init uri_prefix config = some not_found

abbrev pub status_init : Text → Config → Option Handler
status_init uri_prefix config = some status

abbrev pub holding_init : Text → Config → Option Handler
holding_init uri_prefix config = some holding

unfoldable pub static_init : Text → Config → Option Handler
unfolding parse_config
static_init uri_prefix config = do
  m ← parse_config config []
  some (static uri_prefix (setting "root" m))

unfoldable pub s3_init : Text → Config → Option Handler
unfolding parse_config
s3_init uri_prefix config = do m ← parse_config config []; some (s3 uri_prefix (setting "bucket" m))

unfoldable pub proxy_init : Text → Config → Option Handler
unfolding parse_config
proxy_init uri_prefix config = do
  m ← parse_config config []
  some (proxy uri_prefix (setting "host" m) (setting "portno" m))

-- the virtual `Init`
unfoldable pub init : Handler → Text → Config → Option Handler
unfolding static_init s3_init proxy_init
init echo uri_prefix config = echo_init uri_prefix config
init not_found uri_prefix config = not_found_init uri_prefix config
init status uri_prefix config = status_init uri_prefix config
init holding uri_prefix config = holding_init uri_prefix config
init (static _ _) uri_prefix config = static_init uri_prefix config
init (s3 _ _) uri_prefix config = s3_init uri_prefix config
init (proxy _ _ _) uri_prefix config = proxy_init uri_prefix config

-- The test of the handlers for a URI that goes on behind their prefix.
abbrev pub extends : Text → Text → Bool
extends uri uri_prefix =
    not (equal uri uri_prefix)
    && ltb (length uri_prefix) (length uri)
    && equal (take (length uri_prefix) uri) uri_prefix
