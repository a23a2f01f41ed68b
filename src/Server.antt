-- ===== src/Server.antt =====
-- `Server`: `getServerInfo` and `makeServer` of src/server.cc, and include/server.h. The acceptor and
-- the threads are calls of the network library.
pub mod Kept
pub mod Info
pub mod Rounds
pub mod Tables
pub mod Port
pub mod Handlers
pub mod Loop
pub mod Pool
pub mod Program
mod Tests
use spaceteam.Common.{
  ℕ, zero, suc, ◌+◌, ◌-◌, ◌*◌, ◌%◌, ◌^◌, Text, codes, Bool, true, false, ◌&&◌, ◌||◌, List, [], ◌∷◌,
  ◌++◌, Option, none, some, equal, ltb, leb, ◌==◌, if◌then◌else◌, Map, find, assign, text_order, ℤ,
  pos, negsuc,
}
use spaceteam.Config.Syntax.{Config, Statement, simple, block, nil, cons, tokens}
use spaceteam.Config.Parser.{Outcome, accepted, rejected, undefined, out_of_fuel, parse_file}
use spaceteam.Status.{ServerStatus, new_status, add_handler_info}
use spaceteam.Connection.{Operation, async_accept, start}
use spaceteam.Handler.Base.{Handler, create_by_name, init}

-- `std::stoi`: blanks, a sign, the longest run of digits. `none` is an exception: no digit, or a
-- number that is not an `int`.
abbrev is_space : ℕ → Bool
is_space c = c == b' ' || leb 9 c && leb c 13

abbrev digits_from : Option ℕ → Text → Option ℕ
digits_from acc [] = acc
digits_from none (c ∷ cs) =
    let more = digits_from (some (c - b'0')) cs in if leb b'0' c && leb c b'9' then more else none
digits_from (some n) (c ∷ cs) =
    let more = digits_from (some (10 * n + (c - b'0'))) cs in
    if leb b'0' c && leb c b'9' then more else some n

abbrev negative : ℕ → ℤ
negative zero = pos zero
negative (suc n) = negsuc n

abbrev in_int : Bool → Option ℕ → Option ℤ
in_int minus none = none
in_int true (some n) = if leb n (2 ^ 31) then some (negative n) else none
in_int false (some n) = if ltb n (2 ^ 31) then some (pos n) else none

abbrev signed_number : Text → Option ℤ
signed_number [] = none
signed_number (c ∷ cs) =
    if c == b'-'
    then in_int true (digits_from none cs)
    else if c == b'+'
    then in_int false (digits_from none cs)
    else in_int false (digits_from none (c ∷ cs))

unfoldable pub stoi : Text → Option ℤ
stoi [] = none
stoi (c ∷ cs) = let more = stoi cs in if is_space c then more else signed_number (c ∷ cs)

-- `ServerInfo`
pub record ServerInfo : Type 0 where
  pub port : ℤ
  pub uri_prefix_to_handler : Map Text Handler
  pub handler_name_to_prefixes : Map Text (List Text)

-- the variables of the loop: `info->port` is set at its end from `port`, which starts as -1
pub record Load : Type 0 where
  pub port : ℤ
  pub path_names : List Text
  pub uri_prefix_to_handler : Map Text Handler
  pub handler_name_to_prefixes : Map Text (List Text)

abbrev pub initial : Load
initial = record {
  port = negsuc zero;
  path_names = [];
  uri_prefix_to_handler = [];
  handler_name_to_prefixes = [];
}

-- How a statement, or all of them, are read: `refused` returns false, `threw` is an exception of
-- `stoi`, `fault` is undefined behaviour: a null handler or a token that is not there.
pub data Loading {ℓ} (A : Type ℓ) : Type ℓ where
  loaded : A → Loading A
  refused threw fault diverged : Loading A

infixl 5 ◌and_then◌
abbrev pub ◌and_then◌ {ℓ κ} : {A : Type ℓ} {B : Type κ} → Loading A → (A → Loading B) → Loading B
loaded a and_then k = k a
refused and_then k = refused
threw and_then k = threw
fault and_then k = fault
diverged and_then k = diverged

-- `std::find(...) != end()`
unfoldable pub contains : Text → List Text → Bool
contains name [] = false
contains name (n ∷ names) = equal name n || contains name names

abbrev pub prefixes_of : Option (List Text) → List Text
prefixes_of none = []
prefixes_of (some ps) = ps

-- the two assignments to `info` at the end of a branch
abbrev pub register : Text → Text → Handler → List Text → Load → Load
register name handler_id handler path_names l = record {
  port = l.port;
  path_names = path_names;
  uri_prefix_to_handler = assign name handler l.uri_prefix_to_handler;
  handler_name_to_prefixes =
      assign handler_id (prefixes_of (find handler_id l.handler_name_to_prefixes) ++ name ∷ [])
        l.handler_name_to_prefixes;
}

abbrev pub set_port : Load → Option ℤ → Loading Load
set_port l none = threw
set_port l (some n) = loaded (record l { port = n })

-- the branch of `port`, on the tokens behind it
abbrev pub load_port : ℤ → List Text → Load → Loading Load
load_port (negsuc zero) (value ∷ more) l = set_port l (stoi value)
load_port (negsuc zero) [] l = fault
load_port _ values l = refused

abbrev pub initialise : Option Handler → Text → Config → Option Handler
initialise none name config = none
initialise (some h) name config = init h name config

abbrev pub registered : Text → Text → List Text → Load → Option Handler → Loading Load
registered name handler_id path_names l none = fault
registered name handler_id path_names l (some h) = loaded (register name handler_id h path_names l)

abbrev pub load_known : Text → Text → Config → Load → Option Handler → Loading Load
load_known name handler_id config l none = refused
load_known name handler_id config l (some h) =
    registered name handler_id (l.path_names ++ name ∷ []) l (init h name config)

-- the branch of `path`
unfoldable pub load_path : Statement → Load → Loading Load
unfolding contains create_by_name init
load_path (block (_ ∷ name ∷ handler_id ∷ []) config) l =
    if contains name l.path_names
    then refused
    else load_known name handler_id config l (create_by_name handler_id)
load_path _ l = refused

-- the branch of `default`
unfoldable pub load_default : Statement → Load → Loading Load
unfolding create_by_name init
load_default (block (_ ∷ handler_id ∷ []) config) l =
    registered (codes "default") handler_id l.path_names l
      (initialise (create_by_name handler_id) (codes "default") config)
load_default _ l = refused

-- one round of the loop, by the statement's tokens
abbrev pub load_by_key : List Text → Statement → Load → Loading Load
load_by_key [] s l = fault
load_by_key (key ∷ values) s l =
    if equal key (codes "port")
    then load_port l.port values l
    else if equal key (codes "path")
    then load_path s l
    else if equal key (codes "default")
    then load_default s l
    else elim values [ [] ↦ fault | _ ∷ _ ↦ refused ]

abbrev pub load_statement : Statement → Load → Loading Load
load_statement s l = load_by_key (tokens s) s l

unfoldable pub load_statements : Config → Load → Loading Load
unfolding stoi load_path load_default
load_statements nil l = loaded l
load_statements (cons s c) l = load_statement s l and_then load_statements c

abbrev pub info_of : Load → ServerInfo
info_of l = record {
  port = l.port;
  uri_prefix_to_handler = l.uri_prefix_to_handler;
  handler_name_to_prefixes = l.handler_name_to_prefixes;
}

abbrev pub load_config : Outcome → Loading ServerInfo
load_config (accepted c) = load_statements c initial and_then (λ l. loaded (info_of l))
load_config (rejected c) = refused
load_config undefined = fault
load_config out_of_fuel = diverged

-- `getServerInfo` on the bytes of the file, `none` where it cannot be opened
unfoldable pub get_server_info : Option Text → Loading ServerInfo
unfolding parse_file load_statements
get_server_info file = load_config (parse_file file)

-- an `int` as an `unsigned short`, which `tcp::endpoint` takes
abbrev pub unsigned_short : ℤ → ℕ
unsigned_short (pos n) = n % 2 ^ 16
unsigned_short (negsuc n) = 2 ^ 16 - 1 - n % 2 ^ 16

-- the members of a `Server`; of its acceptor, the port of the endpoint
pub record Server : Type 0 where
  pub port : ℤ
  pub uri_prefix_to_handler : Map Text Handler
  pub handler_name_to_prefixes : Map Text (List Text)
  pub server_status : ServerStatus
  pub endpoint : ℕ

-- the constructor, where the acceptor opens without an exception
unfoldable pub new_server : ServerInfo → Server
unfolding add_handler_info
new_server info = record {
  port = info.port;
  uri_prefix_to_handler = info.uri_prefix_to_handler;
  handler_name_to_prefixes = info.handler_name_to_prefixes;
  server_status = add_handler_info info.handler_name_to_prefixes new_status;
  endpoint = unsigned_short info.port;
}

-- `makeServer`: `refused` is a null pointer
unfoldable pub make_server : Option Text → Loading Server
unfolding get_server_info new_server
make_server file = get_server_info file and_then (λ info. loaded (new_server info))

-- `start_accept`: a connection on the server's tables, and the wait for its peer
abbrev pub start_accept : List Operation
start_accept = async_accept ∷ []

-- `handle_accept`: what it returns, and the operations that it starts. After an error it starts none.
unfoldable pub handle_accept : Bool → Bool × List Operation
handle_accept true = (false, [])
handle_accept false = (true, start ++ start_accept)
