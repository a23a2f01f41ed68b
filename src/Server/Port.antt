-- ===== src/Server/Port.antt =====
-- `std::stoi` and the port of a server.
use spaceteam.Common.{
  codes, equal, sym, All, All-append, ◌∙◌, ◌++◌, ◌+◌, ◌-◌, ◌*◌, ◌/◌, ◌%◌, ◌≤◌, ℕ, zero, suc, ◌<◌,
  ◌^◌, Text, true, false, Option, none, some, [], ◌∷◌, ◌≡◌, refl, ap, arith, ℤ, pos, negsuc, ltb,
  ◌==◌, Bool-cases, inl, inr,
}
use spaceteam.Status.{decimal_from, decimal}
use spaceteam.Config.Parser.{parse_file, accepted}
use spaceteam.Config.Syntax.{Config, Statement, simple, nil, cons, append}
use spaceteam.Server.Kept.{loaded_inj, and_then-loaded}
use spaceteam.Server.Rounds.{load_statements-keeps_all}
use spaceteam.Server.{
  Load, ServerInfo, load_port, load_config, load_statement, load_statements, initial, info_of,
  get_server_info, loaded, Server, make_server, new_server, in_int, is_space, digits_from, stoi,
  unsigned_short,
}

abbrev AllDigits : Text → Type 0
AllDigits = All (λ c. (b'0' ≤ c) × (c ≤ b'9'))

abbrev shift : Option ℕ → ℕ → Option ℕ
shift none d = some (d - b'0')
shift (some m) d = some (10 * m + (d - b'0'))

digits_from-snoc :
    (o : Option ℕ) (ds : Text) (d : ℕ)
    → AllDigits (ds ++ d ∷ [])
    → digits_from o (ds ++ d ∷ []) ≡ shift (digits_from o ds) d
digits_from-snoc none [] d h = ground arith
digits_from-snoc (some m) [] d h = ground arith
digits_from-snoc none (c ∷ ds) d h = ground (arith, digits_from-snoc (some (c - b'0')) ds d h.1)
digits_from-snoc (some m) (c ∷ ds) d h =
    ground (arith, digits_from-snoc (some (10 * m + (c - b'0'))) ds d h.1)

decimal_from-AllDigits : (f n : ℕ) → AllDigits (decimal_from f n)
unfolding decimal_from
decimal_from-AllDigits zero n = tt
decimal_from-AllDigits (suc f) n = elim (Bool-cases (ltb n 10)) [
  | inl e ↦ rw e (ground arith)
  | inr e ↦ rw e (
      All-append (λ c. (b'0' ≤ c) × (c ≤ b'9')) (decimal_from f (n / 10)) _
        (decimal_from-AllDigits f (n / 10)) (ground arith))
]

digits_from-decimal_from : (f n : ℕ) → n < f → digits_from none (decimal_from f n) ≡ some n
unfolding decimal_from
digits_from-decimal_from zero n h = absurd (omega arith)
digits_from-decimal_from (suc f) n h = elim (Bool-cases (ltb n 10)) [
  | inl e ↦ rw e (ground arith)
  | inr e ↦
      let digits = decimal_from-AllDigits (suc f) n in
      rw e (
        digits_from-snoc none (decimal_from f (n / 10)) (b'0' + n % 10) (rw e at digits)
        ∙ ap (λ o. shift o (b'0' + n % 10)) (digits_from-decimal_from f (n / 10) (ground arith))
        ∙ ground arith)
]

stoi-digits :
    (t : Text) (n : ℕ)
    → AllDigits t
    → digits_from none t ≡ some n
    → n < 2 ^ 31
    → stoi t ≡ some (pos n)
unfolding stoi
stoi-digits [] n d e h = cc
stoi-digits (c ∷ cs) n d e h =
    let first = d.0 in
    let blank : is_space c ≡ false = ground arith in
    let minus : (c == b'-') ≡ false = ground arith in
    let plus : (c == b'+') ≡ false = ground arith in
    let small : ltb n (2 ^ 31) ≡ true = ground arith in
    rw (blank, minus, plus) (ap (in_int false) e ∙ rw small refl)

-- The decimal digits of a number that is an `int` are read back as the number.
stoi-decimal : (n : ℕ) → n < 2 ^ 31 → stoi (decimal n) ≡ some (pos n)
stoi-decimal n h =
    stoi-digits (decimal n) n (decimal_from-AllDigits (suc n) n)
      (digits_from-decimal_from (suc n) n (omega arith)) h

abbrev pub port_statement : ℕ → Statement
port_statement n = simple (codes "port" ∷ decimal n ∷ [])

load_port-decimal :
    (p : ℤ) (n : ℕ) (l m : Load)
    → n < 2 ^ 31
    → load_port p (decimal n ∷ []) l ≡ loaded m
    → m.port ≡ pos n
load_port-decimal (negsuc zero) n l m h e =
    let read = rw (stoi-decimal n h) at e in sym (ap Load.port (loaded_inj read))
load_port-decimal (negsuc (suc p)) n l m h e = cc
load_port-decimal (pos p) n l m h e = cc

load_statements-port :
    (before : Config) (n : ℕ) (after : Config) (l m : Load)
    → n < 2 ^ 31
    → load_statements (append before (cons (port_statement n) after)) l ≡ loaded m
    → m.port ≡ pos n
unfolding load_statements equal
load_statements-port nil n after l m h e =
    let (a, first, rest) =
      and_then-loaded (load_statement (port_statement n) l) (load_statements after) m e in
    load_statements-keeps_all (λ k. k.port ≡ pos n) (λ value i k unset read p. cc)
      (λ name id g names k made p. p) after a m rest (load_port-decimal l.port n l a h first)
load_statements-port (cons s before) n after l m h e =
    let all = append before (cons (port_statement n) after) in
    let (a, first, rest) = and_then-loaded (load_statement s l) (load_statements all) m e in
    load_statements-port before n after a m h rest

-- If a server is made from a file whose configuration has, among any other statements, one of the word
-- "port" and the decimal digits of a number below 2 ^ 31, then the server's port is that number.
pub make_server-port :
    (file : Option Text) (before : Config) (n : ℕ) (after : Config) (server : Server)
    → parse_file file ≡ accepted (append before (cons (port_statement n) after))
    → n < 2 ^ 31
    → make_server file ≡ loaded server
    → server.port ≡ pos n
unfolding make_server get_server_info new_server
make_server-port file before n after server p h e =
    let all = append before (cons (port_statement n) after) in
    let (info, read, made) =
      and_then-loaded (load_config (accepted all)) (λ i. loaded (new_server i)) server
        (rw p at e) in
    let (l, run, same) =
      and_then-loaded (load_statements all initial) (λ k. loaded (info_of k)) info read in
    sym (ap Server.port (loaded_inj made))
    ∙ sym (ap ServerInfo.port (loaded_inj same))
    ∙ load_statements-port before n after initial l h run

-- If a server is made from a file whose configuration has, among any other statements, one of the word
-- "port" and the decimal digits of a number below 2 ^ 31, then the endpoint of its acceptor has the
-- remainder of the number modulo 2 ^ 16 as its port.
pub make_server-endpoint :
    (file : Option Text) (before : Config) (n : ℕ) (after : Config) (server : Server)
    → parse_file file ≡ accepted (append before (cons (port_statement n) after))
    → n < 2 ^ 31
    → make_server file ≡ loaded server
    → server.endpoint ≡ n % 2 ^ 16
unfolding make_server new_server
make_server-endpoint file before n after server p h e =
    let (info, read, made) =
      and_then-loaded (get_server_info file) (λ i. loaded (new_server i)) server e in
    let same = loaded_inj made in
    sym (ap Server.endpoint same)
    ∙ ap unsigned_short (ap Server.port same ∙ make_server-port file before n after server p h e)
