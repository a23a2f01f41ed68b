-- ===== src/Handler/Samples.antt =====
-- Requests and tables of handlers for the tests.
use spaceteam.Common.{
  length, ◌<◌, ap, ℕ, Text, codes, true, false, ◌==◌, [], ◌∷◌, none, some, equal, Map, find,
  text_order, ◌≡◌, refl, inl, inr, arith,
}
use spaceteam.Connection.Choice.{IsBest}
use spaceteam.Connection.Messages.{NoReferer}
use spaceteam.Connection.Paths.{IsPathPrefix, whole, root, length-IsPathPrefix, IsPathPrefix-top}
use spaceteam.Handler.Base.{Handler, echo, not_found, holding, static, s3}
use spaceteam.Handler.Dispatch.{Surroundings}
use spaceteam.Http.Characters.{is_char, is_ctl, is_tspecial, is_digit}
use spaceteam.Http.Request.Message.{Message, IsValid}

abbrev pub around : Surroundings
around = record {
  files = record {
    exists = λ p. some true;
    is_regular_file = λ p. some true;
    canonical = λ p. some p;
    filename = λ p. codes "r";
    extension = λ p. codes ".gif";
    read_file = λ p. some (codes "hi");
    render = λ p. none;
  };
  popen = λ line. some (codes "<p>\nhi\n</p>");
  network = λ n host request. none;
  redirects = 5;
}

abbrev pub handlers : Map Text Handler
handlers = (codes "/e", echo) ∷ (codes "/h", holding) ∷ (codes "default", not_found) ∷ []

abbrev pub get : Text → Message
get path = record {
  method = codes "GET";
  path = path;
  major = codes "1";
  minor = codes "1";
  headers = (codes "A", codes "b") ∷ [];
  body = [];
}

pub get-IsValid : (c : ℕ) → ((c == b' ') ≡ false) × (is_ctl c ≡ false) → IsValid (get (c ∷ []))
unfolding is_char is_ctl is_tspecial is_digit
get-IsValid c h = record {
  has_method = cc;
  method_token = (refl, (refl, (refl, tt)));
  path_printable = (h, tt);
  has_major = cc;
  major_digits = (refl, tt);
  has_minor = cc;
  minor_digits = (refl, tt);
  all_headers = ((cc, (refl, tt), (refl, tt)), tt);
}

pub get-NoReferer : (path : Text) → NoReferer (get path).headers
unfolding equal
get-NoReferer path = (refl, tt)

pub echo-IsBest : IsBest handlers (codes "/e") (codes "/e") echo
unfolding find equal
echo-IsBest = record {
  prefix = whole refl;
  registered = refl;
  longest = λ p h l. absurd (omega (arith, length-IsPathPrefix p (codes "e") b'/' h));
}

pub holding-IsBest : IsBest handlers (codes "/h") (codes "/h") holding
unfolding find equal
holding-IsBest = record {
  prefix = whole refl;
  registered = refl;
  longest = λ p h l. absurd (omega (arith, length-IsPathPrefix p (codes "h") b'/' h));
}

pub none_registered : (p : Text) → IsPathPrefix p (codes "/x") → find p handlers ≡ none
unfolding find equal
none_registered p h = elim (IsPathPrefix-top (codes "x") p (refl, tt) h) [
  | inl e ↦ rw e refl
  | inr e ↦ rw e refl
]

-- a table with a StaticHandler
abbrev pub table : Map Text Handler
table = (codes "/", static (codes "/") (codes "/r/")) ∷ (codes "default", not_found) ∷ []

none_longer :
    (handlers : Map Text Handler) (p : Text)
    → find (codes "/x") handlers ≡ none
    → IsPathPrefix p (codes "/x")
    → length (codes "/") < length p
    → find p handlers ≡ none
none_longer handlers p off h l = elim (IsPathPrefix-top (codes "x") p (refl, tt) h) [
  | inl e ↦ rw e off
  | inr e ↦ absurd (omega (arith, ap length e))
]

pub table-IsBest : IsBest table (codes "/x") (codes "/") (static (codes "/") (codes "/r/"))
unfolding find equal
table-IsBest = record {
  prefix = root refl;
  registered = refl;
  longest = λ p h l. none_longer table p refl h l;
}

-- a table with an S3Handler
abbrev pub buckets : Map Text Handler
buckets = (codes "/", s3 (codes "/") (codes "b")) ∷ (codes "default", not_found) ∷ []

pub buckets-IsBest : IsBest buckets (codes "/x") (codes "/") (s3 (codes "/") (codes "b"))
unfolding find equal
buckets-IsBest = record {
  prefix = root refl;
  registered = refl;
  longest = λ p h l. none_longer buckets p refl h l;
}
