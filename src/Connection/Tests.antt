-- ===== src/Connection/Tests.antt =====
-- Searches and reads on small tables of handlers.
use spaceteam.Common.{Text, codes, [], ◌∷◌, ◌≡◌, refl, none, ◌↔◌, Map, find, text_order}
use spaceteam.Http.Characters.{is_char, is_ctl, is_tspecial, is_digit}
use spaceteam.Http.Fields.{Request}
use spaceteam.Http.Request.Message.{Message, IsValid, request_text}
use spaceteam.Http.Response.{Response, ResponseCode, set_status, set_body}
use spaceteam.Handler.Base.{HandlerStatus}
use spaceteam.Status.{new_status}
use spaceteam.Connection.{Handling, handled, threw, matched, unmatched, find_handler, index_of}
use spaceteam.Connection.Choice.{IsBest, find_handler_iff}
use spaceteam.Connection.Paths.{IsPathPrefix}
use spaceteam.Connection.Reads.{handle_bytes, handle_read-referer}

-- the handlers are texts, and each answers with its own text
abbrev table : Map Text Text
table = (codes "/", codes "top") ∷ (codes "/a", codes "mid") ∷ (codes "default", codes "else") ∷ []

abbrev say : Text → Request → Response → Handling Text
say h request r = handled HandlerStatus.ok (set_status ResponseCode.ok (set_body h r)) h

abbrev referring : Message
referring = record {
  method = codes "GET";
  path = [];
  major = codes "1";
  minor = codes "1";
  headers = (codes "Referer", codes "a:") ∷ [];
  body = [];
}

referring-IsValid : IsValid referring
unfolding is_char is_ctl is_tspecial is_digit
referring-IsValid = record {
  has_method = cc;
  method_token = (refl, (refl, (refl, tt)));
  path_printable = tt;
  has_major = cc;
  major_digits = (refl, tt);
  has_minor = cc;
  minor_digits = (refl, tt);
  all_headers =
      ((cc, (refl, (refl, (refl, (refl, (refl, (refl, (refl, tt))))))), (refl, (refl, tt))), tt);
}

handle_read-referer_example :
    handle_bytes say ResponseCode.ok (request_text referring) new_status table ≡ threw
unfolding index_of
handle_read-referer_example =
    handle_read-referer say ResponseCode.ok referring new_status table [] [] (codes "a:")
      referring-IsValid refl refl

find_handler_iff_example :
    ((q h : Text)
      → (find_handler table (codes "/a/b") ≡ matched q h) ↔ IsBest table (codes "/a/b") q h)
    × ((find_handler table (codes "/a/b") ≡ unmatched)
        ↔ ((p : Text) → IsPathPrefix p (codes "/a/b") → find p table ≡ none))
find_handler_iff_example = find_handler_iff table (codes "a/b")
