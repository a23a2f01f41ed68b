-- ===== src/Status/Tests.antt =====
-- The counters of a small history.
use spaceteam.Common.{
  equal, assign, less, codes, List, [], ◌∷◌, find, refl, ◌≡◌, text_order, number_order,
}
use mathlib.Core.List.{Permᴰ}
use spaceteam.Status.Page.{Shows, count_line, uri_section, to_html-counts}
use spaceteam.Status.Order.{record_all-Perm}
use spaceteam.Http.Response.{ResponseCode}
use spaceteam.Status.{new_status, update_status, html_counts, to_html}
use spaceteam.Status.Counts.{Event, record_all}

abbrev history : List Event
history =
    (codes "/b", ResponseCode.ok)
    ∷ (codes "/a", ResponseCode.not_found)
    ∷ (codes "/b", ResponseCode.redirect)
    ∷ (codes "/b", ResponseCode.ok)
    ∷ []

abbrev other_order : List Event
other_order =
    (codes "/a", ResponseCode.not_found)
    ∷ (codes "/b", ResponseCode.ok)
    ∷ (codes "/b", ResponseCode.redirect)
    ∷ (codes "/b", ResponseCode.ok)
    ∷ []

record_all-Perm_example : record_all history new_status ≡ record_all other_order new_status
record_all-Perm_example =
    record_all-Perm {es = history} {fs = other_order} new_status ∣ Permᴰ.swap refl refl ∣₁

to_html-counts_example :
    Shows
      (uri_section (codes "/a") (html_counts ((404, 1) ∷ [])))
      (to_html (record_all history new_status))
    × Shows (count_line 404 1) (html_counts ((404, 1) ∷ []))
unfolding update_status find equal assign less
to_html-counts_example =
    to_html-counts (record_all history new_status) (codes "/a") ((404, 1) ∷ []) 404 1 refl refl
