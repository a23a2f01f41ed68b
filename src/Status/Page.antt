-- ===== src/Status/Page.antt =====
-- What the page of `ToHtml` shows.
use spaceteam.Common.{
  ℕ, Text, codes, [], ◌∷◌, ◌++◌, append_assoc, some, Map, find, text_order, number_order, equal,
  equal_iff, ◌==◌, ==_iff, Bool-cases, inl, inr, ◌≡◌, refl, ap, sym, ◌∙◌, subst,
}
use spaceteam.Status.{ServerStatus, decimal, html_handlers, html_counts, html_uris, to_html}

-- a text holds another
abbrev pub Shows : Text → Text → Type 0
Shows part text = (before : Text) × (after : Text) × (text ≡ before ++ (part ++ after))

Shows-behind : (part text front : Text) → Shows part text → Shows part (front ++ text)
Shows-behind part text front (before, after, e) =
    (front ++ before, after, ap (◌++◌ front) e ∙ sym (append_assoc front before (part ++ after)))

Shows-ahead : (part text rest : Text) → Shows part text → Shows part (text ++ rest)
Shows-ahead part text rest (before, after, e) = (
  before,
  after ++ rest,
  ap (λ t. t ++ rest) e
      ∙ append_assoc before (part ++ after) rest
      ∙ ap (◌++◌ before) (append_assoc part after rest),
)

Shows-first : (part rest : Text) → Shows part (part ++ rest)
Shows-first part rest = ([], rest, refl)

-- the line of a code's counter
abbrev pub count_line : ℕ → ℕ → Text
count_line code n = codes "<li>" ++ (decimal code ++ (codes ": " ++ (decimal n ++ codes "</li>")))

-- the section of a URI: the URI as it is, and a list
abbrev pub uri_section : Text → Text → Text
uri_section uri lines =
    codes "<h5>Number of requests for \""
    ++ (uri
        ++ (codes "\"</h5>"
            ++ (codes "<ul style=\"list-style-type:none\">" ++ (lines ++ codes "</ul>"))))

line_of :
    (a b rest : Text)
    → codes "<li>" ++ (a ++ (codes ": " ++ (b ++ (codes "</li>" ++ rest))))
      ≡ (codes "<li>" ++ (a ++ (codes ": " ++ (b ++ codes "</li>")))) ++ rest
line_of a b rest = simp append_assoc

html_counts-cons :
    (code n : ℕ) (m : Map ℕ ℕ) → html_counts ((code, n) ∷ m) ≡ count_line code n ++ html_counts m
unfolding html_counts
html_counts-cons code n m = line_of (decimal code) (decimal n) (html_counts m)

html_counts-Shows :
    (m : Map ℕ ℕ) (code n : ℕ) → find code m ≡ some n → Shows (count_line code n) (html_counts m)
unfolding find
html_counts-Shows [] code n at = cc
html_counts-Shows ((c, k) ∷ m) code n at =
    subst (Shows (count_line code n)) (sym (html_counts-cons c k m))
      (elim (Bool-cases (code == c)) [
        | inl e ↦
            let same_count : k ≡ n = some_inj (rw e at at) in
            subst (λ a. Shows (count_line code n) (count_line a k ++ html_counts m))
              ((==_iff code c).0 e)
              (subst (λ b. Shows (count_line code n) (count_line code b ++ html_counts m))
                (sym same_count) (Shows-first (count_line code n) (html_counts m)))
        | inr e ↦
            Shows-behind (count_line code n) (html_counts m) (count_line c k)
              (html_counts-Shows m code n (rw e at at))
      ])
  where
    some_inj : {a b : ℕ} → some a ≡ some b → a ≡ b
    some_inj e = cc

section_of :
    (uri lines rest : Text)
    → codes "<h5>Number of requests for \""
        ++ (uri
            ++ (codes "\"</h5>"
                ++ (codes "<ul style=\"list-style-type:none\">"
                    ++ (lines ++ (codes "</ul>" ++ rest)))))
      ≡ uri_section uri lines ++ rest
section_of uri lines rest = simp append_assoc

html_uris-cons :
    (uri : Text) (counts : Map ℕ ℕ) (m : Map Text (Map ℕ ℕ))
    → html_uris ((uri, counts) ∷ m) ≡ uri_section uri (html_counts counts) ++ html_uris m
unfolding html_uris
html_uris-cons uri counts m = section_of uri (html_counts counts) (html_uris m)

html_uris-Shows :
    (m : Map Text (Map ℕ ℕ)) (uri : Text) (counts : Map ℕ ℕ)
    → find uri m ≡ some counts
    → Shows (uri_section uri (html_counts counts)) (html_uris m)
unfolding find
html_uris-Shows [] uri counts at = cc
html_uris-Shows ((u, c) ∷ m) uri counts at =
    let part = uri_section uri (html_counts counts) in
    subst (Shows part) (sym (html_uris-cons u c m)) (elim (Bool-cases (equal uri u)) [
      | inl e ↦
          let same_counts : c ≡ counts = some_inj (rw e at at) in
          subst (λ a. Shows part (uri_section a (html_counts c) ++ html_uris m))
            ((equal_iff uri u).0 e)
            (subst (λ b. Shows part (uri_section uri (html_counts b) ++ html_uris m))
              (sym same_counts) (Shows-first part (html_uris m)))
      | inr e ↦
          Shows-behind part (html_uris m) (uri_section u (html_counts c))
            (html_uris-Shows m uri counts (rw e at at))
    ])
  where
    some_inj : {a b : Map ℕ ℕ} → some a ≡ some b → a ≡ b
    some_inj e = cc

-- what stands on the page before the URIs
abbrev page_front : Text → Text → Text
page_front handlers total =
    codes "<!doctype html><html><body><h1>Server Status</h1><h3>Handler Info</h3>"
    ++ (handlers ++ (codes "</br>" ++ (codes "<h2>Total Requests: " ++ (total ++ codes "</h2>"))))

page_of :
    (handlers total uris : Text)
    → codes "<!doctype html><html><body>"
        ++ (codes "<h1>Server Status</h1>"
            ++ (codes "<h3>Handler Info</h3>"
                ++ (handlers
                    ++ (codes "</br>"
                        ++ (codes "<h2>Total Requests: "
                            ++ (total ++ (codes "</h2>" ++ (uris ++ codes "</body></html>"))))))))
      ≡ page_front handlers total ++ (uris ++ codes "</body></html>")
page_of handlers total uris = simp append_assoc

to_html-Shows :
    (s : ServerStatus) (part : Text)
    → Shows part (html_uris s.server_status)
    → Shows part (to_html s)
unfolding to_html
to_html-Shows s part h =
    subst (Shows part)
      (sym (
        page_of (html_handlers s.handler_name_to_prefixes) (decimal s.num_requests)
          (html_uris s.server_status)))
      (Shows-behind part _
        (page_front (html_handlers s.handler_name_to_prefixes) (decimal s.num_requests))
        (Shows-ahead part (html_uris s.server_status) (codes "</body></html>") h))

-- The page shows each URI that is counted as it is, in a heading, with the lines of its counters, and
-- among these lines is that of each code that is counted for the URI, with its number.
pub to_html-counts :
    (s : ServerStatus) (uri : Text) (counts : Map ℕ ℕ) (code n : ℕ)
    → find uri s.server_status ≡ some counts
    → find code counts ≡ some n
    → Shows (uri_section uri (html_counts counts)) (to_html s)
      × Shows (count_line code n) (html_counts counts)
to_html-counts s uri counts code n at there = (
  to_html-Shows s (uri_section uri (html_counts counts))
      (html_uris-Shows s.server_status uri counts at),
  html_counts-Shows counts code n there,
)
