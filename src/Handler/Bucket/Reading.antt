-- ===== src/Handler/Bucket/Reading.antt =====
-- What `S3Handler` reads from its pipe.
use native.Mathlib.Numerals.{add-one}
use spaceteam.Common.{
  ℕ, zero, suc, codes, ◌+◌, ◌≤◌, ◌<◌, Text, true, false, [], ◌∷◌, ◌++◌, append-nil, append_assoc,
  Option, some, length, drop, NoZero, c_string_id, ◌==◌, Bool-cases, inl, inr, ◌≡◌, refl, ap, sym,
  subst, ◌∙◌, arith,
}
use spaceteam.Handler.Base.{returned, ok}
use spaceteam.Handler.Files.Serving.{extends-append}
use spaceteam.Handler.Simple.{content_type}
use spaceteam.Http.Fields.{Request}
use spaceteam.Http.Response
use spaceteam.Http.Response.{Response}
use spaceteam.Handler.Bucket.{fgets, read_pipe, get_s3_object, command, s3_handle}

drop-append_one : (p : Text) (c : ℕ) (key : Text) → drop (length p + 1) (p ++ c ∷ key) ≡ key
drop-append_one p c key = rw add-one (skip p)
  where
    skip : (p : Text) → drop (suc (length p)) (p ++ c ∷ key) ≡ key
    skip [] = refl
    skip (d ∷ p) = skip p

fgets-append : (n : ℕ) (text : Text) → (fgets n text).0 ++ (fgets n text).1 ≡ text
unfolding fgets
fgets-append zero text = refl
fgets-append (suc n) [] = refl
fgets-append (suc n) (c ∷ text) = elim (Bool-cases (c == b'\n')) [
  | inl e ↦ rw e
  | inr e ↦ rw e (ap (◌∷◌ c) (fgets-append n text))
]

fgets_eof : (n : ℕ) (text : Text) → (fgets n text).2 ≡ true → (fgets n text).1 ≡ []
unfolding fgets
fgets_eof zero text h = cc
fgets_eof (suc n) [] h = refl
fgets_eof (suc n) (c ∷ text) h = ground (arith, fgets_eof n text)

fgets-le : (n : ℕ) (text : Text) → length (fgets n text).1 ≤ length text
unfolding fgets
fgets-le zero text = omega arith
fgets-le (suc n) [] = omega arith
fgets-le (suc n) (c ∷ text) = ground (arith, fgets-le n text)

pub fgets-lt :
    (n : ℕ) (text : Text)
    → (fgets (suc n) text).2 ≡ false
    → length (fgets (suc n) text).1 < length text
unfolding fgets
fgets-lt n [] h = cc
fgets-lt n (c ∷ text) h = ground (arith, fgets-le n text)

NoZero-split : (a b : Text) → NoZero (a ++ b) → NoZero a × NoZero b
NoZero-split [] b h = (tt, h)
NoZero-split (c ∷ a) b h = let (p, q) = NoZero-split a b h.1 in ((h.0, p), q)

read_pipe_all :
    (f : ℕ) (result text : Text)
    → length text < f
    → NoZero text
    → read_pipe f result text ≡ some (result ++ text)
unfolding read_pipe
read_pipe_all zero result text h k = absurd (omega arith)
read_pipe_all (suc f) result text h k =
    let line = (fgets 127 text).0 in
    let rest = (fgets 127 text).1 in
    let whole : line ++ rest ≡ text = fgets-append 127 text in
    let clean = NoZero-split line rest (subst NoZero (sym whole) k) in
    elim (Bool-cases (fgets 127 text).2) [
      | inl e ↦
          rw (e, c_string_id line clean.0)
            (ap (λ t. some (result ++ t))
              (sym (append-nil line) ∙ ap (◌++◌ line) (sym (fgets_eof 127 text e)) ∙ whole))
      | inr e ↦
          rw (e, c_string_id line clean.0)
            (read_pipe_all f (result ++ line) rest (omega (arith, fgets-lt 126 text e)) clean.1
              ∙ ap some (append_assoc result line rest ∙ ap (◌++◌ result) whole))
    ]

-- If the command starts and no byte of its output is zero, the loop over the pipe gives all the
-- output, in however many pieces it is read.
get_s3_object_output :
    (popen : Text → Option Text) (bucket key output : Text)
    → popen (command bucket key) ≡ some output
    → NoZero output
    → get_s3_object popen bucket key ≡ some output
unfolding get_s3_object
get_s3_object_output popen bucket key output e h =
    rw e (read_pipe_all (suc (length output)) [] output (omega arith) h)

-- Behind its prefix and one more byte, the URI names the object: if the command for it starts and puts
-- out no zero byte, the answer is all that it puts out, as an HTML page with code 200.
pub s3_handle_object :
    (popen : Text → Option Text) (p bucket key output : Text) (c : ℕ) (request : Request)
    (r : Response)
    → request.uri ≡ p ++ c ∷ key
    → popen (command bucket key) ≡ some output
    → NoZero output
    → s3_handle popen p bucket request (some r)
      ≡ returned ok (
          some (record {
            status = codes "HTTP/1.1 200 OK";
            raw_status = some Response.ok;
            headers = r.headers ++ (content_type, codes "text/html") ∷ [];
            body = output;
          }))
unfolding s3_handle
s3_handle_object popen p bucket key output c request r e q h = rw (
  e,
  extends-append p (c ∷ key) cc,
  drop-append_one p c key,
  get_s3_object_output popen bucket key output q h,
)
