-- ===== src/Config/Tests.antt =====
-- Runs of the configuration parser and printer on small files.
use spaceteam.Common.{arith, Option, none, NoZero, some, Text, codes, [], ◌∷◌, ◌++◌, ◌≡◌, ◌≢◌, refl}
use spaceteam.Config.Main.{main, exited, main-to_string}
use spaceteam.Config.Syntax.{Config, nil, cons, simple, block}
use spaceteam.Config.Words.{IsWord, plain, quoted}
use spaceteam.Config.Printable.{IsPrintable, done, more, has_words, has_block}
use spaceteam.Config.RoundTrip.{parse-to_string, parse_extra_close-undefined}
use spaceteam.Config.Sound.{parse-to_string-parse}
use spaceteam.Config.Fuel.{parse-ne-out_of_fuel}
use spaceteam.Config.Printer.{config_to_string, to_string}
use spaceteam.Config.Parser.{run, parse, parse_file, accepted, rejected, undefined, out_of_fuel}

abbrev sample : Config
sample = cons (simple (codes "port" ∷ codes "2020" ∷ [])) (
    cons
      (block (codes "path" ∷ codes "/" ∷ codes "StaticHandler" ∷ [])
        (cons (simple (codes "root" ∷ codes "'/a b'" ∷ [])) nil))
      nil)

abbrev sample_text : Text
sample_text = codes "# hi\nport  2020; # x\npath / StaticHandler{root '/a b';}\n"

parse-sample : parse sample_text ≡ accepted sample
unfolding parse run
parse-sample = refl

parse-to_string-sample : parse (to_string sample) ≡ accepted sample
unfolding parse run config_to_string
parse-to_string-sample = refl

parse_unclosed : parse (codes "foo \"bar;") ≡ rejected (cons (simple (codes "foo" ∷ [])) nil)
unfolding parse run
parse_unclosed = refl

parse_extra_close : parse (codes "a;} b;") ≡ undefined
unfolding parse run
parse_extra_close = refl

abbrev word_b : Text
word_b = codes "b"

-- a word that holds a brace in quotes
abbrev word_quoted : Text
word_quoted = codes "'{ '"

abbrev nested : Config
nested =
    cons (simple (codes "ab" ∷ word_quoted ∷ []))
      (cons (block (word_b ∷ []) (cons (simple (word_b ∷ [])) nil)) nil)

word_b-IsWord : IsWord word_b
word_b-IsWord = plain b'b' [] refl tt refl

nested-IsPrintable : IsPrintable nested
nested-IsPrintable =
    more
      (has_words (
        plain b'a' (codes "b") refl (refl, tt) refl,
        (quoted b'\'' (codes "{ ") refl (refl, (refl, tt)) refl, tt),
      ))
      (more (has_block (word_b-IsWord, tt) (more (has_words (word_b-IsWord, tt)) done)) done)

parse-to_string_example : parse (to_string nested) ≡ accepted nested
parse-to_string_example = parse-to_string nested-IsPrintable

parse_extra_close-undefined_example : parse (to_string nested ++ codes "}b;") ≡ undefined
parse_extra_close-undefined_example =
    parse_extra_close-undefined b';' [] nested-IsPrintable word_b-IsWord refl

parse-to_string-parse_example : parse (to_string sample) ≡ parse sample_text
parse-to_string-parse_example = parse-to_string-parse sample_text parse-sample

parse-ne-out_of_fuel_example : parse (codes "a;} b;") ≢ out_of_fuel
parse-ne-out_of_fuel_example = parse-ne-out_of_fuel (codes "a;} b;")

-- the file of the text, and a file of its print
abbrev files : Text → Option Text
files [] = some sample_text
files (c ∷ name) = some (to_string sample)

no_zero : NoZero (to_string sample)
unfolding config_to_string
no_zero = ground arith

main-to_string_example :
    (main files (codes "program" ∷ [] ∷ []) ≡ exited (to_string sample) 0)
    × (main files (codes "program" ∷ codes "b" ∷ []) ≡ exited (to_string sample) 0)
unfolding config_to_string
main-to_string_example =
    main-to_string files (codes "program") [] (codes "b") sample_text sample refl parse-sample
      no_zero refl

main_no_file :
    main (λ name. none) (codes "program" ∷ codes "b" ∷ [])
    ≡ exited (codes "Failed to open config file: b\n") 0
unfolding main parse_file config_to_string
main_no_file = refl
