-- ===== src/Config/Main.antt =====
-- The program that prints a configuration file: config_parser/config_parser_main.cc.
use spaceteam.Common.{
  ℕ, Text, codes, List, [], ◌∷◌, ◌++◌, Option, none, some, c_string, NoZero, c_string_id, ◌≡◌, ap,
  ◌∙◌,
}
use spaceteam.Config.Parser.{Outcome, accepted, rejected, undefined, out_of_fuel, parse, parse_file}
use spaceteam.Config.Syntax.{Config}
use spaceteam.Config.Sound.{parse-to_string-parse}
use spaceteam.Config.Printer.{to_string}

-- the output and the exit code, or undefined behaviour; fuel does not run out
pub data Run : Type 0 where
  exited : Text → ℕ → Run
  undefined_run unfinished_run : Run

-- `printf("%s", config.ToString().c_str())` behind what was printed before. What is printed does not
-- depend on the value that `Parse` returns.
abbrev pub print : Text → Outcome → Run
print before (accepted config) = exited (before ++ c_string (to_string config)) 0
print before (rejected config) = exited (before ++ c_string (to_string config)) 0
print before undefined = undefined_run
print before out_of_fuel = unfinished_run

-- what `Parse(const char*, NginxConfig*)` prints: a message where the file cannot be opened
abbrev pub opening_message : Text → Option Text → Text
opening_message file_name none = codes "Failed to open config file: " ++ (file_name ++ codes "\n")
opening_message file_name (some bytes) = []

-- `main`: `argv` holds the program's name and its arguments, and `files` gives the bytes of a file by
-- its name, or `none` where it cannot be opened.
unfoldable pub main : (Text → Option Text) → List Text → Run
unfolding parse_file
main files (name ∷ file_name ∷ []) =
    print (opening_message file_name (files file_name)) (parse_file (files file_name))
main files _ = exited (codes "Usage: ./config_parser <path to config file>\n") 1

main-accepted :
    (files : Text → Option Text) (name file_name input : Text) (c : Config)
    → files file_name ≡ some input
    → parse input ≡ accepted c
    → NoZero (to_string c)
    → main files (name ∷ file_name ∷ []) ≡ exited (to_string c) 0
unfolding main
main-accepted files name file_name input c e p h =
    ap (λ (o : Option Text). print (opening_message file_name o) (parse_file o)) e
    ∙ ap (print []) p
    ∙ ap (λ t. exited t 0) (c_string_id (to_string c) h)

-- On a file whose configuration `Parse` accepts, and whose print has no zero byte, the program prints
-- that print, and nothing else, and exits with 0; and on a file that holds what was printed, it prints
-- the same again.
pub main-to_string :
    (files : Text → Option Text) (name first second input : Text) (c : Config)
    → files first ≡ some input
    → parse input ≡ accepted c
    → NoZero (to_string c)
    → files second ≡ some (to_string c)
    → (main files (name ∷ first ∷ []) ≡ exited (to_string c) 0)
      × (main files (name ∷ second ∷ []) ≡ exited (to_string c) 0)
main-to_string files name first second input c e p h e' = (
  main-accepted files name first input c e p h,
  main-accepted files name second (to_string c) c e' (parse-to_string-parse input p ∙ p) h,
)
