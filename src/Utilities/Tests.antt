-- ===== src/Utilities/Tests.antt =====
-- utilities.h: a file with two objects, and one with a brace in a string.
use consolidated_book.Common.{◌≡◌, List, [], ◌∷◌, none, some, Text, codes, arith}
use consolidated_book.Utilities.{file_lines, read_next_json_object}
use consolidated_book.Utilities.Files.{
  read_next_json_object-Balances, read_next_json_object-StaysOpen,
}

abbrev head : List Text
head = codes "[" ∷ []

abbrev first : Text
first = codes "\"a\": {"

abbrev body : List Text
body = codes "}" ∷ codes "}," ∷ []

abbrev others : List Text
others = codes "{}" ∷ codes "]" ∷ []

abbrev file : Text
file = codes "[\n {\"a\": {\n}\n},\n{}\n]\n"

read_next_json_object-Balances_example :
    read_next_json_object (file_lines file) ≡ (some (codes "{\"a\": {\n}\n},\n"), others)
read_next_json_object-Balances_example =
    read_next_json_object-Balances head (codes " ") first body others (ground arith) (ground arith)
      (ground arith) (ground arith) (ground arith)

-- The brace in the string is counted, and the object is never complete.
read_next_json_object-StaysOpen_example :
    read_next_json_object (file_lines (codes "{\"a\": \"{\"}\n{}\n")) ≡ (none, [])
read_next_json_object-StaysOpen_example =
    read_next_json_object-StaysOpen [] [] (codes "\"a\": \"{\"}") (codes "{}" ∷ []) (ground arith)
      tt tt (ground arith) (ground arith)
