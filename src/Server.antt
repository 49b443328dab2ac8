-- ===== src/Server.antt =====
-- server/main.cpp: main. It uses none of the other parts yet.
use consolidated_book.Common.{ℕ, Text, codes}

-- What a run of the program writes to cout, and its exit code.
pub record Exit : Type 0 where
  pub output : Text
  pub code : ℕ

abbrev pub main : Exit
main = record { output = codes "Hello, World!\n"; code = 0 }
