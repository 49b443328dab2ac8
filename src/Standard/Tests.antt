-- ===== src/Standard/Tests.antt =====
-- Integers as the program reads and writes them.
use consolidated_book.Common.{◌≡◌, arith}
use consolidated_book.Common.Int.{negsuc}
use consolidated_book.Standard.{ok, stoll, to_string}
use consolidated_book.Standard.Numbers.{stoll-to_string}

a_time : stoll (to_string (negsuc 1770197572743)) ≡ ok (negsuc 1770197572743)
a_time = stoll-to_string (negsuc 1770197572743) (omega arith)
