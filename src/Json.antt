-- ===== src/Json.antt =====
-- simdjson's on-demand values as the parsers and providers read them: a parameter of the model. `none`
-- is a result with an error. That a document can be read only forwards is not modelled.
pub mod Values
pub mod Print
use consolidated_book.Common.{ℕ, List, Option, none, some, Text}
use consolidated_book.Common.Int.{ℤ}

pub record Json (V : Type 0) : Type 0 where
  pub iterate : Text → Option V
  pub get_object : V → Option V
  pub get_array : V → Option (List V)
  pub get_string : V → Option Text
  pub get_uint64 : V → Option ℕ
  pub get_int64 : V → Option ℤ
  pub field : V → Text → Option V

-- A member of an object, read: an error of either is an error.
abbrev pub read_field : {V A : Type 0} → Json V → (V → Option A) → V → Text → Option A
read_field j read v key = elim (j.field v key) [ none ↦ none | some w ↦ read w ]
