-- ===== src/Json/Values.antt =====
-- JSON documents as data, and how simdjson reads them: a number is a uint64 or an int64 only in its range,
-- and a member is found under its first key.
use consolidated_book.Common.{
  ℕ, ◌^◌, List, [], ◌∷◌, Option, none, some, Bool, ltb, if◌then◌else◌, Text, text_eq,
}
use consolidated_book.Common.Int.{ℤ, pos, negsuc}
use consolidated_book.Json.{Json}

mutual
  pub data Value : Type 0 where
    string : Text → Value
    number : ℤ → Value
    boolean : Bool → Value
    array : Items → Value
    object : Members → Value

  pub data Items : Type 0 where
    no_items : Items
    item : Value → Items → Items

  pub data Members : Type 0 where
    no_members : Members
    member : Text → Value → Members → Members

abbrev pub items_list : Items → List Value
items_list Items.no_items = []
items_list (Items.item v vs) = v ∷ items_list vs

abbrev pub list_items : List Value → Items
list_items [] = Items.no_items
list_items (v ∷ vs) = Items.item v (list_items vs)

unfoldable pub find_member : Text → Members → Option Value
find_member key Members.no_members = none
find_member key (Members.member k v ms) =
    let rest = find_member key ms in if text_eq k key then some v else rest

abbrev pub uint64 : ℤ → Option ℕ
uint64 (pos n) = if ltb n (2 ^ 64) then some n else none
uint64 (negsuc n) = none

abbrev pub int64 : ℤ → Option ℤ
int64 (pos n) = if ltb n (2 ^ 63) then some (pos n) else none
int64 (negsuc n) = if ltb n (2 ^ 63) then some (negsuc n) else none

abbrev pub as_object : Value → Option Value
as_object (Value.object ms) = some (Value.object ms)
as_object v = none

abbrev pub as_array : Value → Option (List Value)
as_array (Value.array vs) = some (items_list vs)
as_array v = none

abbrev pub as_string : Value → Option Text
as_string (Value.string s) = some s
as_string v = none

abbrev pub as_number : Value → Option ℤ
as_number (Value.number n) = some n
as_number v = none

abbrev pub in_object : Value → Text → Option Value
in_object (Value.object ms) key = find_member key ms
in_object v key = none

-- `iterate` is the parser of texts, which is simdjson's.
abbrev pub values : (Text → Option Value) → Json Value
values iterate = record {
  iterate = iterate;
  get_object = as_object;
  get_array = as_array;
  get_string = as_string;
  get_uint64 = λ v. elim (as_number v) [ none ↦ none | some n ↦ uint64 n ];
  get_int64 = λ v. elim (as_number v) [ none ↦ none | some n ↦ int64 n ];
  field = in_object;
}
