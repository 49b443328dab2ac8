-- ===== src/Utilities.antt =====
-- utils/utilities.h: ParseDouble and ParseUint64 with from_chars of fast_float as a parameter, and
-- ReadNextJsonObject, whose file is the lines that are left of it. `depth` is an int of 32 bits: C++ leaves
-- open what comes of an overflow of it, and here it wraps round.
pub mod Objects
pub mod Files
pub mod Interface
pub mod Tests
use consolidated_book.Common.{
  ℕ, suc, ◌+◌, ◌-◌, ◌%◌, ◌^◌, List, [], ◌∷◌, ◌++◌, Option, none, some, Bool, true, false, ◌==◌,
  if◌then◌else◌, Text, codes, find, drop,
}
use consolidated_book.Standard.{duration_cast_ms}
use consolidated_book.Common.Int.{ℤ, pos, negsuc, ◌+ℤ◌, ◌-ℤ◌}

-- The conversion of an int64_t to uint64_t.
abbrev to_uint64 : ℤ → ℕ
to_uint64 (pos n) = n % 2 ^ 64
to_uint64 (negsuc n) = 2 ^ 64 - 1 - n % 2 ^ 64

-- GetCurrentTimeMs, where the system clock reads `since_epoch`.
unfoldable pub get_current_time_ms : ℕ → ℤ → ℕ
get_current_time_ms ticks_per_ms since_epoch = to_uint64 (duration_cast_ms ticks_per_ms since_epoch)

-- std::getline until it fails: the lines without their ends. What stands behind the last line end is a
-- line if it is not empty.
abbrev onto_first : ℕ → List Text → List Text
onto_first c [] = (c ∷ []) ∷ []
onto_first c (line ∷ lines) = (c ∷ line) ∷ lines

unfoldable pub file_lines : Text → List Text
file_lines [] = []
file_lines (c ∷ s) = let lines = file_lines s in if c == 10 then [] ∷ lines else onto_first c lines

-- `depth++` and `depth--`
abbrev pub increment : ℤ → ℤ
increment (pos n) = if n == 2 ^ 31 - 1 then negsuc (2 ^ 31 - 1) else pos (n + 1)
increment (negsuc n) = negsuc n +ℤ pos 1

abbrev pub decrement : ℤ → ℤ
decrement (pos n) = pos n -ℤ pos 1
decrement (negsuc n) = if n == 2 ^ 31 - 1 then pos (2 ^ 31 - 1) else negsuc (n + 1)

-- The loop over the characters of a line.
unfoldable pub count_braces : ℤ → Text → ℤ
count_braces depth [] = depth
count_braces depth (c ∷ line) =
    count_braces
      (if c == b'{' then increment depth else if c == b'}' then decrement depth else depth) line

-- What a line adds to the object: nothing before the object starts.
unfoldable pub object_part : Bool → Text → Option Text
object_part started line =
    if started
    then some line
    else elim (find line (codes "{")) [ none ↦ none | some i ↦ some (drop i line) ]

abbrev pub is_zero : ℤ → Bool
is_zero (pos n) = n == 0
is_zero (negsuc n) = false

unfoldable pub read_lines : Text → ℤ → Bool → List Text → Option Text × List Text
read_lines json depth started [] = (none, [])
read_lines json depth started (line ∷ lines) = elim (object_part started line) [
  | none ↦ read_lines json depth started lines
  | some part ↦
      let json' = json ++ part ++ 10 ∷ [] in
      let depth' = count_braces depth part in
      elim (is_zero depth') [
        | true ↦ (some json', lines)
        | false ↦ read_lines json' depth' true lines
      ]
]

-- The object, and the lines that are left.
unfoldable pub read_next_json_object : List Text → Option Text × List Text
read_next_json_object lines = read_lines [] (pos 0) false lines

-- `unset` is what the local variable reads if from_chars stores nothing in it.
unfoldable pub parse_double : {W : Type 0} → (Text → Option W) → W → Text → W
parse_double from_chars unset sv = elim (from_chars sv) [ none ↦ unset | some v ↦ v ]

unfoldable pub parse_uint64 : (Text → Option ℕ) → ℕ → Text → ℕ
parse_uint64 from_chars unset sv = elim (from_chars sv) [ none ↦ unset | some v ↦ v ]
