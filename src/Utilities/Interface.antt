-- ===== src/Utilities/Interface.antt =====
-- utilities.h: the functions of the namespace as one interface, with what a loop over the objects of a
-- file relies on.
use consolidated_book.Common.{
  ℕ, ◌<◌, ◌≡◌, sym, subst, ap, ◌∙◌, List, [], ◌∷◌, ◌++◌, Option, some, Bool, true, false, Text,
  length, length-append, arith, inl, inr, Option-cases, Bool-cases,
}
use consolidated_book.Common.Int.{ℤ, pos}
use consolidated_book.Utilities.{
  get_current_time_ms, count_braces, object_part, is_zero, read_lines, read_next_json_object,
  parse_double, parse_uint64,
}

-- The lines that a call has read, the last of which ends the object.
pub record Reads (lines : List Text) (result : Option Text × List Text) : Type 0 where
  pub before : List Text
  pub last : Text
  pub used : lines ≡ before ++ last ∷ result.1

one_more :
    (line : Text) (lines : List Text) (result : Option Text × List Text)
    → Reads lines result
    → Reads (line ∷ lines) result
one_more line lines result r = record {
  before = line ∷ r.before;
  last = r.last;
  used = ap (λ ls. line ∷ ls) r.used;
}

-- The first line is one of those that a call reads.
read_on :
    (line : Text) (lines : List Text) (result later : Option Text × List Text) {o : Text}
    → result ≡ later
    → result.0 ≡ some o
    → (later.0 ≡ some o → Reads lines later)
    → Reads (line ∷ lines) result
read_on line lines result later same h rest =
    subst (λ r. Reads (line ∷ lines) r) (sym same)
      (one_more line lines later (rest (ap (λ r. r.0) (sym same) ∙ h)))

read_lines-Reads :
    (json : Text) (depth : ℤ) (started : Bool) (lines : List Text) {o : Text}
    → (read_lines json depth started lines).0 ≡ some o
    → Reads lines (read_lines json depth started lines)
unfolding read_lines
read_lines-Reads json depth started [] h = cc
read_lines-Reads json depth started (line ∷ lines) {o} h =
    elim (Option-cases (object_part started line)) [
      | inl skipped ↦
          read_on line lines (read_lines json depth started (line ∷ lines))
            (read_lines json depth started lines) (ground (arith, skipped)) h
            (λ e. read_lines-Reads json depth started lines e)
      | inr (part, found) ↦
          let json' = json ++ part ++ 10 ∷ [] in
          let depth' = count_braces depth part in
          elim (Bool-cases (is_zero depth')) [
            | inl whole ↦ record { before = []; last = line; used = ground (arith, found, whole) }
            | inr more ↦
                read_on line lines (read_lines json depth started (line ∷ lines))
                  (read_lines json' depth' true lines) (ground (arith, found, more)) h
                  (λ e. read_lines-Reads json' depth' true lines e)
          ]
    ]

pub record Utilities (W : Type 0) : Type 0 where
  pub current_time_ms : ℤ → ℕ  -- where the system clock reads so much
  pub next_json_object : List Text → Option Text × List Text
  pub to_double : Text → W
  pub to_uint : Text → ℕ
  pub progress :
      (lines : List Text) (o : Text)
      → (next_json_object lines).0 ≡ some o
      → length (next_json_object lines).1 < length lines

length-Reads :
    (lines : List Text) (result : Option Text × List Text)
    → Reads lines result
    → length result.1 < length lines
length-Reads lines result r =
    omega (arith, ap length r.used, length-append r.before (r.last ∷ result.1))

pub read_next_json_object-length :
    (lines : List Text) (o : Text)
    → (read_next_json_object lines).0 ≡ some o
    → length (read_next_json_object lines).1 < length lines
unfolding read_next_json_object
read_next_json_object-length lines o h =
    length-Reads lines (read_lines [] (pos 0) false lines)
      (read_lines-Reads [] (pos 0) false lines h)

-- With the resolution of the system clock, and the two calls of from_chars with what their local
-- variables read if nothing is stored in them.
abbrev pub utilities :
    {W : Type 0} → ℕ → (Text → Option W) → W → (Text → Option ℕ) → ℕ → Utilities W
utilities ticks_per_ms double_from_chars any_double uint64_from_chars any_uint64 = record {
  current_time_ms = get_current_time_ms ticks_per_ms;
  next_json_object = read_next_json_object;
  to_double = parse_double double_from_chars any_double;
  to_uint = parse_uint64 uint64_from_chars any_uint64;
  progress = read_next_json_object-length;
}
