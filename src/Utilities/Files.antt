-- ===== src/Utilities/Files.antt =====
-- utilities.h: ReadNextJsonObject on the text of a file.
use consolidated_book.Common.{
  ℕ, ◌+◌, ◌≡◌, ◌≢◌, refl, ap, ◌∙◌, List, [], ◌∷◌, ◌++◌, none, some, Bool, true, false, Text, codes,
  find, drop, length, All, arith,
}
use consolidated_book.Common.Int.{ℤ, pos, sub_ℕ}
use consolidated_book.Utilities.{file_lines, object_part, read_lines, read_next_json_object}
use consolidated_book.Utilities.Objects.{
  opens, closes, Balances, Fits, NoBrace, unlines, continued_on, read_lines-continued,
  read_lines-Balances,
}

-- A line as getline returns it.
abbrev pub IsLine : Text → Type 0
IsLine l = All (λ c. c ≢ 10) l

file_lines-line : (l s : Text) → IsLine l → file_lines (l ++ 10 ∷ s) ≡ l ∷ file_lines s
unfolding file_lines
file_lines-line [] s h = ground arith
file_lines-line (c ∷ l) s h = ground (arith, file_lines-line l s h.1)

file_lines_end : file_lines [] ≡ []
unfolding file_lines
file_lines_end = refl

file_lines-unlines : (ls : List Text) → All IsLine ls → file_lines (unlines ls) ≡ ls
file_lines-unlines [] h = file_lines_end
file_lines-unlines (l ∷ ls) h =
    file_lines-line l (unlines ls) h.0 ∙ ap (λ r. l ∷ r) (file_lines-unlines ls h.1)

find-NoBrace : (s : Text) → NoBrace s → find s (codes "{") ≡ none
find-NoBrace [] h = refl
find-NoBrace (c ∷ s) h = ground (arith, find-NoBrace s h.1)

find-brace :
    (before line : Text)
    → NoBrace before
    → find (before ++ b'{' ∷ line) (codes "{") ≡ some (length before)
find-brace [] line h = ground arith
find-brace (c ∷ before) line h = ground (arith, find-brace before line h.1)

drop-append : (s t : Text) → drop (length s) (s ++ t) ≡ t
drop-append [] t = refl
drop-append (c ∷ s) t = drop-append s t

object_part-brace :
    (before first : Text)
    → NoBrace before
    → object_part false (before ++ b'{' ∷ first) ≡ some (b'{' ∷ first)
unfolding object_part
object_part-brace before first h =
    ground (arith, find-brace before first h, drop-append before (b'{' ∷ first))

object_part_started : (l : Text) → object_part true l ≡ some l
unfolding object_part
object_part_started l = refl

object_part-none : (l : Text) → NoBrace l → object_part false l ≡ none
unfolding object_part
object_part-none l h = ground (arith, find-NoBrace l h)

read_lines-skip :
    (skipped ls : List Text)
    → All NoBrace skipped
    → read_lines [] (pos 0) false (skipped ++ ls) ≡ read_lines [] (pos 0) false ls
unfolding read_lines
read_lines-skip [] ls h = refl
read_lines-skip (l ∷ skipped) ls h =
    ground (arith, object_part-none l h.0, read_lines-skip skipped ls h.1)

read_lines-first :
    (before first : Text) (ls : List Text)
    → NoBrace before
    → read_lines [] (pos 0) false ((before ++ b'{' ∷ first) ∷ ls)
      ≡ read_lines [] (pos 0) true ((b'{' ∷ first) ∷ ls)
unfolding read_lines
read_lines-first before first ls h =
    ground (arith, object_part-brace before first h, object_part_started (b'{' ∷ first))

-- After `a` opening and `b` closing braces, no line ends with as many of both.
abbrev pub StaysOpen : ℕ → ℕ → List Text → Type 0
StaysOpen a b [] = Unit
StaysOpen a b (l ∷ ls) = (a + opens l ≢ b + closes l) × StaysOpen (a + opens l) (b + closes l) ls

read_lines_end :
    (json : Text) (depth : ℤ) (started : Bool) → read_lines json depth started [] ≡ (none, [])
unfolding read_lines
read_lines_end json depth started = refl

read_lines-StaysOpen :
    (json : Text) (a b : ℕ) (ls : List Text)
    → StaysOpen a b ls
    → Fits a b ls
    → read_lines json (sub_ℕ a b) true ls ≡ (none, [])
read_lines-StaysOpen json a b [] h k = read_lines_end json (sub_ℕ a b) true
read_lines-StaysOpen json a b (l ∷ ls) h k =
    read_lines-continued json a b l ls (omega (arith, k.0)) (omega (arith, k.1))
    ∙ continued_on (json ++ l ++ 10 ∷ []) ls (a + opens l) (b + closes l) h.0
    ∙ read_lines-StaysOpen (json ++ l ++ 10 ∷ []) (a + opens l) (b + closes l) ls h.1
        (omega (arith, k.0), omega (arith, k.1))

-- Of a file of lines, the object is what starts at the first opening brace and ends with the first line
-- behind which there are as many closing as opening braces, if it has fewer than 2^31 of each. What stands before it is skipped, and the
-- lines behind it are left.
pub read_next_json_object-Balances :
    (skipped : List Text) (before first : Text) (lines rest : List Text)
    → All IsLine (skipped ++ ((before ++ b'{' ∷ first) ∷ (lines ++ rest)))
    → All NoBrace skipped
    → NoBrace before
    → Balances 0 0 ((b'{' ∷ first) ∷ lines)
    → Fits 0 0 ((b'{' ∷ first) ∷ lines)
    → read_next_json_object
        (file_lines (unlines (skipped ++ ((before ++ b'{' ∷ first) ∷ (lines ++ rest)))))
      ≡ (some (unlines ((b'{' ∷ first) ∷ lines)), rest)
unfolding read_next_json_object
read_next_json_object-Balances skipped before first lines rest ends none_before none_left h fits =
    ap (read_lines [] (pos 0) false) (file_lines-unlines _ ends)
    ∙ read_lines-skip skipped ((before ++ b'{' ∷ first) ∷ lines ++ rest) none_before
    ∙ read_lines-first before first (lines ++ rest) none_left
    ∙ read_lines-Balances [] 0 0 ((b'{' ∷ first) ∷ lines) rest h fits

-- If from the first opening brace on no line ends with as many closing as opening braces, and there are
-- fewer than 2^31 of each, nothing is read, and the whole file is used up.
pub read_next_json_object-StaysOpen :
    (skipped : List Text) (before first : Text) (lines : List Text)
    → All IsLine (skipped ++ ((before ++ b'{' ∷ first) ∷ lines))
    → All NoBrace skipped
    → NoBrace before
    → StaysOpen 0 0 ((b'{' ∷ first) ∷ lines)
    → Fits 0 0 ((b'{' ∷ first) ∷ lines)
    → read_next_json_object (file_lines (unlines (skipped ++ ((before ++ b'{' ∷ first) ∷ lines))))
      ≡ (none, [])
unfolding read_next_json_object
read_next_json_object-StaysOpen skipped before first lines ends none_before none_left h fits =
    ap (read_lines [] (pos 0) false) (file_lines-unlines _ ends)
    ∙ read_lines-skip skipped ((before ++ b'{' ∷ first) ∷ lines) none_before
    ∙ read_lines-first before first lines none_left
    ∙ read_lines-StaysOpen [] 0 0 ((b'{' ∷ first) ∷ lines) h fits
