-- ===== src/Prelude/Numerals.antt =====
-- Python's `int` of a text, in base 10 and among the ASCII characters.
use Prim.Native.Nat.{ℕ, zero, suc, ◌+◌, ◌-◌, ◌*◌}
use mathlib.Core.Path.{◌≡◌, refl}
use mathlib.Core.Bool.{Bool, true, false, not, ◌&&◌, ◌||◌}
use mathlib.Core.Option.{Option, none, some}
use mathlib.Core.List.{[], ◌∷◌}
use native.Mathlib.Omega.{arith}
use baseplate_py.Prelude.Tests.{leb, ◌==◌, if◌then◌else◌}
use baseplate_py.Prelude.Text.{Bytes, decimal, is_digit, all_digits, read_from, decimal_digits}
use baseplate_py.Prelude.Int.{ℤ, pos, negsuc}

-- the space characters that `int` takes off
abbrev pub is_blank : ℕ → Bool
is_blank c = (c == 32) || (leb 9 c && leb c 13)

unfoldable skip_blanks : Bytes → Bytes
skip_blanks [] = []
skip_blanks (c ∷ cs) = let rest = skip_blanks cs in if is_blank c then rest else c ∷ cs

unfoldable drop_blanks : Bytes → Bytes
drop_blanks [] = []
drop_blanks (c ∷ cs) = elim (drop_blanks cs) [
  | [] ↦ if is_blank c then [] else c ∷ []
  | d ∷ ds ↦ c ∷ d ∷ ds
]

-- Digits with single underscores between them; the flag says that a digit has to come.
unfoldable read_digits : ℕ → Bool → Bytes → Option ℕ
read_digits acc pending [] = if pending then none else some acc
read_digits acc pending (c ∷ cs) =
    let read = read_digits (acc * 10 + (c - 48)) false cs in
    let skipped = read_digits acc true cs in
    if is_digit c then read else (if (c == 95) && not pending then skipped else none)

abbrev negated : Option ℕ → Option ℤ
negated none = none
negated (some zero) = some (pos zero)
negated (some (suc n)) = some (negsuc n)

abbrev positive : Option ℕ → Option ℤ
positive none = none
positive (some n) = some (pos n)

unfoldable signed : Bytes → Option ℤ
unfolding read_digits
signed [] = none
signed (c ∷ cs) =
    let minus = negated (read_digits 0 true cs) in
    let plus = positive (read_digits 0 true cs) in
    let none_given = positive (read_digits 0 true (c ∷ cs)) in
    if c == 45 then minus else (if c == 43 then plus else none_given)

unfoldable pub int : Bytes → Option ℤ
unfolding skip_blanks drop_blanks signed
int text = signed (drop_blanks (skip_blanks text))

-- `str` of an integer
abbrev pub numeral : ℤ → Bytes
numeral (pos n) = decimal n
numeral (negsuc n) = 45 ∷ decimal (suc n)

read_digits_value :
    (acc : ℕ) (cs : Bytes)
    → all_digits cs ≡ true
    → read_digits acc false cs ≡ some (read_from acc cs)
unfolding read_digits
read_digits_value acc [] h = refl
read_digits_value acc (c ∷ cs) h = ground (arith, read_digits_value (acc * 10 + (c - 48)) cs)

drop_blanks_digits : (cs : Bytes) → all_digits cs ≡ true → drop_blanks cs ≡ cs
unfolding drop_blanks
drop_blanks_digits [] h = refl
drop_blanks_digits (c ∷ []) h = ground arith
drop_blanks_digits (c ∷ d ∷ ds) h =
    let same = drop_blanks_digits (d ∷ ds) (ground arith) in rw same refl

read_digits-decimal :
    (n c : ℕ) (cs : Bytes) → decimal n ≡ c ∷ cs → read_digits 0 true (c ∷ cs) ≡ some n
unfolding read_digits
read_digits-decimal n c cs shape =
    let (_, digits, number) = decimal_digits n in
    let digits' : all_digits (c ∷ cs) ≡ true = rw shape at digits in
    let number' : read_from 0 (c ∷ cs) ≡ n = rw shape at number in
    ground (arith, read_digits_value (0 * 10 + (c - 48)) cs)

int_digits :
    (c : ℕ) (cs : Bytes) (n : ℕ)
    → all_digits (c ∷ cs) ≡ true
    → read_digits 0 true (c ∷ cs) ≡ some n
    → (int (c ∷ cs) ≡ some (pos n)) × (int (45 ∷ c ∷ cs) ≡ negated (some n))
unfolding int
int_digits c cs n digits read =
    let ends = drop_blanks_digits (c ∷ cs) digits in
    let starts : skip_blanks (c ∷ cs) ≡ c ∷ cs = ground arith in
    let signed_ends : drop_blanks (45 ∷ c ∷ cs) ≡ 45 ∷ c ∷ cs = ground arith in
    (rw (starts, ends) (ground arith), rw (signed_ends) (rw (read) refl))

-- A numeral is read as its integer.
pub int-numeral : (z : ℤ) → int (numeral z) ≡ some z
int-numeral (pos n) =
    let ((c, cs, shape), digits, _) = decimal_digits n in
    rw shape (int_digits c cs n (rw shape at digits) (read_digits-decimal n c cs shape)).0
int-numeral (negsuc n) =
    let ((c, cs, shape), digits, _) = decimal_digits (suc n) in
    rw shape
      (int_digits c cs (suc n) (rw shape at digits) (read_digits-decimal (suc n) c cs shape)).1
