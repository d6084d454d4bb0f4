-- ===== src/Prelude/Text.antt =====
-- Bytes and text as lists of numbers, and the decimal numerals of Python's `str` and `%d`.
use Prim.Native.Nat.{ℕ, zero, suc, ◌+◌, ◌-◌, ◌*◌, ◌/◌, ◌%◌, ◌^◌, ◌≤◌, ◌<◌}
use Prim.Native.Char.{code}
use Prim.Native.String.{String}
use native.Mathlib.Nat.{pow-suc}
use native.Mathlib.Omega.{arith}
use mathlib.Core.Path.{◌≡◌, refl, ap}
use mathlib.Core.List.{List, [], ◌∷◌, ◌++◌}
use mathlib.Core.Bool.{Bool, true, ◌&&◌}
use mathlib.Core.Logic.{inl, inr}
use baseplate_py.Prelude.Tests.{ltb, leb, if◌then◌else◌, Bool-cases}
use baseplate_py.Prelude.Lists.{length, length-append}

abbrev pub Bytes : Type 0
Bytes = List ℕ

-- The code points of a text, which are its bytes if it is ASCII. `String` has its own `[]` and `∷`.
abbrev pub codes : String → Bytes
codes String.[] = []
codes (String.◌∷◌ c s) = code c ∷ codes s

-- the digits of n, with fuel for them
digits_from : ℕ → ℕ → Bytes
digits_from zero n = []
digits_from (suc fuel) n =
    let rest = digits_from fuel (n / 10) in
    if ltb n 10 then (48 + n) ∷ [] else rest ++ (48 + n % 10) ∷ []

unfoldable pub decimal : ℕ → Bytes
unfolding digits_from
decimal n = digits_from (suc n) n

length-digits_from : (k fuel n : ℕ) → n < 10 ^ suc k → length (digits_from fuel n) ≤ suc k
unfolding digits_from
length-digits_from k zero n h = omega arith
length-digits_from zero (suc fuel) n h = ground arith
length-digits_from (suc k) (suc fuel) n h =
    let h' : n < 10 ^ suc k * 10 = rw pow-suc at h in
    ground (
      arith,
      length-digits_from k fuel (n / 10),
      length-append (digits_from fuel (n / 10)) ((48 + n % 10) ∷ []),
    )

-- A number below 10 ^ (k + 1) has at most k + 1 digits.
pub length-decimal : (k n : ℕ) → n < 10 ^ suc k → length (decimal n) ≤ suc k
unfolding decimal
length-decimal k n h = length-digits_from k (suc n) n h

-- the number that digits stand for
abbrev pub read_from : ℕ → Bytes → ℕ
read_from acc [] = acc
read_from acc (c ∷ cs) = read_from (acc * 10 + (c - 48)) cs

read_from-append :
    (acc : ℕ) (xs ys : Bytes) → read_from acc (xs ++ ys) ≡ read_from (read_from acc xs) ys
read_from-append acc [] ys = refl
read_from-append acc (x ∷ xs) ys = read_from-append (acc * 10 + (x - 48)) xs ys

read_from-digits_from : (fuel n : ℕ) → n < fuel → read_from 0 (digits_from fuel n) ≡ n
unfolding digits_from
read_from-digits_from zero n h = absurd (omega arith)
read_from-digits_from (suc fuel) n h = ground (
  arith,
  read_from-append 0 (digits_from fuel (n / 10)) ((48 + n % 10) ∷ []),
  read_from-digits_from fuel (n / 10),
)

-- Different numbers have different numerals.
pub decimal_injective : (m n : ℕ) → decimal m ≡ decimal n → m ≡ n
unfolding decimal
decimal_injective m n e =
    let read = ap (read_from 0) e in
    cc
      (read_from-digits_from (suc m) m (omega arith), read_from-digits_from (suc n) n (omega arith))

-- the digits of ASCII
abbrev pub is_digit : ℕ → Bool
is_digit c = leb 48 c && leb c 57

abbrev pub all_digits : Bytes → Bool
all_digits [] = true
all_digits (c ∷ cs) = is_digit c && all_digits cs

all_digits-append :
    (xs ys : Bytes) → all_digits xs ≡ true → all_digits ys ≡ true → all_digits (xs ++ ys) ≡ true
all_digits-append [] ys h k = k
all_digits-append (x ∷ xs) ys h k = ground (arith, all_digits-append xs ys)

digits_from_digits : (fuel n : ℕ) → all_digits (digits_from fuel n) ≡ true
unfolding digits_from
digits_from_digits zero n = refl
digits_from_digits (suc fuel) n = ground (
  arith,
  all_digits-append (digits_from fuel (n / 10)) ((48 + n % 10) ∷ []),
  digits_from_digits fuel (n / 10),
)

nonempty_append : (xs : Bytes) (y : ℕ) → (c : ℕ) × (cs : Bytes) × ((xs ++ y ∷ []) ≡ c ∷ cs)
nonempty_append [] y = (y, [], refl)
nonempty_append (x ∷ xs) y = (x, xs ++ y ∷ [], refl)

decimal_nonempty : (n : ℕ) → (c : ℕ) × (cs : Bytes) × (decimal n ≡ c ∷ cs)
unfolding decimal digits_from
decimal_nonempty n = elim (Bool-cases (ltb n 10)) [
  | inl small ↦ (48 + n, [], ground arith)
  | inr large ↦
      let (c, cs, shape) = nonempty_append (digits_from n (n / 10)) (48 + n % 10) in
      (c, cs, ground arith)
]

-- A numeral is not empty, and has digits only, which stand for its number.
pub decimal_digits :
    (n : ℕ)
    → ((c : ℕ) × (cs : Bytes) × (decimal n ≡ c ∷ cs))
      × (all_digits (decimal n) ≡ true)
      × (read_from 0 (decimal n) ≡ n)
unfolding decimal
decimal_digits n = (
  decimal_nonempty n,
  digits_from_digits (suc n) n,
  read_from-digits_from (suc n) n (omega arith),
)
