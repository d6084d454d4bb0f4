-- ===== src/Experiments/Lower.antt =====
-- Python's `str.lower` on ASCII text: other characters stay as they are.
use Prim.Native.Char.{Char, code}
use Prim.Native.String.{String}
use baseplate_py.Prelude.{ℕ, zero, suc, ◌-◌, ◌&&◌, leb, if◌then◌else◌}

abbrev small_letters : String
small_letters = "abcdefghijklmnopqrstuvwxyz"

-- the character at a position, or c past the end
unfoldable at : String → ℕ → Char → Char
at String.[] n c = c
at (String.◌∷◌ d s) zero c = d
at (String.◌∷◌ d s) (suc n) c = at s n c

unfoldable lower_char : Char → Char
unfolding at
lower_char c = if leb 65 (code c) && leb (code c) 90 then at small_letters (code c - 65) c else c

unfoldable pub lower : String → String
unfolding lower_char
lower String.[] = String.[]
lower (String.◌∷◌ c s) = String.◌∷◌ (lower_char c) (lower s)
