-- ===== src/Config.antt =====
-- baseplate/lib/config.py: the parsers of values. Texts are lists of ASCII code points; a timespan
-- is a whole number of milliseconds.
pub mod Spec
pub mod Leaves
pub mod Subkeys
pub mod Failures
pub mod Groups
pub mod Reading
pub mod Endpoints
pub mod Timespans
mod Tests
use baseplate_py.Prelude.{
  ℕ, zero, suc, ◌+◌, ◌*◌, ◌-◌, Bool, true, false, not, ◌&&◌, ◌||◌, Option, none, some, List, [],
  ◌∷◌, ◌++◌, ltb, leb, ◌==◌, if◌then◌else◌, Result, ok, err, ◌>>=◌, Bytes, codes, int,
}
use baseplate_py.Prelude.Int.{ℤ, pos, negsuc}
use baseplate_py.Metrics.{bytes_eq}

-- the ValueErrors of the parsers; `raised` is one of Python's own, such as that of `int`
pub data ValueError : Type 0 where
  no_value no_endpoint no_port no_values : ValueError
  invalid_specification unknown_unit not_an_option : ValueError
  raised : ValueError

abbrev pub Parsing {ℓ} : Type ℓ → Type ℓ
Parsing A = Bytes → Result ValueError A

-- `String`
unfoldable pub parse_string : Parsing Bytes
parse_string [] = err no_value
parse_string (c ∷ text) = ok (c ∷ text)

abbrev pub or_raise {ℓ} : {A : Type ℓ} → ValueError → Option A → Result ValueError A
or_raise e none = err e
or_raise e (some a) = ok a

-- `Integer`, in base 10
unfoldable pub parse_integer : Parsing ℤ
unfolding int
parse_integer text = or_raise raised (int text)

-- `OneOf`, of the options in their order
unfoldable pub one_of {ℓ} : {A : Type ℓ} → List (Bytes × A) → Parsing A
one_of [] text = err not_an_option
one_of ((name, value) ∷ options) text = if bytes_eq name text then ok value else one_of options text

-- `text.lower()`
abbrev pub lower : Bytes → Bytes
lower [] = []
lower (c ∷ text) = (if leb 65 c && leb c 90 then c + 32 else c) ∷ lower text

-- `Boolean`
unfoldable pub parse_boolean : Parsing Bool
unfolding one_of
parse_boolean text = one_of ((codes "true", true) ∷ (codes "false", false) ∷ []) (lower text)

unfoldable pub has_char : ℕ → Bytes → Bool
has_char c [] = false
has_char c (d ∷ text) = (d == c) || has_char c text

-- `text.partition(c)`: what is before the first c, and, if there is one, what is after it
unfoldable pub partition : ℕ → Bytes → Bytes × Option Bytes
partition c [] = ([], none)
partition c (d ∷ text) =
    let (before, after) = partition c text in
    if d == c then ([], some text) else (d ∷ before, after)

-- an EndpointConfiguration
pub data Endpoint : Type 0 where
  unix : Bytes → Endpoint
  inet : Bytes → ℤ → Endpoint

unfoldable pub internet_address : Bytes × Option Bytes → Result ValueError Endpoint
unfolding int
internet_address (host, none) = err no_port
internet_address (host, some port) = or_raise raised (int port) >>= λ n. ok (inet host n)

-- `Endpoint`
unfoldable pub parse_endpoint : Parsing Endpoint
unfolding has_char partition internet_address
parse_endpoint [] = err no_endpoint
parse_endpoint (c ∷ text) =
    if has_char 47 (c ∷ text)
    then ok (unix (c ∷ text))
    else internet_address (partition 58 (c ∷ text))

-- Python's white space among the ASCII characters
abbrev pub is_space : ℕ → Bool
is_space c = (c == 32) || (leb 9 c && leb c 13) || (leb 28 c && leb c 31)

-- `text.split()`, with the word that is being read
unfoldable pub split_words : Bytes → Bytes → List Bytes
split_words [] [] = []
split_words (w ∷ word) [] = (w ∷ word) ∷ []
split_words word (c ∷ text) =
    let next = split_words (word ++ (c ∷ [])) text in
    let skipped = split_words [] text in
    if is_space c then (elim word [ [] ↦ skipped | w ∷ ws ↦ (w ∷ ws) ∷ skipped ]) else next

-- `unit.rstrip("s")`
unfoldable pub rstrip_s : Bytes → Bytes
rstrip_s [] = []
rstrip_s (c ∷ cs) = elim (rstrip_s cs) [
  | [] ↦ if c == 115 then [] else c ∷ []
  | d ∷ ds ↦ c ∷ d ∷ ds
]

-- the lengths of the units in milliseconds
abbrev pub scale_by_unit : List (Bytes × ℕ)
scale_by_unit =
    (codes "millisecond", 1)
    ∷ (codes "second", 1000)
    ∷ (codes "minute", 60 * 1000)
    ∷ (codes "hour", 60 * (60 * 1000))
    ∷ (codes "day", 24 * (60 * (60 * 1000)))
    ∷ []

abbrev pub scale_of : List (Bytes × ℕ) → Bytes → Result ValueError ℕ
scale_of [] unit = err unknown_unit
scale_of ((name, scale) ∷ units) unit = if bytes_eq name unit then ok scale else scale_of units unit

-- a count of milliseconds with the sign of the count
abbrev pub scaled : ℤ → ℕ → ℤ
scaled (pos n) scale = pos (n * scale)
scaled (negsuc n) scale = negsuc (suc n * scale - 1)

unfoldable pub timespan_of : List Bytes → Result ValueError ℤ
unfolding int rstrip_s
timespan_of (count_text ∷ unit ∷ []) = do
  count ← or_raise raised (int count_text)
  scale ← scale_of scale_by_unit (rstrip_s unit)
  ok (scaled count scale)
timespan_of _ = err invalid_specification

-- `Timespan`, in milliseconds
unfoldable pub parse_timespan : Parsing ℤ
unfolding split_words timespan_of
parse_timespan text = timespan_of (split_words [] text)

-- `TimespanOrInfinite`; none is the infinite one
unfoldable pub parse_timespan_or_infinite : Parsing (Option ℤ)
unfolding parse_timespan
parse_timespan_or_infinite text =
    if bytes_eq text (codes "infinite") then ok none else parse_timespan text >>= λ t. ok (some t)

-- `item.strip()`
unfoldable pub lstrip : Bytes → Bytes
lstrip [] = []
lstrip (c ∷ cs) = let rest = lstrip cs in if is_space c then rest else c ∷ cs

unfoldable pub rstrip : Bytes → Bytes
rstrip [] = []
rstrip (c ∷ cs) = elim (rstrip cs) [ [] ↦ if is_space c then [] else c ∷ [] | d ∷ ds ↦ c ∷ d ∷ ds ]

-- `text.split(c)`
unfoldable pub split_at : ℕ → Bytes → List Bytes
split_at c [] = [] ∷ []
split_at c (d ∷ text) = elim (split_at c text) [
  | [] ↦ []
  | word ∷ words ↦ if d == c then [] ∷ word ∷ words else (d ∷ word) ∷ words
]

module _ {ℓ} {A : Type ℓ} (item_parser : Parsing A) where
  -- the parsed items, less the empty ones
  unfoldable pub parse_items : List Bytes → Result ValueError (List A)
  unfolding lstrip rstrip
  parse_items [] = ok []
  parse_items (item ∷ items) = elim (rstrip (lstrip item)) [
    | [] ↦ parse_items items
    | c ∷ text ↦
        item_parser (c ∷ text) >>= λ value. parse_items items >>= λ values. ok (value ∷ values)
  ]

  -- `TupleOf`
  unfoldable pub tuple_of : Parsing (List A)
  unfolding parse_items split_at
  tuple_of [] = err no_values
  tuple_of (c ∷ text) = parse_items (split_at 44 (c ∷ text))

  -- `Optional`
  unfoldable pub optional : A → Parsing A
  optional default [] = ok default
  optional default (c ∷ text) = item_parser (c ∷ text)

  -- `Fallback`
  unfoldable pub fallback : Parsing A → Parsing A
  fallback fallback_parser text = elim (item_parser text) [
    | ok a ↦ ok a
    | err e ↦ fallback_parser text
  ]
