-- ===== src/Config/Endpoints.antt =====
-- baseplate/lib/config.py: Endpoint and the texts of endpoints.
use baseplate_py.Prelude.{
  ℕ, suc, ◌≡◌, refl, true, false, ◌||◌, Option, none, some, [], ◌∷◌, ◌++◌, ok, err, Bytes, arith,
  inl, inr, ◌↔◌, Bool-cases, first_ok, decimal, all_digits, decimal_digits, int, numeral,
  int-numeral,
}
use baseplate_py.Prelude.Int.{ℤ, pos, negsuc}
use baseplate_py.Config.{
  has_char, partition, Endpoint, unix, inet, internet_address, parse_endpoint, or_raise, raised,
  no_endpoint, no_port, ValueError,
}

-- `str` of an endpoint
unfoldable pub str_endpoint : Endpoint → Bytes
str_endpoint (unix path) = path
str_endpoint (inet host port) = host ++ (58 ∷ numeral port)

-- A path of a socket has a slash; a host has neither a slash nor a colon.
abbrev pub IsAddress : Endpoint → Type 0
IsAddress (unix path) = has_char 47 path ≡ true
IsAddress (inet host port) = (has_char 47 host ≡ false) × (has_char 58 host ≡ false)

has_char-append : (c : ℕ) (xs ys : Bytes) → has_char c (xs ++ ys) ≡ (has_char c xs || has_char c ys)
unfolding has_char
has_char-append c [] ys = refl
has_char-append c (x ∷ xs) ys = ground (arith, has_char-append c xs ys)

no_slash : (cs : Bytes) → all_digits cs ≡ true → has_char 47 cs ≡ false
unfolding has_char
no_slash [] h = refl
no_slash (c ∷ cs) h = ground (arith, no_slash cs)

no_slash_numeral : (z : ℤ) → has_char 47 (numeral z) ≡ false
unfolding has_char
no_slash_numeral (pos n) = no_slash (decimal n) (decimal_digits n).1
no_slash_numeral (negsuc n) = ground (arith, no_slash (decimal (suc n)) (decimal_digits (suc n)).1)

partition-append :
    (c : ℕ) (xs ys : Bytes) → has_char c xs ≡ false → partition c (xs ++ c ∷ ys) ≡ (xs, some ys)
unfolding partition has_char
partition-append c [] ys h = ground arith
partition-append c (x ∷ xs) ys h =
    let rest = partition-append c xs ys (ground arith) in rw rest (ground arith)

partition_before : (c : ℕ) (text : Bytes) → has_char c (partition c text).0 ≡ false
unfolding partition has_char
partition_before c [] = refl
partition_before c (d ∷ text) = ground (arith, partition_before c text)

has_char-partition :
    (c d : ℕ) (text : Bytes) → has_char d text ≡ false → has_char d (partition c text).0 ≡ false
unfolding partition has_char
has_char-partition c d [] h = refl
has_char-partition c d (x ∷ text) h = ground (arith, has_char-partition c d text)

internet_endpoint :
    (text : Bytes)
    → has_char 47 text ≡ false
    → has_char 58 text ≡ true
    → parse_endpoint text ≡ internet_address (partition 58 text)
unfolding parse_endpoint has_char
internet_endpoint [] plain colon = cc
internet_endpoint (c ∷ text) plain colon = ground arith

str_endpoint_parsed :
    (host : Bytes) (port : ℤ)
    → has_char 47 host ≡ false
    → has_char 58 host ≡ false
    → parse_endpoint (host ++ 58 ∷ numeral port) ≡ ok (inet host port)
unfolding internet_address has_char
str_endpoint_parsed host port no_slash_in no_colon =
    let plain : has_char 47 (host ++ 58 ∷ numeral port) ≡ false =
      ground (arith, no_slash_numeral port, has_char-append 47 host (58 ∷ numeral port)) in
    let colon : has_char 58 (host ++ 58 ∷ numeral port) ≡ true =
      ground (arith, has_char-append 58 host (58 ∷ numeral port)) in
    let split = partition-append 58 host (numeral port) no_colon in
    let read = int-numeral port in
    rw (internet_endpoint (host ++ 58 ∷ numeral port) plain colon) (rw split (rw read refl))

unix_parsed : (path : Bytes) → has_char 47 path ≡ true → parse_endpoint path ≡ ok (unix path)
unfolding parse_endpoint has_char
unix_parsed [] h = cc
unix_parsed (c ∷ path) h = ground arith

partition_nothing :
    (c : ℕ) (text : Bytes) → has_char c text ≡ false → partition c text ≡ (text, none)
unfolding partition has_char
partition_nothing c [] h = refl
partition_nothing c (d ∷ text) h =
    let rest = partition_nothing c text (ground arith) in rw rest (ground arith)

no_port_given :
    (text : Bytes)
    → has_char 47 text ≡ false
    → has_char 58 text ≡ false
    → (x : ValueError) × (parse_endpoint text ≡ err x)
unfolding parse_endpoint internet_address
no_port_given [] plain no_colon = (no_endpoint, refl)
no_port_given (c ∷ text) plain no_colon =
    let nothing = partition_nothing 58 (c ∷ text) no_colon in
    let failed : internet_address (partition 58 (c ∷ text)) ≡ err no_port = rw nothing refl in
    (no_port, ground arith)

internet_address-IsAddress :
    (before : Bytes) (after : Option Bytes) (e : Endpoint)
    → internet_address (before, after) ≡ ok e
    → has_char 47 before ≡ false
    → has_char 58 before ≡ false
    → IsAddress e
unfolding internet_address
internet_address-IsAddress before none e h no_slash_in no_colon = cc
internet_address-IsAddress before (some port) e h no_slash_in no_colon =
    let (n, _, made) = first_ok (or_raise raised (int port)) _ h in
    let same : inet before n ≡ e = cc in rw (← same) (no_slash_in, no_colon)

parse_endpoint-IsAddress : (text : Bytes) (e : Endpoint) → parse_endpoint text ≡ ok e → IsAddress e
parse_endpoint-IsAddress text e h = elim (Bool-cases (has_char 47 text)) [
  | inl slash ↦
      let same : unix text ≡ e = ground (arith, unix_parsed text slash) in rw (← same) slash
  | inr plain ↦ elim (Bool-cases (has_char 58 text)) [
    | inl colon ↦
        internet_address-IsAddress (partition 58 text).0 (partition 58 text).1 e
          (rw (internet_endpoint text plain colon) at h) (has_char-partition 58 47 text plain)
          (partition_before 58 text)
    | inr no_colon ↦ let (x, failed) = no_port_given text plain no_colon in absurd (ground arith)
  ]
]

-- The text of an endpoint is parsed to that endpoint exactly if it is a path with a slash, or a host
-- without slash and colon, and a port.
pub parse_endpoint-str_endpoint :
    (e : Endpoint) → (parse_endpoint (str_endpoint e) ≡ ok e) ↔ IsAddress e
unfolding str_endpoint
parse_endpoint-str_endpoint (unix path) =
    (parse_endpoint-IsAddress path (unix path), unix_parsed path)
parse_endpoint-str_endpoint (inet host port) = (
  parse_endpoint-IsAddress (host ++ 58 ∷ numeral port) (inet host port),
  λ (no_slash_in, no_colon). str_endpoint_parsed host port no_slash_in no_colon,
)
