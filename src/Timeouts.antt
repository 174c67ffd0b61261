-- ===== src/Timeouts.antt =====
-- src/timeout.c: the commands that set the timeouts of connections and of fragments. A text is the
-- list of its character codes, without the 0 at its end; `strncmp`, `isdigit` and `strtoll` are those
-- of the C library.
pub mod Decimal
pub mod Sent
pub mod RoundTrip
pub mod Frag
pub mod FragSent
use Prim.Native.Char.{code}
use Prim.Native.String.{String}
use cmm.Prelude.{
  ℕ, ◌+◌, ◌-◌, ◌*◌, ◌^◌, Bool, true, false, ◌&&◌, ◌||◌, Option, none, some, List, [], ◌∷◌, length,
  ltb, leb, ◌==◌, if◌then◌else◌,
}

-- `String` has its own `[]` and `∷`.
abbrev pub codes : String → List ℕ
codes String.[] = []
codes (String.◌∷◌ c s) = code c ∷ codes s

-- `strncmp(arg, word, strlen(arg)) == 0`
unfoldable pub names : List ℕ → List ℕ → Bool
names [] word = true
names (c ∷ arg) [] = false
names (c ∷ arg) (d ∷ word) = c == d && names arg word

abbrev pub is_digit : ℕ → Bool
is_digit c = leb b'0' c && leb c b'9'

unfoldable pub all_digits : List ℕ → Bool
all_digits [] = true
all_digits (c ∷ cs) = is_digit c && all_digits cs

-- `strtoll` of a text of at most ten digits, after the value of the digits that it has read.
unfoldable pub strtoll : ℕ → List ℕ → ℕ
strtoll n [] = n
strtoll n (c ∷ cs) = strtoll (n * 10 + (c - b'0')) cs

abbrev pub max_timeout_str_len : ℕ
max_timeout_str_len = 10

abbrev pub uint32_max : ℕ
uint32_max = 4294967295

-- `cmm_convert_to_numeric`: 0 where the text is too long or has another character than a digit.
unfoldable pub convert_to_numeric : List ℕ → ℕ
convert_to_numeric str =
    if leb (length str) max_timeout_str_len && all_digits str then strtoll 0 str else 0

-- `fpp_timeout_cmd_t`
pub record TimeoutCmd : Type 0 where
  pub protocol : ℕ
  pub sam_4o6_timeout : ℕ
  pub timeout_value1 : ℕ
  pub timeout_value2 : ℕ

-- -1 with the usage, -1 alone, or 0 after the command was sent to the daemon.
pub data Outcome : Type 0 where
  usage : Outcome
  bad_number : Outcome
  sent : TimeoutCmd → Outcome

abbrev pub ipproto_udp : ℕ
ipproto_udp = 17

abbrev pub ipproto_tcp : ℕ
ipproto_tcp = 6

unfoldable pub proto_of : List ℕ → Option ℕ
proto_of arg =
    if names arg (codes "udp")
    then some ipproto_udp
    else if names arg (codes "tcp")
    then some ipproto_tcp
    else if names arg (codes "other")
    then some 0
    else none

-- The optional arguments: `sam_4o6_timeout` and `in_val2`, or a bad number.
unfoldable pub options : List (List ℕ) → ℕ → ℕ → Option (ℕ × ℕ)
options [] sam val2 = some (sam, val2)
options (arg ∷ args) sam val2 =
    let n = convert_to_numeric arg in
    let named = options args 1 val2 in
    let numeric = options args sam n in
    if names arg (codes "4rd") then named else if n == 0 then none else numeric

-- The tests on the values, and the command.
unfoldable pub send_timeout : ℕ → ℕ → ℕ × ℕ → Outcome
send_timeout proto val1 (sam, val2) =
    if val1 == 0 || leb uint32_max val1
    then usage
    else if leb uint32_max val2
    then usage
    else sent (record {
      protocol = proto;
      sam_4o6_timeout = sam;
      timeout_value1 = val1;
      timeout_value2 = val2;
    })

unfoldable pub set_values : ℕ → List ℕ → List (List ℕ) → Outcome
set_values proto value args =
    if convert_to_numeric value == 0 then bad_number else elim (options args 0 0) [
      | none ↦ bad_number
      | some r ↦ send_timeout proto (convert_to_numeric value) r
    ]

unfoldable pub timeout_set : List (List ℕ) → Outcome
timeout_set [] = usage
timeout_set (name ∷ []) = usage
timeout_set (name ∷ value ∷ args) =
    if leb (length args) 2
    then elim (proto_of name) [ none ↦ usage | some proto ↦ set_values proto value args ]
    else usage
