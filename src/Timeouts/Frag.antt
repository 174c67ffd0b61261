-- ===== src/Timeouts/Frag.antt =====
-- src/timeout.c, lines 190-283, `cmmFragTimeoutSet`: the command that sets the timeout of fragments.
use cmm.Prelude.{
  ℕ, ◌+◌, ◌%◌, ◌^◌, Bool, true, false, ◌&&◌, Option, none, some, List, [], ◌∷◌, ltb, leb, ◌==◌,
  if◌then◌else◌,
}
use cmm.Timeouts.{codes}

abbrev pub to_lower : ℕ → ℕ
to_lower c = if leb b'A' c && leb c b'Z' then c + 32 else c

-- `!strcasecmp`
unfoldable pub case_equal : List ℕ → List ℕ → Bool
case_equal [] [] = true
case_equal [] (d ∷ ds) = false
case_equal (c ∷ cs) [] = false
case_equal (c ∷ cs) (d ∷ ds) = to_lower c == to_lower d && case_equal cs ds

abbrev pub ipv4_fragtimeout : ℕ
ipv4_fragtimeout = 0x0333

abbrev pub ipv4_samfragtimeout : ℕ
ipv4_samfragtimeout = 0x0334

abbrev pub ipv6_fragtimeout : ℕ
ipv6_fragtimeout = 0x0433

-- -1 after an unknown keyword, -1 with the usage, or 0 after the command was sent: its number, the
-- timeout, and the mode, which may not have been written.
pub data FragOutcome : Type 0 where
  keyword_error : FragOutcome
  help : FragOutcome
  sent : ℕ → ℕ → Option ℕ → FragOutcome

unfoldable pub frag_command : List ℕ → Option ℕ
frag_command keyword =
    if case_equal keyword (codes "ipv6")
    then some ipv6_fragtimeout
    else if case_equal keyword (codes "ipv4")
    then some ipv4_fragtimeout
    else if case_equal keyword (codes "sam-ipv4")
    then some ipv4_samfragtimeout
    else none

unfoldable pub frag_mode : ℕ → ℕ → List (List ℕ) → FragOutcome
frag_mode command timeout [] = help
frag_mode command timeout (keyword ∷ []) =
    if case_equal keyword (codes "mode") then help else keyword_error
frag_mode command timeout (keyword ∷ mode ∷ args) =
    if case_equal keyword (codes "mode")
    then if case_equal mode (codes "drop")
      then sent command timeout (some 1)
      else if case_equal mode (codes "acp")
      then sent command timeout (some 0)
      else help
    else keyword_error

unfoldable pub frag_rest : ℕ → ℕ → List (List ℕ) → FragOutcome
frag_rest command timeout args =
    if command == ipv4_samfragtimeout
    then elim args [ [] ↦ sent command timeout none | keyword ∷ more ↦ keyword_error ]
    else frag_mode command timeout args

-- `strtoul` of the C library, with `none` where there is no number, is an argument. Its result goes
-- into an `unsigned int`.
module _ (strtoul : List ℕ → Option ℕ) where
  unfoldable pub frag_value : ℕ → List ℕ → List (List ℕ) → FragOutcome
  frag_value command text args = elim (strtoul text) [
    | none ↦ help
    | some n ↦ let tmp = n % 2 ^ 32 in if ltb 65535 tmp then help else frag_rest command tmp args
  ]

  unfoldable pub frag_timeout : ℕ → List (List ℕ) → FragOutcome
  frag_timeout command [] = help
  frag_timeout command (keyword ∷ []) =
      if case_equal keyword (codes "timeout") then help else keyword_error
  frag_timeout command (keyword ∷ text ∷ args) =
      if case_equal keyword (codes "timeout") then frag_value command text args else keyword_error

  unfoldable pub frag_timeout_set : List (List ℕ) → FragOutcome
  frag_timeout_set [] = keyword_error
  frag_timeout_set (keyword ∷ args) = elim (frag_command keyword) [
    | none ↦ keyword_error
    | some command ↦ frag_timeout command args
  ]
