-- ===== src/Timeouts/Sent.antt =====
-- src/timeout.c, `timeoutSet`: the commands that are sent.
use cmm.Prelude.{
  ℕ, ◌<◌, ◌≤◌, ◌≡◌, ◌⊎◌, ◌||◌, some, List, [], ◌∷◌, length, arith, leb, ◌==◌, Bool-cases,
  Option-cases, inl, inr,
}
use cmm.Timeouts.{
  codes, names, convert_to_numeric, uint32_max, TimeoutCmd, Outcome, usage, bad_number, sent,
  ipproto_udp, ipproto_tcp, proto_of, options, send_timeout, set_values, timeout_set,
}

-- What holds of a command that is sent.
pub record IsCommand (c : TimeoutCmd) : Type 0 where
  pub protocol : (c.protocol ≡ ipproto_udp) ⊎ ((c.protocol ≡ ipproto_tcp) ⊎ (c.protocol ≡ 0))
  pub flag : c.sam_4o6_timeout ≤ 1
  pub positive : 0 < c.timeout_value1
  pub value1 : c.timeout_value1 < uint32_max
  pub value2 : c.timeout_value2 < uint32_max

abbrev pub Sends : (TimeoutCmd → Type 0) → Outcome → Type 0
Sends P usage = Unit {0}
Sends P bad_number = Unit {0}
Sends P (sent c) = P c

options-flag :
    (args : List (List ℕ)) (sam val2 : ℕ) (r : ℕ × ℕ)
    → sam ≤ 1
    → options args sam val2 ≡ some r
    → r.0 ≤ 1
unfolding options
options-flag [] sam val2 r h e = ground arith
options-flag (arg ∷ args) sam val2 r h e = elim (Bool-cases (names arg (codes "4rd"))) [
  | inl named ↦ options-flag args 1 val2 r (omega arith) (rw named at e)
  | inr plain ↦ elim (Bool-cases (convert_to_numeric arg == 0)) [
    | inl bad ↦ absurd (ground arith)
    | inr good ↦ options-flag args sam (convert_to_numeric arg) r h (rw (plain, good) at e)
  ]
]

proto_of-known :
    (name : List ℕ) (proto : ℕ)
    → proto_of name ≡ some proto
    → (proto ≡ ipproto_udp) ⊎ ((proto ≡ ipproto_tcp) ⊎ (proto ≡ 0))
unfolding proto_of
proto_of-known name proto e = elim (Bool-cases (names name (codes "udp"))) [
  | inl udp ↦ inl (ground arith)
  | inr other ↦ elim (Bool-cases (names name (codes "tcp"))) [
    | inl tcp ↦ inr (inl (ground arith))
    | inr neither ↦ inr (inr (ground arith))
  ]
]

send_timeout-IsCommand :
    (proto val1 : ℕ) (r : ℕ × ℕ)
    → (proto ≡ ipproto_udp) ⊎ ((proto ≡ ipproto_tcp) ⊎ (proto ≡ 0))
    → r.0 ≤ 1
    → Sends IsCommand (send_timeout proto val1 r)
unfolding send_timeout
send_timeout-IsCommand proto val1 (sam, val2) known flag =
    elim (Bool-cases (val1 == 0 || leb uint32_max val1)) [
      | inl bad ↦ rw bad tt
      | inr good ↦ elim (Bool-cases (leb uint32_max val2)) [
        | inl large ↦ rw (good, large) tt
        | inr fits ↦
            rw (good, fits)
              (record {
                protocol = known;
                flag = flag;
                positive = ground arith;
                value1 = ground arith;
                value2 = ground arith;
              })
      ]
    ]

set_values-IsCommand :
    (proto : ℕ) (value : List ℕ) (args : List (List ℕ))
    → (proto ≡ ipproto_udp) ⊎ ((proto ≡ ipproto_tcp) ⊎ (proto ≡ 0))
    → Sends IsCommand (set_values proto value args)
unfolding set_values
set_values-IsCommand proto value args known = elim (Bool-cases (convert_to_numeric value == 0)) [
  | inl bad ↦ rw bad tt
  | inr good ↦ elim (Option-cases (options args 0 0)) [
    | inl worse ↦ rw (good, worse) tt
    | inr (r, e) ↦
        rw (good, e)
          (send_timeout-IsCommand proto (convert_to_numeric value) r known
            (options-flag args 0 0 r (omega arith) e))
  ]
]

-- Every command that timeoutSet sends has a known protocol, a first timeout from 1 to 2^32 - 2, a
-- second one below 2^32 - 1, and a flag of 0 or 1, whatever the arguments.
pub timeout_set-IsCommand : (args : List (List ℕ)) → Sends IsCommand (timeout_set args)
unfolding timeout_set
timeout_set-IsCommand [] = tt
timeout_set-IsCommand (name ∷ []) = tt
timeout_set-IsCommand (name ∷ value ∷ args) = elim (Bool-cases (leb (length args) 2)) [
  | inr many ↦ rw many tt
  | inl few ↦ elim (Option-cases (proto_of name)) [
    | inl foreign ↦ rw (few, foreign) tt
    | inr (proto, known) ↦
        rw (few, known) (set_values-IsCommand proto value args (proto_of-known name proto known))
  ]
]
