-- ===== src/Timeouts/FragSent.antt =====
-- src/timeout.c, `cmmFragTimeoutSet`: the commands that are sent.
use cmm.Prelude.{
  ℕ, ◌%◌, ◌^◌, ◌≤◌, ◌<◌, ◌≡◌, ◌≢◌, ◌↔◌, refl, false, Option, none, some, List, [], ◌∷◌, arith, ltb,
  ◌==◌, Bool-cases, Option-cases, inl, inr,
}
use cmm.Timeouts.{codes}
use cmm.Timeouts.Frag.{
  case_equal, ipv4_fragtimeout, ipv4_samfragtimeout, FragOutcome, keyword_error, help, sent,
  frag_command, frag_mode, frag_rest, frag_value, frag_timeout, frag_timeout_set,
}

-- What holds of a command: the timeout fits its field, and the mode is written unless the command has
-- none.
pub record IsFragCommand (command timeout : ℕ) (mode : Option ℕ) : Type 0 where
  pub fits : timeout < 65536
  pub written : (mode ≡ none) ↔ (command ≡ ipv4_samfragtimeout)
  pub known : (n : ℕ) → mode ≡ some n → n ≤ 1

abbrev pub SendsFrag : FragOutcome → Type 0
SendsFrag keyword_error = Unit {0}
SendsFrag help = Unit {0}
SendsFrag (sent command timeout mode) = IsFragCommand command timeout mode

with_mode :
    (command timeout n : ℕ)
    → timeout < 65536
    → (command == ipv4_samfragtimeout) ≡ false
    → n ≤ 1
    → IsFragCommand command timeout (some n)
with_mode command timeout n fits other low = record {
  fits = fits;
  written = (λ e. absurd (cc), λ e. absurd (ground arith));
  known = λ m e. ground arith;
}

frag_mode-SendsFrag :
    (command timeout : ℕ) (args : List (List ℕ))
    → timeout < 65536
    → (command == ipv4_samfragtimeout) ≡ false
    → SendsFrag (frag_mode command timeout args)
unfolding frag_mode
frag_mode-SendsFrag command timeout [] h o = tt
frag_mode-SendsFrag command timeout (keyword ∷ []) h o =
    elim (Bool-cases (case_equal keyword (codes "mode"))) [
      | inl mode ↦ rw mode tt
      | inr other ↦ rw other tt
    ]
frag_mode-SendsFrag command timeout (keyword ∷ mode ∷ args) h o =
    elim (Bool-cases (case_equal keyword (codes "mode"))) [
      | inr other ↦ rw other tt
      | inl named ↦ elim (Bool-cases (case_equal mode (codes "drop"))) [
        | inl drop ↦ rw (named, drop) (with_mode command timeout 1 h o (omega arith))
        | inr not_drop ↦ elim (Bool-cases (case_equal mode (codes "acp"))) [
          | inl acp ↦ rw (named, not_drop, acp) (with_mode command timeout 0 h o (omega arith))
          | inr neither ↦ rw (named, not_drop, neither) tt
        ]
      ]
    ]

without_mode :
    (command timeout : ℕ) (args : List (List ℕ))
    → timeout < 65536
    → command ≡ ipv4_samfragtimeout
    → SendsFrag (elim args [ [] ↦ sent command timeout none | keyword ∷ more ↦ keyword_error ])
without_mode command timeout [] h e = record {
  fits = h;
  written = (λ m. e, λ m. refl);
  known = λ n m. absurd (cc);
}
without_mode command timeout (keyword ∷ args) h e = tt

frag_rest-SendsFrag :
    (command timeout : ℕ) (args : List (List ℕ))
    → timeout < 65536
    → SendsFrag (frag_rest command timeout args)
unfolding frag_rest
frag_rest-SendsFrag command timeout args h = elim (Bool-cases (command == ipv4_samfragtimeout)) [
  | inl sam ↦ rw sam (without_mode command timeout args h (ground arith))
  | inr other ↦ rw other (frag_mode-SendsFrag command timeout args h other)
]

module _ (strtoul : List ℕ → Option ℕ) where
  frag_value-SendsFrag :
      (command : ℕ) (text : List ℕ) (args : List (List ℕ))
      → SendsFrag (frag_value strtoul command text args)
  unfolding frag_value
  frag_value-SendsFrag command text args = elim (Option-cases (strtoul text)) [
    | inl nothing ↦ rw (nothing, SendsFrag) tt
    | inr (n, e) ↦ elim (Bool-cases (ltb 65535 (n % 2 ^ 32))) [
      | inl large ↦ rw (e, SendsFrag) (rw large tt)
      | inr small ↦
          rw (e, SendsFrag)
            (rw small (frag_rest-SendsFrag command (n % 2 ^ 32) args (ground arith)))
    ]
  ]

  frag_timeout-SendsFrag :
      (command : ℕ) (args : List (List ℕ)) → SendsFrag (frag_timeout strtoul command args)
  unfolding frag_timeout
  frag_timeout-SendsFrag command [] = tt
  frag_timeout-SendsFrag command (keyword ∷ []) =
      elim (Bool-cases (case_equal keyword (codes "timeout"))) [
        | inl named ↦ rw named tt
        | inr other ↦ rw other tt
      ]
  frag_timeout-SendsFrag command (keyword ∷ text ∷ args) =
      elim (Bool-cases (case_equal keyword (codes "timeout"))) [
        | inl named ↦ rw named (frag_value-SendsFrag command text args)
        | inr other ↦ rw other tt
      ]

  -- Every command that cmmFragTimeoutSet sends has a timeout of 16 bits and a mode of 0 or 1, and
  -- the mode is left unwritten exactly for sam-ipv4.
  pub frag_timeout_set-SendsFrag :
      (args : List (List ℕ)) → SendsFrag (frag_timeout_set strtoul args)
  unfolding frag_timeout_set
  frag_timeout_set-SendsFrag [] = tt
  frag_timeout_set-SendsFrag (keyword ∷ args) = elim (Option-cases (frag_command keyword)) [
    | inl foreign ↦ rw (foreign, SendsFrag) tt
    | inr (command, e) ↦ rw (e, SendsFrag) (frag_timeout-SendsFrag command args)
  ]

  -- cmmFragTimeoutSet accepts a number over 65535 whose low 32 bits are at most 65535, and sends
  -- another timeout.
  pub frag_timeout_set_wraps :
      (text : List ℕ) (n : ℕ)
      → strtoul text ≡ some n
      → 65535 < n
      → n % 2 ^ 32 < 65536
      → (k : ℕ) × (frag_timeout_set strtoul
            (codes "ipv4" ∷ codes "timeout" ∷ text ∷ codes "mode" ∷ codes "drop" ∷ [])
          ≡ sent ipv4_fragtimeout k (some 1))
        × (k ≢ n)
  unfolding frag_timeout_set frag_command frag_timeout frag_value frag_rest frag_mode case_equal
  frag_timeout_set_wraps text n e large low =
      let fits : ltb 65535 (n % 2 ^ 32) ≡ false = ground arith in
      (n % 2 ^ 32, rw (e, frag_value) (rw fits refl), omega arith)
