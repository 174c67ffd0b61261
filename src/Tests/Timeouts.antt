-- ===== src/Tests/Timeouts.antt =====
-- The timeout commands at concrete arguments.
use cmm.Prelude.{ℕ, ◌≡◌, refl, some, List, [], ◌∷◌, Option, arith}
use cmm.Timeouts.{
  codes, sent, ipproto_tcp, ipproto_udp, timeout_set, names, proto_of, set_values,
  convert_to_numeric, all_digits, strtoll, options, send_timeout,
}
use cmm.Timeouts.Decimal.{decimal}
use cmm.Timeouts.Sent.{Sends, IsCommand, timeout_set-IsCommand}
use cmm.Timeouts.RoundTrip.{timeout_set-decimal}
use cmm.Timeouts.Frag.{frag_timeout_set}
use cmm.Timeouts.FragSent.{SendsFrag, frag_timeout_set-SendsFrag}

-- `set timeout udp 60 300`
abbrev two_values : List (List ℕ)
two_values = codes "udp" ∷ codes "60" ∷ codes "300" ∷ []

two_values_sent :
    timeout_set two_values
    ≡ sent (record {
      protocol = ipproto_udp;
      sam_4o6_timeout = 0;
      timeout_value1 = 60;
      timeout_value2 = 300;
    })
unfolding timeout_set names proto_of set_values convert_to_numeric all_digits strtoll options
    send_timeout
two_values_sent = refl

timeout_set-IsCommand_example : Sends IsCommand (timeout_set two_values)
timeout_set-IsCommand_example = timeout_set-IsCommand two_values

timeout_set-decimal_example :
    timeout_set (codes "tcp" ∷ decimal 7200 ∷ decimal 40 ∷ codes "4rd" ∷ [])
    ≡ sent (record {
      protocol = ipproto_tcp;
      sam_4o6_timeout = 1;
      timeout_value1 = 7200;
      timeout_value2 = 40;
    })
timeout_set-decimal_example =
    timeout_set-decimal 7200 40 (omega arith) (omega arith) (omega arith) (omega arith)
      (omega arith)

-- A `strtoul` that reads every text as the same number.
abbrev reads : ℕ → List ℕ → Option ℕ
reads n text = some n

frag_timeout_set-SendsFrag_example :
    SendsFrag (frag_timeout_set (reads 500) (codes "sam-ipv4" ∷ codes "timeout" ∷ codes "500" ∷ []))
frag_timeout_set-SendsFrag_example =
    frag_timeout_set-SendsFrag (reads 500) (codes "sam-ipv4" ∷ codes "timeout" ∷ codes "500" ∷ [])
