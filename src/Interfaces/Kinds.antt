-- ===== src/Interfaces/Kinds.antt =====
-- src/itf.c, lines 1551-1720: what the table says of an interface. A result of -1 is `none`; the ports
-- of the hardware, `port_table`, are an argument.
use cmm.Prelude.{
  ℕ, Bool, false, ◌&&◌, ◌||◌, Option, none, some, List, [], ◌∷◌, ltb, ◌==◌, if◌then◌else◌,
}
use cmm.Net.{word}
use cmm.Interfaces.{Interfaces, itf_find}

abbrev pub max_ports : ℕ
max_ports = 64

-- The fields of `struct gemac_port` that are read.
pub record GemacPort : Type 0 where
  pub ifindex : ℕ
  pub enable : Bool

unfoldable pub itf_is_bridge : ℕ → Interfaces → Option Bool
itf_is_bridge ifindex t = elim (itf_find ifindex t) [ none ↦ none | some itf ↦ some itf.bridge ]

unfoldable pub itf_is_noarp : ℕ → Interfaces → Option Bool
itf_is_noarp ifindex t = elim (itf_find ifindex t) [
  | none ↦ none
  | some itf ↦ some (itf.noarp || itf.rawip)
]

unfoldable pub itf_get_from_bridge_port : ℕ → ℕ → Interfaces → Option ℕ
itf_get_from_bridge_port ifindex port t = elim (itf_find ifindex t) [
  | none ↦ none
  | some itf ↦
      if itf.bridge
      then if ltb port max_ports then some (word itf.ifindices port) else none
      else none
]

-- The loop over the ports, which are programmed from the start.
unfoldable pub is_port : ℕ → List GemacPort → Bool
is_port ifindex [] = false
is_port ifindex (p ∷ ports) = (p.enable && p.ifindex == ifindex) || is_port ifindex ports

unfoldable pub itf_is_programmed : List GemacPort → ℕ → Interfaces → Option Bool
itf_is_programmed ports ifindex t = elim (itf_find ifindex t) [
  | none ↦ none
  | some itf ↦ some (itf.rawip || itf.programmed || is_port itf.ifindex ports)
]
