-- ===== src/RouteIds.antt =====
-- src/route_cache.c, lines 22-23 and 229-255: the identifiers of fast-path routes, kept in a bitmap.
pub mod Alloc
use cmm.Prelude.{
  ℕ, zero, suc, ◌+◌, ◌/◌, ◌%◌, ◌≤◌, ◌<◌, ◌≡◌, Bool, true, false, ◌&&◌, arith, ltb, leb, ◌==◌,
  if◌then◌else◌, Option, none, some,
}

abbrev pub route_max_id : ℕ
route_max_id = 0x10000

-- A 32-bit word of the bitmap is the function from a bit's position to the bit.
pub record RouteIds : Type 0 where
  pub route_id : ℕ
  pub route_ids : ℕ → ℕ → Bool

abbrev pub no_ids : RouteIds
no_ids = record { route_id = 0; route_ids = λ offset bit. false }

-- `route_ids[offset] & mask`, with the offset and the mask of an identifier.
unfoldable pub test_id : RouteIds → ℕ → Bool
test_id t id = t.route_ids (id / 32) (id % 32)

write_bit : (ℕ → ℕ → Bool) → ℕ → ℕ → Bool → ℕ → ℕ → Bool
write_bit w offset bit v o b = if o == offset && b == bit then v else w o b

unfoldable pub set_id : RouteIds → ℕ → RouteIds
unfolding write_bit
set_id t id = record t { route_ids = write_bit t.route_ids (id / 32) (id % 32) true }

next_id : ℕ → ℕ
next_id id = if leb route_max_id (id + 1) then 1 else id + 1

-- The loop on fuel, a round for each identifier that is tried; `none` means that it ran out.
unfoldable pub new_route_id : ℕ → RouteIds → Option (ℕ × RouteIds)
unfolding next_id set_id test_id
new_route_id zero t = none
new_route_id (suc fuel) t =
    let id = next_id t.route_id in
    let t' = record t { route_id = id } in
    let rest = new_route_id fuel t' in if test_id t id then rest else some (id, set_id t' id)

unfoldable pub del_route_id : RouteIds → ℕ → RouteIds
unfolding write_bit
del_route_id t id = record t { route_ids = write_bit t.route_ids (id / 32) (id % 32) false }
