-- ===== src/Eevdf/Entities.antt =====
-- kernel/include/sched/eevdf.hpp: `Entity`, what the scheduler knows about something that
-- competes for a CPU, with its conversions between real and virtual time.
use erebus.Base.{ℕ, ◌*◌, ◌/◌, ◌%◌, ◌^◌, leb, ◌==◌, if◌then◌else◌, ℤ, pos}

abbrev pub nice_0_weight : ℕ
nice_0_weight = 1024

abbrev pub min_slice_ns : ℕ
min_slice_ns = 250_000

abbrev pub default_slice_ns : ℕ
default_slice_ns = 2_000_000

abbrev pub rate_shift : ℕ
rate_shift = 32

-- The lowest virtual runtime below an entity is what the tree keeps beside it.
pub record Entity : Type 0 where
  pub id : ℕ
  pub weight : ℕ
  pub rate : ℕ
  pub slice_ns : ℕ
  pub vruntime : ℕ
  pub vdeadline : ℕ
  pub vlag : ℤ

-- A multiplication by the rate, a 32.32 fixed point number, in 128 bits.
unfoldable pub to_virtual : Entity → ℕ → ℕ
to_virtual e ns = ns * e.rate % 2 ^ 128 / 2 ^ rate_shift % 2 ^ 64

unfoldable pub to_real : Entity → ℕ → ℕ
to_real e virtual_ns = virtual_ns * e.weight % 2 ^ 128 / nice_0_weight % 2 ^ 64

unfoldable pub set_weight : Entity → ℕ → Entity
set_weight e weight =
    let w = if weight == 0 then 1 else weight in
    record e { weight = w; rate = nice_0_weight * 2 ^ rate_shift % 2 ^ 64 / w }

unfoldable pub set_slice_ns : Entity → ℕ → Entity
set_slice_ns e slice_ns = record e {
  slice_ns = if leb min_slice_ns slice_ns then slice_ns else min_slice_ns;
}

unfoldable pub new_entity : ℕ → Entity
new_entity id = record {
  id = id;
  weight = nice_0_weight;
  rate = 2 ^ rate_shift;
  slice_ns = default_slice_ns;
  vruntime = 0;
  vdeadline = 0;
  vlag = pos 0;
}
