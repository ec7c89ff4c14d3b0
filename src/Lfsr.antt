-- ===== src/Lfsr.antt =====
-- src/util/lfsr/lfsr.c: pseudo-random numbers of 16 bits. A number is below 2 ^ 16.
pub mod Period
pub mod Tests
use Prim.Native.Nat.{bit_xor}
use iondb.Base.{ℕ, ◌/◌, ◌%◌, ◌==◌, if◌then◌else◌}

-- `lfsr_t`
pub record Lfsr : Type 0 where
  pub start_state : ℕ
  pub lfsr_value : ℕ

-- `lfsr_init_start_state`
unfoldable pub init_start_state : ℕ → Lfsr
init_start_state seed = record { start_state = seed; lfsr_value = seed }

-- The register after a step.
unfoldable pub shift : ℕ → ℕ
shift v = if v % 2 == 1 then bit_xor (v / 2) 0xB400 else v / 2

-- `lfsr_get_next`: the number that is returned, and the instance.
unfoldable pub get_next : Lfsr → ℕ × Lfsr
unfolding shift
get_next instance = let v = shift instance.lfsr_value in (v, record instance { lfsr_value = v })

-- `lfsr_reset`
unfoldable pub reset : Lfsr → Lfsr
reset instance = record instance { lfsr_value = instance.start_state }
