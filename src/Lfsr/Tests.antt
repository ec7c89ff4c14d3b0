-- ===== src/Lfsr/Tests.antt =====
-- The theorems on lfsr.c at a seed, and the first numbers that it gives.
use iondb.Base.{◌<◌, ◌≡◌, refl, arith}
use iondb.Lfsr.{Lfsr, init_start_state, get_next, reset}
use iondb.Lfsr.Period.{get_next-injective, get_next-positive}

abbrev seeded : Lfsr
seeded = record { start_state = 0xACE1; lfsr_value = 0xACE1 }

get_next-injective_example : seeded.lfsr_value ≡ seeded.lfsr_value
get_next-injective_example = get_next-injective seeded seeded (omega arith) (omega arith) refl

get_next-positive_example :
    (0 < (get_next seeded).0)
    × ((get_next seeded).0 < 0x10000)
    × (((get_next seeded).1).lfsr_value ≡ (get_next seeded).0)
get_next-positive_example = get_next-positive seeded (omega arith) (omega arith)

program :
    ((get_next (init_start_state 0xACE1)).0 ≡ 0xE270)
    × (reset ((get_next (init_start_state 0xACE1)).1) ≡ init_start_state 0xACE1)
unfolding init_start_state get_next reset
program = (refl, refl)
