-- ===== src/Lfsr/Period.antt =====
-- The steps of the register of lfsr.c.
use Prim.Native.Nat.{bit_xor}
use iondb.Base.{
  ℕ, zero, suc, ◌+◌, ◌*◌, ◌/◌, ◌%◌, ◌<◌, ◌≡◌, ◌≢◌, refl, sym, ◌∙◌, ap, leb, ltb, ◌==◌,
  if◌then◌else◌, Bool, true, false, ◌&&◌, arith, ltb→lt, ==_iff,
}
use iondb.Lfsr.{Lfsr, shift, get_next}

-- The step backwards.
abbrev pub unshift : ℕ → ℕ
unshift w = if leb 0x8000 w then 2 * bit_xor w 0xB400 + 1 else 2 * w

abbrev all_below : ℕ → (ℕ → Bool) → Bool
all_below zero test = true
all_below (suc n) test = if test n then all_below n test else false

steps_back : ℕ → Bool
steps_back v = (unshift (shift v) == v) && ltb (shift v) 0x10000

left_true : (a b : Bool) → (a && b) ≡ true → a ≡ true
left_true true b e = refl
left_true false b e = e

right_true : (a b : Bool) → (a && b) ≡ true → b ≡ true
right_true true b e = e
right_true false b e = ground arith

positive_next : (n : ℕ) → n ≢ 0 → 0 < n
positive_next zero ne = absurd (ne refl)
positive_next (suc n) ne = omega arith

all_below_lem : (n : ℕ) (test : ℕ → Bool) (v : ℕ) → all_below n test ≡ true → v < n → test v ≡ true
all_below_lem zero test v h lt = absurd (omega arith)
all_below_lem (suc n) test v h lt = ground (arith, all_below_lem n test v)

table : all_below 256 (λ high. all_below 256 (λ low. steps_back (256 * high + low))) ≡ true
unfolding steps_back shift
table = refl

-- Every state is led back, and is led to a number of 16 bits.
steps_back_lem : (v : ℕ) → v < 0x10000 → steps_back v ≡ true
steps_back_lem v lt =
    let row =
      all_below_lem 256 (λ high. all_below 256 (λ low. steps_back (256 * high + low))) (v / 256)
        table (omega arith) in
    let cell =
      all_below_lem 256 (λ low. steps_back (256 * (v / 256) + low)) (v % 256) row (omega arith) in
    let e : 256 * (v / 256) + v % 256 ≡ v = omega arith in ap steps_back (sym e) ∙ cell

unshift-shift : (v : ℕ) → v < 0x10000 → unshift (shift v) ≡ v
unfolding steps_back
unshift-shift v lt =
    let b = steps_back_lem v lt in
    (==_iff (unshift (shift v)) v).0 (left_true (unshift (shift v) == v) (ltb (shift v) 0x10000) b)

shift-lt : (v : ℕ) → v < 0x10000 → shift v < 0x10000
unfolding steps_back
shift-lt v lt =
    let b = steps_back_lem v lt in
    ltb→lt (shift v) 0x10000 (right_true (unshift (shift v) == v) (ltb (shift v) 0x10000) b)

-- Two instances that hold numbers of 16 bits give the same next number only if they hold the same.
pub get_next-injective :
    (a b : Lfsr)
    → a.lfsr_value < 0x10000
    → b.lfsr_value < 0x10000
    → (get_next a).0 ≡ (get_next b).0
    → a.lfsr_value ≡ b.lfsr_value
unfolding get_next
get_next-injective a b la lb e =
    sym (unshift-shift a.lfsr_value la) ∙ ap unshift e ∙ unshift-shift b.lfsr_value lb

-- From an instance that holds a number of 16 bits other than 0, `get_next` returns one, and the
-- instance holds it.
pub get_next-positive :
    (a : Lfsr)
    → 0 < a.lfsr_value
    → a.lfsr_value < 0x10000
    → (0 < (get_next a).0)
      × ((get_next a).0 < 0x10000)
      × (((get_next a).1).lfsr_value ≡ (get_next a).0)
unfolding get_next
get_next-positive a positive lt = (
  positive_next (shift a.lfsr_value) (λ z.
      let q : 0 ≡ a.lfsr_value = ap unshift (sym z) ∙ unshift-shift a.lfsr_value lt in omega arith),
  shift-lt a.lfsr_value lt,
  refl,
)
