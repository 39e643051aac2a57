-- ===== src/Base/Bits.antt =====
-- The bit tests and masks of one flag byte, over its 256 values.
use Prim.Native.Nat.{ℕ, zero, suc, ◌≤◌, bit_and, bit_or}
use mathlib.Core.Path.{◌≡◌, refl}
use mathlib.Core.Bool.{Bool, true, ◌&&◌}
use native.Mathlib.Omega.{arith}
use percolator_vault.Base.Tests.{◌==◌, leb}
use percolator_vault.Base.Word.{IsU8}

-- A test at every number up to a last one.
passes_upto : (ℕ → Bool) → ℕ → Bool
passes_upto test zero = test zero
passes_upto test (suc last) = test (suc last) && passes_upto test last

passes_at : (test : ℕ → Bool) (last b : ℕ) → b ≤ last → passes_upto test last ≡ true → test b ≡ true
unfolding passes_upto
passes_at test zero zero within all = all
passes_at test zero (suc b) within all = absurd (omega arith)
passes_at test (suc last) b within all = ground (arith, passes_at test last b)

-- What setting bit 0, setting bit 1 and clearing bit 1 do to the two bits of a byte.
pub record FlagLaws (b : ℕ) : Type 0 where
  pub or_one : bit_and (bit_or b 1) 1 ≡ 1
  pub or_one_other : bit_and (bit_or b 1) 2 ≡ bit_and b 2
  pub or_two : bit_and (bit_or b 2) 2 ≡ 2
  pub or_two_other : bit_and (bit_or b 2) 1 ≡ bit_and b 1
  pub clear_two : bit_and (bit_and b 0xfd) 2 ≡ 0
  pub clear_two_other : bit_and (bit_and b 0xfd) 1 ≡ bit_and b 1
  pub or_one_fits : IsU8 (bit_or b 1)
  pub or_two_fits : IsU8 (bit_or b 2)
  pub clear_two_fits : IsU8 (bit_and b 0xfd)

flag_test : ℕ → Bool
flag_test b =
    bit_and (bit_or b 1) 1 == 1
    && bit_and (bit_or b 1) 2 == bit_and b 2
    && bit_and (bit_or b 2) 2 == 2
    && bit_and (bit_or b 2) 1 == bit_and b 1
    && bit_and (bit_and b 0xfd) 2 == 0
    && bit_and (bit_and b 0xfd) 1 == bit_and b 1
    && leb (bit_or b 1) 255
    && leb (bit_or b 2) 255
    && leb (bit_and b 0xfd) 255

flag_table : passes_upto flag_test 255 ≡ true
unfolding passes_upto flag_test
flag_table = refl

flag_test-FlagLaws : (b : ℕ) → flag_test b ≡ true → FlagLaws b
unfolding flag_test
flag_test-FlagLaws b h = ground arith

pub byte-FlagLaws : (b : ℕ) → IsU8 b → FlagLaws b
byte-FlagLaws b h = flag_test-FlagLaws b (passes_at flag_test 255 b h flag_table)
