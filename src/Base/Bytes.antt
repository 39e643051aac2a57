-- ===== src/Base/Bytes.antt =====
-- Little-endian numbers in byte slices: `to_le_bytes` and `from_le_bytes` of every width.
use Prim.Native.Nat.{ℕ, zero, suc, ◌+◌, ◌*◌, ◌/◌, ◌%◌, ◌^◌, ◌<◌}
use mathlib.Core.Path.{◌≡◌, refl}
use mathlib.Core.List.{List, [], ◌∷◌, ◌++◌}
use native.Mathlib.Omega.{arith}
use native.Mathlib.Nat.{pow-suc, one-le-pow}
use percolator_vault.Base.Lists.{length, take, drop, All}
use percolator_vault.Base.Word.{IsU8}

-- The `w` low bytes of `n`, lowest first.
unfoldable pub to_le_bytes : ℕ → ℕ → List ℕ
to_le_bytes zero n = []
to_le_bytes (suc w) n = n % 256 ∷ to_le_bytes w (n / 256)

unfoldable pub from_le_bytes : List ℕ → ℕ
from_le_bytes [] = 0
from_le_bytes (b ∷ bs) = b + 256 * from_le_bytes bs

pub length-to_le_bytes : (w n : ℕ) → length (to_le_bytes w n) ≡ w
unfolding to_le_bytes
length-to_le_bytes zero n = refl
length-to_le_bytes (suc w) n = omega (arith, length-to_le_bytes w (n / 256))

pub to_le_bytes-IsU8 : (w n : ℕ) → All IsU8 (to_le_bytes w n)
unfolding to_le_bytes
to_le_bytes-IsU8 zero n = tt
to_le_bytes-IsU8 (suc w) n = (omega arith, to_le_bytes-IsU8 w (n / 256))

-- Reading back what was written, at a number that fits the width.
pub from_le_bytes-to_le_bytes : (w n : ℕ) → n < 256 ^ w → from_le_bytes (to_le_bytes w n) ≡ n
unfolding from_le_bytes to_le_bytes
from_le_bytes-to_le_bytes zero n h = omega arith
from_le_bytes-to_le_bytes (suc w) n h =
    omega (arith, from_le_bytes-to_le_bytes w (n / 256) (div_fits w n h))
  where
    div_fits : (w n : ℕ) → n < 256 ^ suc w → n / 256 < 256 ^ w
    div_fits w n h = omega (arith, pow-suc 256 w)

pub from_le_bytes-lt : (bs : List ℕ) → All IsU8 bs → from_le_bytes bs < 256 ^ length bs
unfolding from_le_bytes
from_le_bytes-lt [] h = omega arith
from_le_bytes-lt (b ∷ bs) (hb, h) = omega (arith, from_le_bytes-lt bs h, pow-suc 256 (length bs))

-- A slice of `n` bytes is below 256 ^ n, also where the bytes run out.
from_le_bytes-take : (n : ℕ) (xs : List ℕ) → All IsU8 xs → from_le_bytes (take n xs) < 256 ^ n
unfolding from_le_bytes
from_le_bytes-take zero xs h = omega arith
from_le_bytes-take (suc n) [] h = omega (arith, one-le-pow (suc n) 256 (omega arith))
from_le_bytes-take (suc n) (x ∷ xs) (hx, h) =
    omega (arith, from_le_bytes-take n xs h, pow-suc 256 n)

pub from_le_bytes-read_slice :
    (i n : ℕ) (xs : List ℕ) → All IsU8 xs → from_le_bytes (take n (drop i xs)) < 256 ^ n
from_le_bytes-read_slice zero n xs h = from_le_bytes-take n xs h
from_le_bytes-read_slice (suc i) n [] h = from_le_bytes-take n [] tt
from_le_bytes-read_slice (suc i) n (x ∷ xs) (_, h) = from_le_bytes-read_slice i n xs h

-- A prefix of known length is taken and dropped whole.
pub take-append {ℓ} : {A : Type ℓ} (xs ys : List A) → take (length xs) (xs ++ ys) ≡ xs
take-append [] ys = refl
take-append (x ∷ xs) ys = λ i. x ∷ take-append xs ys i

pub drop-append {ℓ} : {A : Type ℓ} (xs ys : List A) → drop (length xs) (xs ++ ys) ≡ ys
drop-append [] ys = refl
drop-append (x ∷ xs) ys = drop-append xs ys
