-- ===== src/Base/Slices.antt =====
-- Byte slices: a read of `n` bytes from an offset, a write over the bytes from an offset.
use Prim.Native.Nat.{ℕ, zero, suc, ◌+◌, ◌≤◌, ◌<◌}
use mathlib.Core.Path.{◌≡◌, refl, ap}
use mathlib.Core.Logic.{◌⊎◌, inr, ◌≢◌}
use mathlib.Core.Bool.{Bool, true, false, ◌&&◌}
use mathlib.Core.List.{List, [], ◌∷◌}
use native.Mathlib.Omega.{arith}
use percolator_vault.Base.Tests.{◌==◌}
use percolator_vault.Base.Lists.{length, get_or, set, take, drop, All}
use percolator_vault.Base.Word.{IsU8}

-- `&bytes[i..i + n]`, in range
abbrev pub read_slice : ℕ → ℕ → List ℕ → List ℕ
read_slice i n xs = take n (drop i xs)

unfoldable pub overwrite : List ℕ → List ℕ → List ℕ
overwrite [] xs = xs
overwrite (b ∷ bs) [] = []
overwrite (b ∷ bs) (x ∷ xs) = b ∷ overwrite bs xs

-- `bytes[i..i + bs.len()].copy_from_slice(bs)`, in range
unfoldable pub write_slice : ℕ → List ℕ → List ℕ → List ℕ
unfolding overwrite
write_slice zero bs xs = overwrite bs xs
write_slice (suc i) bs [] = []
write_slice (suc i) bs (x ∷ xs) = x ∷ write_slice i bs xs

-- `==` on byte slices
unfoldable pub bytes_eq : List ℕ → List ℕ → Bool
bytes_eq [] [] = true
bytes_eq (x ∷ xs) (y ∷ ys) = x == y && bytes_eq xs ys
bytes_eq _ _ = false

pub bytes_eq_refl : (xs : List ℕ) → bytes_eq xs xs ≡ true
unfolding bytes_eq
bytes_eq_refl [] = refl
bytes_eq_refl (x ∷ xs) = ground (arith, bytes_eq_refl xs)

-- Lengths and the range of the bytes.
pub length-set : (xs : List ℕ) (i v : ℕ) → length (set xs i v) ≡ length xs
length-set [] i v = refl
length-set (x ∷ xs) zero v = refl
length-set (x ∷ xs) (suc i) v = ap suc (length-set xs i v)

length-overwrite : (bs xs : List ℕ) → length (overwrite bs xs) ≡ length xs
unfolding overwrite
length-overwrite [] xs = refl
length-overwrite (b ∷ bs) [] = refl
length-overwrite (b ∷ bs) (x ∷ xs) = ap suc (length-overwrite bs xs)

pub length-write_slice : (i : ℕ) (bs xs : List ℕ) → length (write_slice i bs xs) ≡ length xs
unfolding write_slice
length-write_slice zero bs xs = length-overwrite bs xs
length-write_slice (suc i) bs [] = refl
length-write_slice (suc i) bs (x ∷ xs) = ap suc (length-write_slice i bs xs)

pub set-IsU8 : (xs : List ℕ) (i v : ℕ) → IsU8 v → All IsU8 xs → All IsU8 (set xs i v)
set-IsU8 [] i v hv h = tt
set-IsU8 (x ∷ xs) zero v hv (_, h) = (hv, h)
set-IsU8 (x ∷ xs) (suc i) v hv (hx, h) = (hx, set-IsU8 xs i v hv h)

overwrite-IsU8 : (bs xs : List ℕ) → All IsU8 bs → All IsU8 xs → All IsU8 (overwrite bs xs)
unfolding overwrite
overwrite-IsU8 [] xs hb h = h
overwrite-IsU8 (b ∷ bs) [] hb h = tt
overwrite-IsU8 (b ∷ bs) (x ∷ xs) hb h = (hb.0, overwrite-IsU8 bs xs hb.1 h.1)

pub write_slice-IsU8 :
    (i : ℕ) (bs xs : List ℕ) → All IsU8 bs → All IsU8 xs → All IsU8 (write_slice i bs xs)
unfolding write_slice
write_slice-IsU8 zero bs xs hb h = overwrite-IsU8 bs xs hb h
write_slice-IsU8 (suc i) bs [] hb h = tt
write_slice-IsU8 (suc i) bs (x ∷ xs) hb h = (h.0, write_slice-IsU8 i bs xs hb h.1)

pub get_or-IsU8 : (xs : List ℕ) (i : ℕ) → All IsU8 xs → IsU8 (get_or xs i 0)
get_or-IsU8 [] i h = omega arith
get_or-IsU8 (x ∷ xs) zero h = h.0
get_or-IsU8 (x ∷ xs) (suc i) h = get_or-IsU8 xs i h.1

pub read_slice-IsU8 : (i n : ℕ) (xs : List ℕ) → All IsU8 xs → All IsU8 (read_slice i n xs)
read_slice-IsU8 zero zero xs h = tt
read_slice-IsU8 zero (suc n) [] h = tt
read_slice-IsU8 zero (suc n) (x ∷ xs) h = (h.0, read_slice-IsU8 zero n xs h.1)
read_slice-IsU8 (suc i) zero [] h = tt
read_slice-IsU8 (suc i) (suc n) [] h = tt
read_slice-IsU8 (suc i) zero (x ∷ xs) h = tt
read_slice-IsU8 (suc i) (suc n) (x ∷ xs) h = read_slice-IsU8 i (suc n) xs h.1

-- A byte after a write of that byte, and of another.
pub get_or-set_self : (xs : List ℕ) (i v : ℕ) → i < length xs → get_or (set xs i v) i 0 ≡ v
get_or-set_self [] i v h = absurd (omega arith)
get_or-set_self (x ∷ xs) zero v h = refl
get_or-set_self (x ∷ xs) (suc i) v h = get_or-set_self xs i v (omega arith)

pub get_or-set_ne : (xs : List ℕ) (i j v : ℕ) → i ≢ j → get_or (set xs i v) j 0 ≡ get_or xs j 0
get_or-set_ne [] i j v h = refl
get_or-set_ne (x ∷ xs) zero zero v h = absurd (h refl)
get_or-set_ne (x ∷ xs) zero (suc j) v h = refl
get_or-set_ne (x ∷ xs) (suc i) zero v h = refl
get_or-set_ne (x ∷ xs) (suc i) (suc j) v h = get_or-set_ne xs i j v (λ e. h (ap suc e))

-- A slice after a write of a byte outside it.
pub read_slice-set_ne :
    (xs : List ℕ) (i n k v : ℕ)
    → (k < i) ⊎ (i + n ≤ k)
    → read_slice i n (set xs k v) ≡ read_slice i n xs
read_slice-set_ne [] i n k v h = refl
read_slice-set_ne (x ∷ xs) zero zero k v h = refl
read_slice-set_ne (x ∷ xs) zero (suc n) zero v h = absurd (ground arith)
read_slice-set_ne (x ∷ xs) zero (suc n) (suc k) v h =
    ap (λ (t : List ℕ). x ∷ t) (read_slice-set_ne xs zero n k v (inr (ground arith)))
read_slice-set_ne (x ∷ xs) (suc i) n zero v h = refl
read_slice-set_ne (x ∷ xs) (suc i) n (suc k) v h = read_slice-set_ne xs i n k v (ground arith)

-- A byte after a write of a slice that does not hold it.
get_or-overwrite_above :
    (bs xs : List ℕ) (j : ℕ) → length bs ≤ j → get_or (overwrite bs xs) j 0 ≡ get_or xs j 0
unfolding overwrite
get_or-overwrite_above [] xs j h = refl
get_or-overwrite_above (b ∷ bs) [] j h = refl
get_or-overwrite_above (b ∷ bs) (x ∷ xs) zero h = absurd (omega arith)
get_or-overwrite_above (b ∷ bs) (x ∷ xs) (suc j) h = get_or-overwrite_above bs xs j (omega arith)

pub get_or-write_slice_ne :
    (i : ℕ) (bs xs : List ℕ) (j : ℕ)
    → (j < i) ⊎ (i + length bs ≤ j)
    → get_or (write_slice i bs xs) j 0 ≡ get_or xs j 0
unfolding write_slice
get_or-write_slice_ne zero bs xs j h = get_or-overwrite_above bs xs j (ground arith)
get_or-write_slice_ne (suc i) bs [] j h = refl
get_or-write_slice_ne (suc i) bs (x ∷ xs) zero h = refl
get_or-write_slice_ne (suc i) bs (x ∷ xs) (suc j) h = get_or-write_slice_ne i bs xs j (ground arith)

-- A slice after a write of itself, and of one that does not meet it.
take-overwrite_self :
    (bs xs : List ℕ) → length bs ≤ length xs → take (length bs) (overwrite bs xs) ≡ bs
unfolding overwrite
take-overwrite_self [] xs h = refl
take-overwrite_self (b ∷ bs) [] h = absurd (omega arith)
take-overwrite_self (b ∷ bs) (x ∷ xs) h =
    ap (λ (t : List ℕ). b ∷ t) (take-overwrite_self bs xs (omega arith))

pub read_slice-write_slice_self :
    (i : ℕ) (bs xs : List ℕ)
    → i + length bs ≤ length xs
    → read_slice i (length bs) (write_slice i bs xs) ≡ bs
unfolding write_slice
read_slice-write_slice_self zero bs xs h = take-overwrite_self bs xs (omega arith)
read_slice-write_slice_self (suc i) bs [] h = absurd (omega arith)
read_slice-write_slice_self (suc i) bs (x ∷ xs) h =
    read_slice-write_slice_self i bs xs (omega arith)

drop-overwrite_above :
    (bs xs : List ℕ) (i : ℕ) → length bs ≤ i → drop i (overwrite bs xs) ≡ drop i xs
unfolding overwrite
drop-overwrite_above [] xs i h = refl
drop-overwrite_above (b ∷ bs) [] i h = refl
drop-overwrite_above (b ∷ bs) (x ∷ xs) zero h = absurd (omega arith)
drop-overwrite_above (b ∷ bs) (x ∷ xs) (suc i) h = drop-overwrite_above bs xs i (omega arith)

pub read_slice-write_slice_ne :
    (j : ℕ) (bs xs : List ℕ) (i n : ℕ)
    → (i + n ≤ j) ⊎ (j + length bs ≤ i)
    → read_slice i n (write_slice j bs xs) ≡ read_slice i n xs
unfolding write_slice
read_slice-write_slice_ne zero bs xs zero zero h = refl
read_slice-write_slice_ne zero [] xs zero (suc n) h = unfold overwrite in refl
read_slice-write_slice_ne zero (b ∷ bs) xs zero (suc n) h = absurd (ground arith)
read_slice-write_slice_ne zero bs xs (suc i) n h =
    ap (take n) (drop-overwrite_above bs xs (suc i) (ground arith))
read_slice-write_slice_ne (suc j) bs [] i n h = refl
read_slice-write_slice_ne (suc j) bs (x ∷ xs) zero zero h = refl
read_slice-write_slice_ne (suc j) bs (x ∷ xs) zero (suc n) h =
    ap (λ (t : List ℕ). x ∷ t) (read_slice-write_slice_ne j bs xs zero n (ground arith))
read_slice-write_slice_ne (suc j) bs (x ∷ xs) (suc i) n h =
    read_slice-write_slice_ne j bs xs i n (ground arith)
