-- ===== src/Mirror/Harness.antt =====
-- The proof harnesses of kani-proofs/src/lib.rs, as tests of their symbolic inputs. A harness holds
-- when an assumption fails or it returns; it fails on a false assertion, an `unwrap` of nothing or an
-- overflow.
pub mod Conservation
pub mod Safety
pub mod Fairness
pub mod Flows
pub mod Limits
pub mod Depth
pub mod Holds
use percolator_vault.Base.{
  ℕ, ◌+◌, ◌-◌, ◌*◌, ◌≤◌, ◌<◌, ◌≡◌, refl, Bool, true, false, Option, none, some, ltb, leb, ◌==◌,
  if◌then◌else◌, arith,
}
use percolator_vault.Base.Word.{u64_max}
use percolator_vault.Mirror.{u32_max}

-- `kani::assume(c)`, `assert!(c)`, and `if c { .. }` before the rest
abbrev pub assume : Bool → Bool → Bool
assume c rest = if c then rest else true

abbrev pub assert : Bool → Bool → Bool
assert c rest = if c then rest else false

-- `.unwrap()`
abbrev pub unwrap : Option ℕ → (ℕ → Bool) → Bool
unwrap none k = false
unwrap (some a) k = k a

-- `match o { Some(a) => a, None => return }`
abbrev pub some_or_return : Option ℕ → (ℕ → Bool) → Bool
some_or_return none k = true
some_or_return (some a) k = k a

-- `match o { Some(a) if a > 0 => a, _ => return }`
abbrev pub positive_or_return : Option ℕ → (ℕ → Bool) → Bool
positive_or_return none k = true
positive_or_return (some a) k = if ltb 0 a then k a else true

-- `a + b` and `a - b` on u32, and `a * b` on u64, checked for overflow
abbrev pub plus : ℕ → ℕ → (ℕ → Bool) → Bool
plus a b k = assert (leb (a + b) u32_max) (k (a + b))

abbrev pub minus : ℕ → ℕ → (ℕ → Bool) → Bool
minus a b k = assert (leb b a) (k (a - b))

abbrev pub times : ℕ → ℕ → (ℕ → Bool) → Bool
times a b k = assert (leb (a * b) u64_max) (k (a * b))

-- `assert_eq!` on options
abbrev pub is_some_of : Option ℕ → ℕ → Bool
is_some_of none n = false
is_some_of (some a) n = a == n

abbrev pub is_none : Option ℕ → Bool
is_none none = true
is_none (some a) = false

pub assume_lem : (c : Bool) {rest : Bool} → (c ≡ true → rest ≡ true) → assume c rest ≡ true
assume_lem true next = next refl
assume_lem false next = refl

pub assert_lem : (c : Bool) {rest : Bool} → c ≡ true → rest ≡ true → assert c rest ≡ true
assert_lem c h g = ground arith

pub some_or_return_lem :
    (o : Option ℕ) {k : ℕ → Bool} → ((a : ℕ) → o ≡ some a → k a ≡ true) → some_or_return o k ≡ true
some_or_return_lem none next = refl
some_or_return_lem (some a) next = next a refl

pub positive_or_return_lem :
    (o : Option ℕ) {k : ℕ → Bool}
    → ((a : ℕ) → o ≡ some a → 0 < a → k a ≡ true)
    → positive_or_return o k ≡ true
positive_or_return_lem none next = refl
positive_or_return_lem (some a) next = assume_lem (ltb 0 a) λ h. next a refl (ground arith)

pub plus_lem :
    (a b : ℕ) {rest : Bool}
    → a + b ≤ u32_max
    → rest ≡ true
    → assert (leb (a + b) u32_max) rest ≡ true
plus_lem a b h g = ground arith

pub minus_lem : (a b : ℕ) {rest : Bool} → b ≤ a → rest ≡ true → assert (leb b a) rest ≡ true
minus_lem a b h g = ground arith

pub times_lem :
    (a b : ℕ) {rest : Bool}
    → a * b ≤ u64_max
    → rest ≡ true
    → assert (leb (a * b) u64_max) rest ≡ true
times_lem a b h g = ground arith
