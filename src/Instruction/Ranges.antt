-- ===== src/Instruction/Ranges.antt =====
-- The arguments that the decoder of src/instruction.rs reads from bytes.
use percolator_vault.Base.{
  ℕ, ◌≡◌, refl, subst, inl, inr, Bool, true, false, not, Bool-cases, List, [], ◌∷◌, All, length,
  get_or, ltb, ◌==◌, if◌then◌else◌, arith,
}
use percolator_vault.Base.Bytes.{from_le_bytes-read_slice}
use percolator_vault.Base.Word.{IsU8, IsU16, IsU64, IsU128}
use percolator_vault.State.{IsKey}
use percolator_vault.Error.{Result, ok, same_ok}
use percolator_vault.Instruction.{StakeInstruction, le_at, needs, optional, unpack_tag, unpack}
use percolator_vault.Instruction.Wire.{ArgumentsFit, OptionFits}

le_at-IsU16 : (i : ℕ) (bs : List ℕ) → All IsU8 bs → IsU16 (le_at i 2 bs)
le_at-IsU16 i bs h = omega (arith, from_le_bytes-read_slice i 2 bs h)

le_at-IsU64 : (i : ℕ) (bs : List ℕ) → All IsU8 bs → IsU64 (le_at i 8 bs)
le_at-IsU64 i bs h = omega (arith, from_le_bytes-read_slice i 8 bs h)

le_at-IsU128 : (i : ℕ) (bs : List ℕ) → All IsU8 bs → IsU128 (le_at i 16 bs)
le_at-IsU128 i bs h = omega (arith, from_le_bytes-read_slice i 16 bs h)

le_at-IsKey : (i : ℕ) (bs : List ℕ) → All IsU8 bs → IsKey (le_at i 32 bs)
le_at-IsKey i bs h = omega (arith, from_le_bytes-read_slice i 32 bs h)

optional_fits : (b : Bool) (v : ℕ) → IsU64 v → OptionFits (optional b v)
optional_fits true v h = omega arith
optional_fits false v h = tt

needs-ArgumentsFit :
    (n : ℕ) (rest : List ℕ) (i j : StakeInstruction)
    → ArgumentsFit i
    → needs n rest i ≡ ok j
    → ArgumentsFit j
needs-ArgumentsFit n rest i j fits h = elim (Bool-cases (ltb (length rest) n)) [
  | inl short ↦ absurd (cc)
  | inr enough ↦ subst ArgumentsFit (same_ok (ok i) refl (rw enough at h)) fits
]

decoded-ArgumentsFit : (i j : StakeInstruction) → ArgumentsFit i → ok i ≡ ok j → ArgumentsFit j
decoded-ArgumentsFit i j fits h = subst ArgumentsFit (same_ok (ok i) refl h) fits

-- An arm of the match, or those that follow it.
arm_or_rest :
    (b : Bool) (x y : Result StakeInstruction) (j : StakeInstruction)
    → (x ≡ ok j → ArgumentsFit j)
    → (y ≡ ok j → ArgumentsFit j)
    → (if b then x else y) ≡ ok j
    → ArgumentsFit j
arm_or_rest true x y j arm rest h = arm h
arm_or_rest false x y j arm rest h = rest h

unpack_tag-ArgumentsFit :
    (tag : ℕ) (bs : List ℕ) (j : StakeInstruction)
    → All IsU8 bs
    → unpack_tag tag bs ≡ ok j
    → ArgumentsFit j
unfolding unpack_tag
unpack_tag-ArgumentsFit tag bs j v =
    arm_or_rest (tag == 0) _ _ j
      (needs-ArgumentsFit 16 bs _ j (le_at-IsU64 0 bs v, le_at-IsU64 8 bs v))
      (arm_or_rest (tag == 1) _ _ j (needs-ArgumentsFit 8 bs _ j (le_at-IsU64 0 bs v)) (
        arm_or_rest (tag == 2) _ _ j (needs-ArgumentsFit 8 bs _ j (le_at-IsU64 0 bs v)) (
          arm_or_rest (tag == 3) _ _ j (needs-ArgumentsFit 8 bs _ j (le_at-IsU64 0 bs v)) (
            arm_or_rest (tag == 4) _ _ j
              (needs-ArgumentsFit 18 bs _ j (
                optional_fits (not (get_or bs 0 0 == 0)) _ (le_at-IsU64 1 bs v),
                optional_fits (not (get_or bs 9 0 == 0)) _ (le_at-IsU64 10 bs v),
              ))
              (arm_or_rest (tag == 5) _ _ j (decoded-ArgumentsFit _ j tt) (
                arm_or_rest (tag == 6) _ _ j (needs-ArgumentsFit 32 bs _ j (le_at-IsKey 0 bs v)) (
                  arm_or_rest (tag == 7) _ _ j (needs-ArgumentsFit 16 bs _ j (le_at-IsU128 0 bs v))
                    (arm_or_rest (tag == 8) _ _ j
                      (needs-ArgumentsFit 16 bs _ j (le_at-IsU128 0 bs v))
                      (arm_or_rest (tag == 9) _ _ j (decoded-ArgumentsFit _ j tt) (
                        arm_or_rest (tag == 10) _ _ j
                          (needs-ArgumentsFit 8 bs _ j (le_at-IsU64 0 bs v))
                          (arm_or_rest (tag == 11) _ _ j
                            (needs-ArgumentsFit 50 bs _ j (
                              le_at-IsKey 0 bs v,
                              le_at-IsU64 32 bs v,
                              le_at-IsU16 40 bs v,
                              le_at-IsU64 42 bs v,
                            ))
                            (arm_or_rest (tag == 12) _ _ j (decoded-ArgumentsFit _ j tt) (
                              arm_or_rest (tag == 13) _ _ j
                                (needs-ArgumentsFit 16 bs _ j
                                  (le_at-IsU64 0 bs v, le_at-IsU64 8 bs v))
                                (arm_or_rest (tag == 14) _ _ j
                                  (needs-ArgumentsFit 3 bs _ j (le_at-IsU16 1 bs v))
                                  (λ h. absurd (cc))))))))))))))))

-- Whatever bytes are decoded, the arguments of the instruction lie in their types.
pub unpack-ArgumentsFit :
    (bs : List ℕ) (j : StakeInstruction) → All IsU8 bs → unpack bs ≡ ok j → ArgumentsFit j
unfolding unpack
unpack-ArgumentsFit [] j v h = absurd (cc)
unpack-ArgumentsFit (tag ∷ rest) j (_, v) h = unpack_tag-ArgumentsFit tag rest j v h
