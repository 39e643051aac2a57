-- ===== src/State/Packed.antt =====
-- The reserved bytes of a pool (src/state.rs) as a record of the fields packed into them, and that
-- record under each kind of write to the bytes.
use Prim.Native.Nat.{bit_and}
use percolator_vault.Base.{
  not, ◌==◌, ℕ, ◌+◌, ◌<◌, ◌≤◌, ◌≡◌, ap, ◌∙◌, ◌⊎◌, inl, inr, Bool, List, [], ◌∷◌, length, arith,
  get_or, set,
}
use percolator_vault.Base.Word.{IsU64}
use percolator_vault.Base.Bytes.{
  to_le_bytes, from_le_bytes, length-to_le_bytes, from_le_bytes-to_le_bytes,
}
use percolator_vault.Base.Slices.{
  read_slice, write_slice, length-set, length-write_slice, get_or-set_self, get_or-set_ne,
  read_slice-set_ne, get_or-write_slice_ne, read_slice-write_slice_self, read_slice-write_slice_ne,
}
use percolator_vault.State.{StakePool}

-- What the reserved bytes hold.
pub record Packed : Type 0 where
  pub discriminator : List ℕ
  pub struct_version : ℕ
  pub resolved : Bool
  pub enabled : Bool
  pub floor_bps : ℕ
  pub high_water : ℕ
  pub last_epoch : ℕ
  pub vault_offset : ℕ

abbrev pub flag_of : ℕ → ℕ → Bool
flag_of v mask = not (bit_and v mask == 0)

abbrev pub packed_bytes : List ℕ → Packed
packed_bytes r = record {
  discriminator = read_slice 0 8 r;
  struct_version = get_or r 8 0;
  resolved = flag_of (get_or r 9 0) 0x01;
  enabled = flag_of (get_or r 9 0) 0x02;
  floor_bps = from_le_bytes (get_or r 10 0 ∷ get_or r 11 0 ∷ []);
  high_water = from_le_bytes (read_slice 16 8 r);
  last_epoch = from_le_bytes (read_slice 24 8 r);
  vault_offset = from_le_bytes (read_slice 32 8 r);
}

unfoldable pub packed : StakePool → Packed
packed p = packed_bytes p.reserved

module _ (r : List ℕ) (size : length r ≡ 64) where
  pub set_flags-packed :
      (v : ℕ)
      → packed_bytes (set r 9 v)
        ≡ record (packed_bytes r) { resolved = flag_of v 0x01; enabled = flag_of v 0x02 }
  set_flags-packed v = rw (
    read_slice-set_ne r 0 8 9 v (inr (omega arith)),
    get_or-set_ne r 9 8 v (omega arith),
    get_or-set_self r 9 v (omega arith),
    get_or-set_ne r 9 10 v (omega arith),
    get_or-set_ne r 9 11 v (omega arith),
    read_slice-set_ne r 16 8 9 v (inl (omega arith)),
    read_slice-set_ne r 24 8 9 v (inl (omega arith)),
    read_slice-set_ne r 32 8 9 v (inl (omega arith)),
  )

  pub set_floor-packed :
      (lo hi : ℕ)
      → packed_bytes (set (set r 10 lo) 11 hi)
        ≡ record (packed_bytes r) { floor_bps = from_le_bytes (lo ∷ hi ∷ []) }
  set_floor-packed lo hi = rw (
    read_slice-set_ne (set r 10 lo) 0 8 11 hi (inr (omega arith)),
    read_slice-set_ne r 0 8 10 lo (inr (omega arith)),
    get_or-set_ne (set r 10 lo) 11 8 hi (omega arith),
    get_or-set_ne r 10 8 lo (omega arith),
    get_or-set_ne (set r 10 lo) 11 9 hi (omega arith),
    get_or-set_ne r 10 9 lo (omega arith),
    get_or-set_ne (set r 10 lo) 11 10 hi (omega arith),
    get_or-set_self r 10 lo (omega arith),
    get_or-set_self (set r 10 lo) 11 hi (omega (arith, length-set r 10 lo)),
    read_slice-set_ne (set r 10 lo) 16 8 11 hi (inl (omega arith)),
    read_slice-set_ne r 16 8 10 lo (inl (omega arith)),
    read_slice-set_ne (set r 10 lo) 24 8 11 hi (inl (omega arith)),
    read_slice-set_ne r 24 8 10 lo (inl (omega arith)),
    read_slice-set_ne (set r 10 lo) 32 8 11 hi (inl (omega arith)),
    read_slice-set_ne r 32 8 10 lo (inl (omega arith)),
  )

  pub set_disc-packed :
      (disc : List ℕ) (eight : length disc ≡ 8) (ver : ℕ)
      → packed_bytes (set (write_slice 0 disc r) 8 ver)
        ≡ record (packed_bytes r) { discriminator = disc; struct_version = ver }
  set_disc-packed disc eight ver = rw (
    read_slice-set_ne (write_slice 0 disc r) 0 8 8 ver (inr (omega arith)),
    first_eight,
    get_or-set_self (write_slice 0 disc r) 8 ver (omega (arith, length-write_slice 0 disc r)),
    beyond 9 (omega arith),
    beyond 10 (omega arith),
    beyond 11 (omega arith),
    slice_beyond 16 (omega arith),
    slice_beyond 24 (omega arith),
    slice_beyond 32 (omega arith),
  )
    where
      first_eight : read_slice 0 8 (write_slice 0 disc r) ≡ disc
      first_eight = rw eight at (read_slice-write_slice_self 0 disc r (omega arith))

      beyond : (j : ℕ) → 9 ≤ j → get_or (set (write_slice 0 disc r) 8 ver) j 0 ≡ get_or r j 0
      beyond j h =
          get_or-set_ne (write_slice 0 disc r) 8 j ver (omega arith)
          ∙ get_or-write_slice_ne 0 disc r j (inr (omega arith))

      slice_beyond :
          (j : ℕ) → 9 ≤ j → read_slice j 8 (set (write_slice 0 disc r) 8 ver) ≡ read_slice j 8 r
      slice_beyond j h =
          read_slice-set_ne (write_slice 0 disc r) j 8 8 ver (inl (omega arith))
          ∙ read_slice-write_slice_ne 0 disc r j 8 (inr (omega arith))

  word_self :
      (i v : ℕ)
      → i + 8 ≤ 64
      → IsU64 v
      → from_le_bytes (read_slice i 8 (write_slice i (to_le_bytes 8 v) r)) ≡ v
  word_self i v within fits =
      ap from_le_bytes (
        rw (length-to_le_bytes 8 v) at (
          read_slice-write_slice_self i (to_le_bytes 8 v) r
            (omega (arith, length-to_le_bytes 8 v))))
      ∙ from_le_bytes-to_le_bytes 8 v (omega arith)

  -- A word at an offset from 16 on leaves the bytes below 16, and every word that it does not meet.
  module _ (i v : ℕ) (high : 16 ≤ i) where
    word_low : (j : ℕ) → j < 16 → get_or (write_slice i (to_le_bytes 8 v) r) j 0 ≡ get_or r j 0
    word_low j h = get_or-write_slice_ne i (to_le_bytes 8 v) r j (inl (omega arith))

    word_disc : read_slice 0 8 (write_slice i (to_le_bytes 8 v) r) ≡ read_slice 0 8 r
    word_disc = read_slice-write_slice_ne i (to_le_bytes 8 v) r 0 8 (inl (omega arith))

    word_other :
        (j : ℕ)
        → (j + 8 ≤ i) ⊎ (i + 8 ≤ j)
        → read_slice j 8 (write_slice i (to_le_bytes 8 v) r) ≡ read_slice j 8 r
    word_other j apart =
        read_slice-write_slice_ne i (to_le_bytes 8 v) r j 8 (ground (arith, length-to_le_bytes 8 v))

  pub write_high_water-packed :
      (v : ℕ)
      → IsU64 v
      → packed_bytes (write_slice 16 (to_le_bytes 8 v) r)
        ≡ record (packed_bytes r) { high_water = v }
  write_high_water-packed v fits = rw (
    word_disc 16 v (omega arith),
    word_low 16 v (omega arith) 8 (omega arith),
    word_low 16 v (omega arith) 9 (omega arith),
    word_low 16 v (omega arith) 10 (omega arith),
    word_low 16 v (omega arith) 11 (omega arith),
    word_self 16 v (omega arith) fits,
    word_other 16 v (omega arith) 24 (inr (omega arith)),
    word_other 16 v (omega arith) 32 (inr (omega arith)),
  )

  pub write_last_epoch-packed :
      (v : ℕ)
      → IsU64 v
      → packed_bytes (write_slice 24 (to_le_bytes 8 v) r)
        ≡ record (packed_bytes r) { last_epoch = v }
  write_last_epoch-packed v fits = rw (
    word_disc 24 v (omega arith),
    word_low 24 v (omega arith) 8 (omega arith),
    word_low 24 v (omega arith) 9 (omega arith),
    word_low 24 v (omega arith) 10 (omega arith),
    word_low 24 v (omega arith) 11 (omega arith),
    word_self 24 v (omega arith) fits,
    word_other 24 v (omega arith) 16 (inl (omega arith)),
    word_other 24 v (omega arith) 32 (inr (omega arith)),
  )

  pub write_vault_offset-packed :
      (v : ℕ)
      → IsU64 v
      → packed_bytes (write_slice 32 (to_le_bytes 8 v) r)
        ≡ record (packed_bytes r) { vault_offset = v }
  write_vault_offset-packed v fits = rw (
    word_disc 32 v (omega arith),
    word_low 32 v (omega arith) 8 (omega arith),
    word_low 32 v (omega arith) 9 (omega arith),
    word_low 32 v (omega arith) 10 (omega arith),
    word_low 32 v (omega arith) 11 (omega arith),
    word_self 32 v (omega arith) fits,
    word_other 32 v (omega arith) 16 (inl (omega arith)),
    word_other 32 v (omega arith) 24 (inl (omega arith)),
  )
