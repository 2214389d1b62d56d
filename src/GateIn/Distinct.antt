-- ===== src/GateIn/Distinct.antt =====
-- The test for repeated low bytes, said of the bytes of the matrix.
use okto_wsd.Base.{
  ℕ, zero, suc, ◌+◌, ◌*◌, ◌<◌, ◌≡◌, ◌≢◌, refl, sym, ◌∙◌, arith, List, true, false, get_or,
  Bool-cases, inl, inr,
}
use okto_wsd.Nrf24.{Pipes}
use okto_wsd.GateIn.{pipes_of, msb_of, ident_outer}
use okto_wsd.GateIn.Blob.{IsBytes, be_at, reverse_bytes-load, be_at_low}
use okto_wsd.GateIn.Msb.{outer_false, outer_keeps}

-- The addresses of a matrix, as big-endian numbers.
abbrev pub matrix : List ℕ → Pipes
matrix bytes = record {
  p1_targ = be_at bytes 0;
  p1_self = be_at bytes 4;
  p2_targ = be_at bytes 8;
  p2_self = be_at bytes 12;
  p3_targ = be_at bytes 16;
  p3_self = be_at bytes 20;
  p4_targ = be_at bytes 24;
  p4_self = be_at bytes 28;
  p5_targ = be_at bytes 32;
  p5_self = be_at bytes 36;
}

-- the last byte of a target address
abbrev pub target_byte : List ℕ → ℕ → ℕ
target_byte bytes i = get_or bytes (8 * i + 3) 0

abbrev pub IsDistinct : List ℕ → Type 0
IsDistinct bytes = (i j : ℕ) → i < 5 → j < 5 → j ≢ i → target_byte bytes i ≢ target_byte bytes j

module _ (bytes : List ℕ) (h : IsBytes bytes) where
  pub pipes_of_lem : pipes_of bytes ≡ matrix bytes
  unfolding pipes_of
  pipes_of_lem =
      rw
        (
          reverse_bytes-load bytes 0 h,
          reverse_bytes-load bytes 4 h,
          reverse_bytes-load bytes 8 h,
          reverse_bytes-load bytes 12 h,
          reverse_bytes-load bytes 16 h,
          reverse_bytes-load bytes 20 h,
          reverse_bytes-load bytes 24 h,
          reverse_bytes-load bytes 28 h,
          reverse_bytes-load bytes 32 h,
          reverse_bytes-load bytes 36 h,
        )
        refl

  msb_of-matrix : (i : ℕ) → i < 5 → get_or (msb_of (matrix bytes)) i 0 ≡ target_byte bytes i
  msb_of-matrix zero p = be_at_low bytes 0 h
  msb_of-matrix (suc zero) p = be_at_low bytes 8 h
  msb_of-matrix (suc (suc zero)) p = be_at_low bytes 16 h
  msb_of-matrix (suc (suc (suc zero))) p = be_at_low bytes 24 h
  msb_of-matrix (suc (suc (suc (suc zero)))) p = be_at_low bytes 32 h
  msb_of-matrix (suc (suc (suc (suc (suc i))))) p = absurd (omega arith)

  pub ident_outer-distinct :
      IsDistinct bytes → ident_outer (msb_of (pipes_of bytes)) 5 0 false ≡ false
  ident_outer-distinct distinct = rw pipes_of_lem (
      outer_keeps (msb_of (matrix bytes)) 5 0
        (λ k j b p q ne e. distinct k j q b ne (sym (msb_of-matrix k q) ∙ e ∙ msb_of-matrix j b)))

  pub ident_outer-repeated :
      (i j : ℕ)
      → i < 5
      → j < 5
      → j ≢ i
      → target_byte bytes i ≡ target_byte bytes j
      → ident_outer (msb_of (pipes_of bytes)) 5 0 false ≡ true
  ident_outer-repeated i j p q ne e =
      rw pipes_of_lem (elim (Bool-cases (ident_outer (msb_of (matrix bytes)) 5 0 false)) [
        | inl same ↦ same
        | inr diff ↦ absurd (
            outer_false (msb_of (matrix bytes)) 5 0 diff i j (omega arith) p q ne
              (msb_of-matrix i p ∙ e ∙ sym (msb_of-matrix j q)))
      ])
