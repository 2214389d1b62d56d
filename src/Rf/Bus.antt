-- ===== src/Rf/Bus.antt =====
-- A bus that cannot be opened.
use okto_wsd.Base.{ℕ, ◌<◌, ◌≤◌, ◌≡◌, ◌↔◌, ◌⊎◌, ap, arith, true, inl, inr, if◌then◌else◌, Bool-cases}
use okto_wsd.Base.Int.{pos, negative}
use okto_wsd.Nrf24
use okto_wsd.Nrf24.{Device, Pipes}
use okto_wsd.Spi.{SpiDescriptor, Answers, spi_open}
use okto_wsd.Rf.{init}

-- Some call has failed.
abbrev pub Fails : Answers → Type 0
Fails a =
    (negative a.open_result ≡ true)
    ⊎ (negative a.mode_result ≡ true)
    ⊎ (negative a.bits_result ≡ true)
    ⊎ (negative a.speed_result ≡ true)

module _ (dev : SpiDescriptor) (a : Answers) where
  spi_open_error :
      (e : ℕ) × ((spi_open dev a 0 8 500000).error ≡ pos e) × (e ≤ 4) × ((0 < e) ↔ Fails a)
  unfolding spi_open
  spi_open_error = elim (Bool-cases (negative a.open_result)) [
    | inl bad ↦ (1, ground arith, omega arith, (λ p. inl bad, λ f. omega arith))
    | inr good ↦ elim (Bool-cases (negative a.mode_result)) [
      | inl bad ↦ (2, ground arith, omega arith, (λ p. inr (inl bad), λ f. omega arith))
      | inr good2 ↦ elim (Bool-cases (negative a.bits_result)) [
        | inl bad ↦ (4, ground arith, omega arith, (λ p. inr (inr (inl bad)), λ f. omega arith))
        | inr good3 ↦ elim (Bool-cases (negative a.speed_result)) [
          | inl bad ↦ (3, ground arith, omega arith, (λ p. inr (inr (inr bad)), λ f. omega arith))
          | inr good4 ↦
              (0, ground arith, omega arith, (λ p. absurd (omega arith), λ f. ground arith))
        ]
      ]
    ]
  ]

  -- SPI_open gives an error, a number from 1 to 4, exactly when one of its calls has failed. RF_init
  -- takes no notice of it: in every case it sets up the chip over the descriptor and returns 0.
  pub init-unnoticed :
      (d : Device) (p : Pipes) (c : d.Chip)
      → (e : ℕ) × ((spi_open dev a 0 8 500000).error ≡ pos e)
        × (e ≤ 4)
        × ((0 < e) ↔ Fails a)
        × (init d p dev a c ≡ (0, Nrf24.init d p c))
  unfolding init
  init-unnoticed d p c =
      let (e, eq, small, when) = spi_open_error in
      (e, eq, small, when, ap (λ x. if negative x then (1, c) else (0, Nrf24.init d p c)) eq)
