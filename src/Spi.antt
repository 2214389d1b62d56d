-- ===== src/Spi.antt =====
-- spi.c: the bus to the radio chip.
use okto_wsd.Base.{ℕ, List, if◌then◌else◌}
use okto_wsd.Base.Int.{ℤ, pos, negative}

-- include/spi.h
pub record SpiDescriptor : Type 0 where
  pub fd : ℤ
  pub mode : ℕ
  pub bpw : ℕ
  pub speed : ℕ
  pub error : ℤ

-- What `open` and the three calls of `ioctl` return.
pub record Answers : Type 0 where
  pub open_result : ℤ
  pub mode_result : ℤ
  pub bits_result : ℤ
  pub speed_result : ℤ

-- `SPI_open`, in a block that held `dev`.
unfoldable pub spi_open : SpiDescriptor → Answers → (mode bpw speed : ℕ) → SpiDescriptor
spi_open dev a mode bpw speed =
    if negative a.open_result
    then record dev { error = pos 1 }
    else if negative a.mode_result
    then record dev { error = pos 2 }
    else if negative a.bits_result
    then record dev { error = pos 4 }
    else if negative a.speed_result
    then record dev { error = pos 3 }
    else record { fd = a.open_result; mode = mode; bpw = bpw; speed = speed; error = pos 0 }

-- `struct spi_ioc_transfer`, the fields that are not 0; both buffers are the caller's block.
pub record Transfer : Type 0 where
  pub buffer : List ℕ
  pub len : ℕ
  pub delay_usecs : ℕ
  pub speed_hz : ℕ
  pub bits_per_word : ℕ

-- The message that `SPI_transmit` hands to the driver.
unfoldable pub transfer_of : SpiDescriptor → List ℕ → ℕ → Transfer
transfer_of dev bytes len = record {
  buffer = bytes;
  len = len;
  delay_usecs = dev.mode;
  speed_hz = dev.speed;
  bits_per_word = dev.bpw;
}
