-- ===== src/GateIn/Keeping.antt =====
-- A chip that keeps its address registers, and a matrix for it, for the tests.
use okto_wsd.Base.{
  ℕ, ◌+◌, ◌-◌, ◌<◌, ◌≤◌, ◌≡◌, ◌∙◌, ap, refl, arith, List, [], ◌∷◌, Bool, true, ◌&&◌, if◌then◌else◌,
  ◌==◌, ltb, take, suc, zero, replicate,
}
use okto_wsd.Base.Word.{◌|||◌}
use okto_wsd.Base.Bits.{bit_or_disjoint_low}
use okto_wsd.Nrf24.{Device, read_buf, write_buf, w_register}
use okto_wsd.GateIn.Blob.{IsBytes}
use okto_wsd.GateIn.Distinct.{IsDistinct, target_byte}
use okto_wsd.GateIn.Registers.{Registers}

abbrev pub exchange : List ℕ → (ℕ → List ℕ) → List ℕ × (ℕ → List ℕ)
exchange [] c = ([], c)
exchange (cmd ∷ bytes) c =
    if ltb cmd 0x20
    then (0 ∷ c cmd, c)
    else if ltb cmd 0x40
    then (0 ∷ [], λ k. if k == cmd - 0x20 then bytes else c k)
    else (0 ∷ [], c)

-- registers as a function, read below 0x20 and written from there on
abbrev pub keeping : Device
keeping = record {
  Chip = ℕ → List ℕ;
  transfer = exchange;
  set_ce = λ on c. c;
  read_irq_pin = λ c. (0, c);
  junk = λ n. replicate n 0;
}

write_command : (addr : ℕ) → addr ≤ 15 → (addr ||| w_register) ≡ addr + 32
write_command addr h = bit_or_disjoint_low 5 1 addr (omega arith) ∙ omega arith

take-take : (n : ℕ) (bytes : List ℕ) → take n (take n bytes) ≡ take n bytes
take-take zero bytes = refl
take-take (suc n) [] = refl
take-take (suc n) (b ∷ bytes) = ap (λ l. b ∷ l) (take-take n bytes)

-- a write, register by register
keeping_write :
    (addr n k : ℕ) (bytes : List ℕ) (c : ℕ → List ℕ)
    → addr ≤ 15
    → write_buf keeping addr bytes n c k ≡ (if k == addr then take n bytes else c k)
unfolding write_buf
keeping_write addr n k bytes c h =
    ap (λ cmd. (exchange (cmd ∷ take n bytes) c).1 k) (write_command addr h) ∙ ground arith

pub keeping-Registers : Registers keeping
keeping-Registers = record {
  reg = λ k c. c k;
  read_value = λ addr n c low high. unfold read_buf in ground arith;
  read_keeps = λ addr n k c low high. unfold read_buf in ground arith;
  write_value = λ addr n bytes c low high.
      ap (take n) (keeping_write addr n addr bytes c high) ∙ ground (arith, take-take n bytes);
  write_keeps = λ addr n k bytes c low high ne. keeping_write addr n k bytes c high ∙ ground arith;
}

abbrev pub blob : List ℕ
blob =
    0xa0 ∷ 0 ∷ 0 ∷ 1 ∷ 0xb0 ∷ 0 ∷ 0 ∷ 1 ∷ 0xa0 ∷ 0 ∷ 0 ∷ 2 ∷ 0xb0 ∷ 0 ∷ 0 ∷ 2 ∷ 0xa0 ∷ 0 ∷ 0 ∷ 3
    ∷ 0xb0 ∷ 0 ∷ 0 ∷ 3 ∷ 0xa0 ∷ 0 ∷ 0 ∷ 4 ∷ 0xb0 ∷ 0 ∷ 0 ∷ 4 ∷ 0xa0 ∷ 0 ∷ 0 ∷ 5 ∷ 0xb0 ∷ 0 ∷ 0 ∷ 5
    ∷ []

abbrev pub all_small : List ℕ → Bool
all_small [] = true
all_small (b ∷ bytes) = ltb b 256 && all_small bytes

pub all_small-IsBytes : (bytes : List ℕ) → all_small bytes ≡ true → IsBytes bytes
all_small-IsBytes [] h i = omega arith
all_small-IsBytes (b ∷ bytes) h zero = ground arith
all_small-IsBytes (b ∷ bytes) h (suc i) = all_small-IsBytes bytes (ground arith) i

blob_byte : (i : ℕ) → i < 5 → target_byte blob i ≡ i + 1
blob_byte zero p = refl
blob_byte (suc zero) p = refl
blob_byte (suc (suc zero)) p = refl
blob_byte (suc (suc (suc zero))) p = refl
blob_byte (suc (suc (suc (suc zero)))) p = refl
blob_byte (suc (suc (suc (suc (suc i))))) p = absurd (omega arith)

pub blob-IsDistinct : IsDistinct blob
blob-IsDistinct i j p q ne e = ne (omega (arith, blob_byte i p, blob_byte j q))
