-- ===== src/Nrf24/Lookup.antt =====
-- The table of the five pipes: which pipe an address means, and which address a pipe has.
use okto_wsd.Base.{
  ℕ, ◌/◌, ◌%◌, ◌<◌, ◌≤◌, ◌≡◌, ◌≢◌, inl, inr, Option-cases, arith, sym, ap, Option, none, some,
}
use mathlib.Core.Path.{subst}
use okto_wsd.Nrf24.Reg
use okto_wsd.Nrf24.{Pipes, get_pipe_by_address, get_addr_by_pipe, Device, receive, read_reg}

-- The pipe found for an address is the first of the five that has it.
pub get_pipe_by_address-first :
    (a : Pipes) (addr pipe : ℕ)
    → get_pipe_by_address a addr ≡ some pipe
    → (1 ≤ pipe)
      × (pipe ≤ 5)
      × (get_addr_by_pipe a pipe ≡ addr)
      × ((k : ℕ) → 1 ≤ k → k < pipe → get_addr_by_pipe a k ≢ addr)
unfolding get_pipe_by_address get_addr_by_pipe
get_pipe_by_address-first a addr pipe h =
    (ground arith, ground arith, ground arith, λ k p q e. ground arith)

-- An address that one of the five pipes has is found.
pub get_pipe_by_address-found :
    (a : Pipes) (addr k : ℕ)
    → 1 ≤ k
    → k ≤ 5
    → get_addr_by_pipe a k ≡ addr
    → get_pipe_by_address a addr ≢ none
unfolding get_pipe_by_address get_addr_by_pipe
get_pipe_by_address-found a addr k p q e h = ground arith

-- What a lookup is to give: the first of the five pipes with the address, or nothing if none has it.
abbrev pub IsLookup : Pipes → ℕ → Option ℕ → Type 0
IsLookup a addr none = (k : ℕ) → 1 ≤ k → k ≤ 5 → get_addr_by_pipe a k ≢ addr
IsLookup a addr (some pipe) =
    (1 ≤ pipe)
    × (pipe ≤ 5)
    × (get_addr_by_pipe a pipe ≡ addr)
    × ((k : ℕ) → 1 ≤ k → k < pipe → get_addr_by_pipe a k ≢ addr)

-- `NRF24_GetPipeByAddress` gives the first of the five pipes that has the address, and nothing
-- exactly when none of the five has it.
get_pipe_by_address_lem : (a : Pipes) (addr : ℕ) → IsLookup a addr (get_pipe_by_address a addr)
get_pipe_by_address_lem a addr = elim (Option-cases (get_pipe_by_address a addr)) [
  | inl e ↦
      subst (IsLookup a addr) (sym e)
        (λ k low high at. get_pipe_by_address-found a addr k low high at e)
  | inr (pipe, e) ↦ subst (IsLookup a addr) (sym e) (get_pipe_by_address-first a addr pipe e)
]

-- `NRF24_Receive` names the pipe by the bits 1 to 3 of STATUS: the number of a pipe, or 0, 6 or 7,
-- whose address is 0.
pub receive_addr :
    (d : Device) (a : Pipes) (c : d.Chip)
    → (receive d a c).1 ≡ get_addr_by_pipe a ((read_reg d Reg.status c).0 / 2 % 8)
unfolding receive
receive_addr d a c = ap (get_addr_by_pipe a) (omega arith)
