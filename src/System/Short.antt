-- ===== src/System/Short.antt =====
-- Packets that announce too little: their threads write or read past a block.
use okto_wsd.Base.{◌<◌, ◌≡◌, ◌⊎◌, inl, inr, refl, arith, List, [], ◌∷◌, true}
use okto_wsd.Elements.{GateInQueueElement, SoTransmitterQueueElem, requests_fit, packets_fit}
use okto_wsd.Packet.Wsd.{wsd_type_transmit}
use okto_wsd.SoReceiver.Blocks.{AllWithin}
use okto_wsd.GateOut.Blocks.{AllWithin as AllPacketsWithin}

-- A request that announces no body, or one to transmit that is too short for an address and the
-- front of a packet.
abbrev pub IsShort : GateInQueueElement → Type 0
IsShort e = (e.size ≡ 0) ⊎ ((e.action ≡ wsd_type_transmit) × (e.size < 16))

abbrev pub HasShort : List GateInQueueElement → Type 0
HasShort [] = ⊥
HasShort (e ∷ es) = IsShort e ⊎ HasShort es

-- A radio's packet that announces no body.
abbrev pub HasEmpty : List SoTransmitterQueueElem → Type 0
HasEmpty [] = ⊥
HasEmpty (e ∷ es) = (e.size ≡ 19) ⊎ HasEmpty es

pub requests_fit-or_short :
    (es : List GateInQueueElement) → AllWithin es → (requests_fit es ≡ true) ⊎ HasShort es
requests_fit-or_short [] within = inl refl
requests_fit-or_short (e ∷ es) (one, within) = elim one [
  | inr empty ↦ inr (inl (inl empty))
  | inl fits ↦ elim (requests_fit-or_short es within) [
    | inl all ↦ inl (ground arith)
    | inr short ↦ inr (inr short)
  ]
]

pub packets_fit-or_empty :
    (es : List SoTransmitterQueueElem) → AllPacketsWithin es → (packets_fit es ≡ true) ⊎ HasEmpty es
packets_fit-or_empty [] within = inl refl
packets_fit-or_empty (e ∷ es) (one, within) = elim one [
  | inr empty ↦ inr (inl empty)
  | inl fits ↦ elim (packets_fit-or_empty es within) [
    | inl all ↦ inl (ground arith)
    | inr empty ↦ inr (inr empty)
  ]
]
