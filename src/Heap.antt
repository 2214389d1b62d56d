-- ===== src/Heap.antt =====
-- The heap that the linked collections share: nodes of colnode.h at addresses.
pub mod Cells
pub mod Alloc
use okto_wsd.Base.{ℕ, List, [], ◌∷◌, Option, none, some, if◌then◌else◌, ◌==◌}

abbrev pub Ptr : Type 0
Ptr = ℕ

abbrev pub null : Ptr
null = 0

pub record Node (A : Type 0) : Type 0 where
  pub item : A
  pub next : Ptr

-- What was written to addresses, the newest first; `none` is memory given back.
abbrev pub Heap : Type 0 → Type 0
Heap A = List (Ptr × Option (Node A))

module _ {A : Type 0} where
  -- What an address holds: nothing, where nothing was allocated.
  unfoldable pub load : Heap A → Ptr → Option (Node A)
  load [] p = none
  load ((a, c) ∷ h) p = if a == p then c else load h p

  unfoldable pub store : Ptr → Node A → Heap A → Heap A
  store p n h = (p, some n) ∷ h

  unfoldable pub free : Ptr → Heap A → Heap A
  free p h = (p, none) ∷ h
