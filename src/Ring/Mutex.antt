-- ===== src/Ring/Mutex.antt =====
-- The locks of rings.c. The mutex is pthread's default one: a thread that locks it while it holds
-- it waits for ever, which is `none` here.
use okto_wsd.Base.{
  ℕ, ◌≡◌, ◌<◌, refl, arith, List, [], ◌∷◌, Option, none, some, Bool, true, false, if◌then◌else◌,
  length,
}
use okto_wsd.Base.Word.{u8}
use okto_wsd.Ring.{Ring, write, data_start}

-- a ring and its mutex
pub record Locked : Type 0 where
  pub ring : Ring
  pub held : Bool

-- Lock, the body, unlock: the shape of every function of rings.c but two.
unfoldable pub sync : {A : Type 0} → (Ring → A × Ring) → Locked → Option (A × Locked)
sync body l =
    if l.held
    then none
    else (let (a, r) = body l.ring in some (a, record { ring = r; held = false }))

-- `RINGS_writeArray` calls `RINGS_write`, which locks, between its own lock and unlock.
unfoldable pub write_array_loop : List ℕ → Locked → Option Locked
unfolding sync
write_array_loop [] l = some l
write_array_loop (b ∷ bs) l = elim (sync (λ r. (b, write b r)) l) [
  | none ↦ none
  | some (a, l') ↦ write_array_loop bs l'
]

unfoldable pub write_array : List ℕ → Locked → Option (ℕ × Locked)
unfolding write_array_loop
write_array array l =
    if l.held then none else elim (write_array_loop array (record l { held = true })) [
      | none ↦ none
      | some l' ↦ some (u8 (length array), record l' { held = false })
    ]

-- `RINGS_dataStart` returns before its unlock.
unfoldable pub data_start_locked : Locked → Option (ℕ × Locked)
unfolding data_start
data_start_locked l = if l.held then none else some (data_start l.ring, record l { held = true })

-- With a free mutex a function does what its body does, and leaves the mutex free.
pub sync_free :
    {A : Type 0} (body : Ring → A × Ring) (l : Locked)
    → l.held ≡ false
    → sync body l ≡ some ((body l.ring).0, record { ring = (body l.ring).1; held = false })
unfolding sync
sync_free body l h = rw h

-- `RINGS_writeArray` of a non-empty array never returns, whether or not the mutex is free, and of
-- the empty one it returns 0 with the ring as it was.
pub write_array_blocks :
    (array : List ℕ) (l : Locked)
    → (0 < length array → write_array array l ≡ none)
      × (l.held ≡ false → write_array [] l ≡ some (0, l))
unfolding write_array
write_array_blocks [] l = ground arith
write_array_blocks (b ∷ bs) l = ground arith

-- After `RINGS_dataStart` of a ring with a free mutex every other function of the ring waits for
-- ever, itself included.
data_start_blocks :
    {A : Type 0} (body : Ring → A × Ring) (l : Locked)
    → l.held ≡ false
    → (l' : Locked) × (data_start_locked l ≡ some (l.ring.reader, l'))
      × (sync body l' ≡ none)
      × (data_start_locked l' ≡ none)
unfolding data_start_locked sync
data_start_blocks body l h = (record l { held = true }, rw h, refl, refl)
