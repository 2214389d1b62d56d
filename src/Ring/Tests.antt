-- ===== src/Ring/Tests.antt =====
-- The ring at small concrete buffers.
use okto_wsd.Base.{◌+◌, ◌<◌, ◌≤◌, ◌≡◌, refl, arith, [], ◌∷◌, none, some, false}
use okto_wsd.Ring.{Ring, write, read, read_all, data_length, cmp_data}
use okto_wsd.Ring.Inv.{IsValid}
use okto_wsd.Ring.Window.{contents}
use okto_wsd.Ring.Refine.{write_refines, read_refines, read_all_lem, push}
use okto_wsd.Ring.Compare.{cmp_data_lem}
use okto_wsd.Ring.Mutex.{Locked, write_array, write_array_blocks}

-- 8, 9, 7 round the end of the buffer: full
abbrev wrapped : Ring
wrapped = record {
  buffer = 9 ∷ 7 ∷ 0 ∷ 8 ∷ [];
  reader = 3;
  writer = 2;
  size = 4;
  overflow_politics = 0;
}

abbrev drained : Ring
drained = record wrapped { writer = 3 }

wrapped-IsValid : IsValid wrapped
wrapped-IsValid = omega arith

drained-IsValid : IsValid drained
drained-IsValid = omega arith

contents-wrapped : contents wrapped ≡ 8 ∷ 9 ∷ 7 ∷ []
unfolding data_length
contents-wrapped = refl

contents-write-wrapped : contents (write 5 wrapped) ≡ 9 ∷ 7 ∷ 5 ∷ []
unfolding data_length write
contents-write-wrapped = refl

write_refines_example : contents (write 5 wrapped) ≡ push 3 (contents wrapped) 5
write_refines_example = write_refines wrapped 5 wrapped-IsValid refl

wrapped_holds : 0 < data_length wrapped
unfolding data_length
wrapped_holds = omega arith

read_refines_example : contents wrapped ≡ (read wrapped).0 ∷ contents (read wrapped).1
read_refines_example = read_refines wrapped wrapped-IsValid wrapped_holds

read_all_lem_example : read_all wrapped ≡ (contents wrapped, record wrapped { reader = 2 })
read_all_lem_example = read_all_lem wrapped wrapped-IsValid

three_held : 1 + 2 ≤ data_length wrapped
unfolding data_length
three_held = omega arith

cmp_data_lem_example : cmp_data 1 (9 ∷ 7 ∷ []) 2 wrapped ≡ 0
unfolding data_length
cmp_data_lem_example = cmp_data_lem wrapped 1 (9 ∷ 7 ∷ []) wrapped-IsValid three_held (omega arith)

abbrev free : Locked
free = record { ring = wrapped; held = false }

write_array_blocks_example :
    (0 < 2 → write_array (1 ∷ 2 ∷ []) free ≡ none)
    × (false ≡ false → write_array [] free ≡ some (0, free))
write_array_blocks_example = write_array_blocks (1 ∷ 2 ∷ []) free
