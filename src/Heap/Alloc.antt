-- ===== src/Heap/Alloc.antt =====
-- What is asked of `pmalloc`: an address that is not null and holds nothing.
use okto_wsd.Base.{suc, ◌+◌, ◌<◌, ◌≤◌, ◌≡◌, ◌≢◌, refl, arith, [], ◌∷◌, none}
use okto_wsd.Heap.{Ptr, null, Heap, load}

pub record Alloc (A : Type 0) : Type 0 where
  pub fresh : Heap A → Ptr
  pub fresh_some : (h : Heap A) → fresh h ≢ null
  pub fresh_unused : (h : Heap A) → load h (fresh h) ≡ none

-- An address above all that were ever written meets it.
abbrev pub above : {A : Type 0} → Heap A → Ptr
above [] = 1
above ((a, c) ∷ h) = suc (a + above h)

pub above_positive : {A : Type 0} (h : Heap A) → 0 < above h
above_positive [] = omega arith
above_positive ((a, c) ∷ h) = omega arith

pub load-above : {A : Type 0} (h : Heap A) (p : Ptr) → above h ≤ p → load h p ≡ none
unfolding load
load-above [] p high = refl
load-above ((a, c) ∷ h) p high = ground (arith, load-above h p, above_positive h)

abbrev pub bump : (A : Type 0) → Alloc A
bump A = record {
  fresh = above;
  fresh_some = λ h e. omega (arith, above_positive h);
  fresh_unused = λ h. load-above h (above h) (omega arith);
}
