-- ===== src/GateOut/Runs.antt =====
-- The inner loop of the assembler over runs of bytes.
use okto_wsd.Base.{ℕ, ◌≡◌, refl, ap, ◌∙◌, List, [], ◌∷◌, ◌++◌, Bool, Option, none, some}
use okto_wsd.Elements.{SoTransmitterQueueElem}
use okto_wsd.GateOut.{Assembler, on_byte, on_bytes, enqueue}

-- What one run puts on the queue, before what another puts there.
abbrev pub behind :
    List SoTransmitterQueueElem
    → List SoTransmitterQueueElem × Assembler
    → List SoTransmitterQueueElem × Assembler
behind out q = (out ++ q.0, q.1)

module _ (uniall : Bool) (addr : ℕ) where
  enqueue-behind :
      (o : Option SoTransmitterQueueElem) (a : List SoTransmitterQueueElem × Assembler)
      (ys : List ℕ)
      → enqueue o (behind a.0 (on_bytes uniall addr ys a.1))
        ≡ behind (enqueue o a).0 (on_bytes uniall addr ys (enqueue o a).1)
  enqueue-behind none a ys = refl
  enqueue-behind (some e) a ys = refl

  on_bytes-append :
      (xs ys : List ℕ) (s : Assembler)
      → on_bytes uniall addr (xs ++ ys) s
        ≡ behind
            (on_bytes uniall addr xs s).0
            (on_bytes uniall addr ys (on_bytes uniall addr xs s).1)
  unfolding on_bytes
  on_bytes-append [] ys s = refl
  on_bytes-append (x ∷ xs) ys s =
      let (out, t) = on_byte uniall addr x s in
      ap (enqueue out) (on_bytes-append xs ys t) ∙ enqueue-behind out (on_bytes uniall addr xs t) ys

  -- Two runs of bytes, one behind the other.
  pub on_bytes-then :
      (xs ys : List ℕ) (s t : Assembler) (out : List SoTransmitterQueueElem)
      → on_bytes uniall addr xs s ≡ (out, t)
      → on_bytes uniall addr (xs ++ ys) s ≡ behind out (on_bytes uniall addr ys t)
  on_bytes-then xs ys s t out e =
      on_bytes-append xs ys s ∙ ap (λ q. behind q.0 (on_bytes uniall addr ys q.1)) e
