-- ===== src/SoReceiver/Runs.antt =====
-- The loop of the thread over runs of bytes.
use okto_wsd.Base.{ℕ, ◌≡◌, refl, ap, ◌∙◌, List, [], ◌∷◌, ◌++◌, Option, none, some}
use okto_wsd.SoReceiver.{GateInQueueElement, Receiver, on_byte, receive, enqueue}

-- The loop over a first byte that puts nothing on the queue, and over one that puts an element.
pub receive_silent :
    (socket b : ℕ) (bs : List ℕ) (s s' : Receiver)
    → on_byte socket b s ≡ (none, s')
    → receive socket (b ∷ bs) s ≡ receive socket bs s'
unfolding receive
receive_silent socket b bs s s' e = ap (λ q. enqueue q.0 (receive socket bs q.1)) e

pub receive_emit :
    (socket b : ℕ) (bs : List ℕ) (s s' : Receiver) (x : GateInQueueElement)
    → on_byte socket b s ≡ (some x, s')
    → receive socket (b ∷ bs) s ≡ enqueue (some x) (receive socket bs s')
unfolding receive
receive_emit socket b bs s s' x e = ap (λ q. enqueue q.0 (receive socket bs q.1)) e

-- What one run of the loop puts on the queue, before what another puts there.
abbrev pub behind :
    List GateInQueueElement
    → List GateInQueueElement × Receiver
    → List GateInQueueElement × Receiver
behind out q = (out ++ q.0, q.1)

enqueue-behind :
    (o : Option GateInQueueElement) (a : List GateInQueueElement × Receiver)
    (f : Receiver → List GateInQueueElement × Receiver)
    → enqueue o (behind a.0 (f a.1)) ≡ behind (enqueue o a).0 (f (enqueue o a).1)
enqueue-behind none a f = refl
enqueue-behind (some e) a f = refl

-- The loop over two runs of bytes, one behind the other.
pub receive-append :
    (socket : ℕ) (xs ys : List ℕ) (s : Receiver)
    → receive socket (xs ++ ys) s
      ≡ behind (receive socket xs s).0 (receive socket ys (receive socket xs s).1)
unfolding receive
receive-append socket [] ys s = refl
receive-append socket (x ∷ xs) ys s =
    ap (enqueue (on_byte socket x s).0) (receive-append socket xs ys (on_byte socket x s).1)
    ∙ enqueue-behind (on_byte socket x s).0 (receive socket xs (on_byte socket x s).1)
        (receive socket ys)

pub receive-then :
    (socket : ℕ) (xs ys : List ℕ) (s s' : Receiver) (out : List GateInQueueElement)
    → receive socket xs s ≡ (out, s')
    → receive socket (xs ++ ys) s ≡ behind out (receive socket ys s')
receive-then socket xs ys s s' out e =
    receive-append socket xs ys s ∙ ap (λ q. behind q.0 (receive socket ys q.1)) e
