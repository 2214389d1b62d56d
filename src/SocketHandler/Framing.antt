-- ===== src/SocketHandler/Framing.antt =====
-- The earlier thread cuts a stream into packets of up to 255 bytes.
use okto_wsd.Base.{
  ℕ, suc, ◌<◌, ◌≡◌, refl, ap, ◌∙◌, arith, List, [], ◌∷◌, ◌++◌, Option, none, some, length,
  length-append, leb-true, leb-false, get_or, take, if◌then◌else◌,
}
use mathlib.Core.List.{append_assoc}
use okto_wsd.Ring.{Ring, write, data_length, data_clear, read_all, cmp_data}
use okto_wsd.Ring.Inv.{IsValid, write-IsValid}
use okto_wsd.Ring.Window.{contents}
use okto_wsd.Ring.Refine.{read_all_lem, size-write, contents-data_clear}
use okto_wsd.Ring.Compare.{bytes_eq, cmp_data_lem}
use okto_wsd.SoReceiver.Sound.{contents_step, length_step}
use okto_wsd.SocketHandler.{
  QueueElement, Mode, mode_preamble, mode_header, mode_body, Handler, preamble, preamble_size,
  header_size, ring_buffer_size, in_preamble, in_header, in_body, dispatch, on_byte, enqueue,
  handle,
}

pub record IsSound (r : Ring) : Type 0 where
  pub valid : IsValid r
  pub size : r.size ≡ ring_buffer_size

write-IsSound : (ch : ℕ) {r : Ring} → IsSound r → IsSound (write ch r)
write-IsSound ch {r} v = record {
  valid = write-IsValid r ch v.valid;
  size = size-write r ch ∙ v.size;
}

clear-IsSound : {r : Ring} → IsSound r → IsSound (data_clear r)
unfolding data_clear
clear-IsSound {r} v = omega arith

-- how many bytes a handler waits for
abbrev pub awaited : Mode → ℕ → ℕ
awaited mode_preamble sbody = preamble_size
awaited mode_header sbody = header_size
awaited mode_body sbody = sbody

abbrev pub handler : Mode → Ring → (sbody action : ℕ) → Handler
handler m r n a = record { in_buf = r; mode = m; sbody = n; action = a }

module _ (ch : ℕ) {r : Ring} (n a : ℕ) (v : IsSound r)
    (room : suc (length (contents r)) < ring_buffer_size) where
  stored : contents (write ch r) ≡ contents r ++ (ch ∷ [])
  stored = contents_step ch v.valid (omega arith)

  count : data_length (write ch r) ≡ suc (length (contents r))
  count = length_step ch v.valid (omega arith)

  -- A byte before the last only fills the ring.
  early :
      (m : Mode)
      → suc (length (contents r)) < awaited m n
      → on_byte ch (handler m r n a) ≡ (none, handler m (write ch r) n a)
  unfolding on_byte dispatch in_preamble in_header in_body
  early mode_preamble few =
      rw (leb-false preamble_size (data_length (write ch r)) (omega (arith, count)))
  early mode_header few =
      rw (leb-false header_size (data_length (write ch r)) (omega (arith, count)))
  early mode_body few = rw (leb-false n (data_length (write ch r)) (omega (arith, count)))

  read_stored : read_all (write ch r) ≡ (contents r ++ (ch ∷ []), data_clear (write ch r))
  unfolding data_clear
  read_stored =
      read_all_lem (write ch r) (write-IsSound ch v).valid
      ∙ ap (λ l. (l, data_clear (write ch r))) stored

  pub last_of_preamble :
      contents r ++ (ch ∷ []) ≡ preamble
      → on_byte ch (handler mode_preamble r n a)
        ≡ (none, handler mode_header (data_clear (write ch r)) n a)
  unfolding on_byte dispatch in_preamble
  last_of_preamble e =
      let eight : data_length (write ch r) ≡ 8 =
        omega (arith, count, ap length e, length-append (contents r) (ch ∷ [])) in
      let found : cmp_data 0 preamble 8 (write ch r) ≡ 0 =
        cmp_data_lem (write ch r) 0 preamble (write-IsSound ch v).valid (omega arith)
          (omega (arith, (write-IsSound ch v).valid.reader_in, (write-IsSound ch v).size))
        ∙ ap (λ c. if bytes_eq (take 8 c) preamble then 0 else 255) (stored ∙ e) in
      rw (eight, found)

  pub last_of_header :
      suc (length (contents r)) ≡ header_size
      → let header = contents r ++ (ch ∷ []) in
        on_byte ch (handler mode_header r n a) ≡ (
          none,
          handler mode_body (data_clear (write ch r)) (get_or header 2 0) (get_or header 0 0),
        )
  unfolding on_byte dispatch in_header
  last_of_header e =
      rw (leb-true header_size (data_length (write ch r)) (omega (arith, count)), read_stored)

  pub last_of_body :
      suc (length (contents r)) ≡ n
      → on_byte ch (handler mode_body r n a) ≡ (
        some (record { action = a; size = n; data' = contents r ++ (ch ∷ []) }),
        handler mode_preamble (data_clear (write ch r)) n a,
      )
  unfolding on_byte dispatch in_body
  last_of_body e = rw (leb-true n (data_length (write ch r)) (omega (arith, count)), read_stored)

-- What one run of the loop puts on the queue, before what another puts there.
abbrev pub behind : List QueueElement → List QueueElement × Handler → List QueueElement × Handler
behind out q = (out ++ q.0, q.1)

enqueue-behind :
    (o : Option QueueElement) (a : List QueueElement × Handler)
    (f : Handler → List QueueElement × Handler)
    → enqueue o (behind a.0 (f a.1)) ≡ behind (enqueue o a).0 (f (enqueue o a).1)
enqueue-behind none a f = refl
enqueue-behind (some e) a f = refl

handle-append :
    (xs ys : List ℕ) (s : Handler)
    → handle (xs ++ ys) s ≡ behind (handle xs s).0 (handle ys (handle xs s).1)
unfolding handle
handle-append [] ys s = refl
handle-append (x ∷ xs) ys s =
    ap (enqueue (on_byte x s).0) (handle-append xs ys (on_byte x s).1)
    ∙ enqueue-behind (on_byte x s).0 (handle xs (on_byte x s).1) (handle ys)

pub handle-then :
    (xs ys : List ℕ) (s s' : Handler) (out : List QueueElement)
    → handle xs s ≡ (out, s')
    → handle (xs ++ ys) s ≡ behind out (handle ys s')
handle-then xs ys s s' out e = handle-append xs ys s ∙ ap (λ q. behind q.0 (handle ys q.1)) e

pub handle_one :
    (ch : ℕ) (chs : List ℕ) (s s' : Handler) (o : Option QueueElement)
    → on_byte ch s ≡ (o, s')
    → handle (ch ∷ chs) s ≡ enqueue o (handle chs s')
unfolding handle
handle_one ch chs s s' o e = ap (λ q. enqueue q.0 (handle chs q.1)) e

-- All of what a mode waits for but the last byte, then the last byte.
pub collect :
    (m : Mode) (bs all : List ℕ) (n a : ℕ) {r : Ring} (out : List QueueElement)
    (after : Ring → Handler)
    → IsSound r
    → 0 < length bs
    → contents r ++ bs ≡ all
    → length all ≡ awaited m n
    → length all < ring_buffer_size
    → ((ch : ℕ) (q : Ring)
        → IsSound q
        → contents q ++ (ch ∷ []) ≡ all
        → handle (ch ∷ []) (handler m q n a) ≡ (out, after (data_clear (write ch q))))
    → (r' : Ring) × (handle bs (handler m r n a) ≡ (out, after r'))
      × IsSound r'
      × (contents r' ≡ [])
collect m [] all n a out after v pos e l small last = absurd (omega arith)
collect m (b ∷ []) all n a {r} out after v pos e l small last = (
  data_clear (write b r),
  last b r v e,
  clear-IsSound (write-IsSound b v),
  contents-data_clear (write b r),
)
collect m (b ∷ c ∷ bs) all n a {r} out after v pos e l small last =
    let few : suc (length (contents r)) < length all =
      omega (arith, ap length e, length-append (contents r) (b ∷ c ∷ bs)) in
    let (r', run, sound, empty) =
      collect m (c ∷ bs) all n a {r = write b r} out after (write-IsSound b v) (omega arith)
        (ap (λ k. k ++ (c ∷ bs)) (stored b n a v (omega arith))
          ∙ append_assoc (contents r) (b ∷ []) (c ∷ bs)
          ∙ e)
        l small last in
    (
      r',
      handle_one b (c ∷ bs) (handler m r n a) (handler m (write b r) n a) none
            (early b n a v (omega arith) m (omega arith))
          ∙ run,
      sound,
      empty,
    )
