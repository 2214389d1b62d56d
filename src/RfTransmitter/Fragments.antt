-- ===== src/RfTransmitter/Fragments.antt =====
-- The payloads of a packet: together they hold it, in order.
use okto_wsd.Base.{
  ℕ, zero, suc, ◌+◌, ◌-◌, ◌*◌, ◌/◌, ◌%◌, ◌^◌, ◌<◌, ◌≤◌, ◌≡◌, refl, sym, ap, ◌∙◌, arith, List, [],
  ◌∷◌, ◌++◌, inl, inr, le_cases, length, take, drop, length-append, length-take, length-drop,
  take-append-drop, take_all, drop_all,
}
use mathlib.Core.List.{append-nil}
use okto_wsd.Elements.{RfTransmitterQueueElem, PipeQueueElem}
use okto_wsd.RfTransmitter.{frags_of, len_of, fragment, fragments_from, fragments}

-- the payloads, one after the other
abbrev pub payloads : List PipeQueueElem → List ℕ
payloads [] = []
payloads (p ∷ ps) = p.data' ++ payloads ps

take-append_left : (n : ℕ) (xs ys : List ℕ) → n ≤ length xs → take n (xs ++ ys) ≡ take n xs
take-append_left zero xs ys h = refl
take-append_left (suc n) [] ys h = absurd (omega arith)
take-append_left (suc n) (x ∷ xs) ys h = ap (λ l. x ∷ l) (take-append_left n xs ys (omega arith))

take-append_right :
    (n : ℕ) (xs ys : List ℕ) → length xs ≤ n → take n (xs ++ ys) ≡ xs ++ take (n - length xs) ys
take-append_right n [] ys h = ap (λ k. take k ys) {x = n} {y = n - 0} (omega arith)
take-append_right zero (x ∷ xs) ys h = absurd (omega arith)
take-append_right (suc n) (x ∷ xs) ys h =
    ap (λ l. x ∷ l) (take-append_right n xs ys (omega arith))
    ∙ ap (λ k. x ∷ xs ++ take k ys) {x = n - length xs} {y = suc n - suc (length xs)} (omega arith)

drop-drop : (m n : ℕ) (xs : List ℕ) → drop n (drop m xs) ≡ drop (m + n) xs
drop-drop zero n xs = ap (λ k. drop k xs) {x = n} {y = 0 + n} (omega arith)
drop-drop (suc m) n [] = drop_all n [] (omega arith) ∙ sym (drop_all (suc m + n) [] (omega arith))
drop-drop (suc m) n (x ∷ xs) =
    drop-drop m n xs ∙ ap (λ k. drop k (x ∷ xs)) {x = suc (m + n)} {y = suc m + n} (omega arith)

-- Behind the first 32 elements the rest goes on.
take_step :
    (n : ℕ) (xs rest : List ℕ)
    → 32 ≤ n
    → 32 ≤ length xs
    → take (n - 32) rest ≡ drop 32 xs
    → take n (take 32 xs ++ rest) ≡ xs
take_step n xs rest h k e =
    take-append_right n (take 32 xs) rest (omega (arith, length-take 32 xs))
    ∙ ap (λ l. take 32 xs ++ take (n - l) rest) {x = length (take 32 xs)} {y = 32}
        (omega (arith, length-take 32 xs))
    ∙ ap (λ l. take 32 xs ++ l) e
    ∙ take-append-drop 32 xs

take_first : (n : ℕ) (xs ys zs : List ℕ) → length xs ≡ n → take n ((xs ++ ys) ++ zs) ≡ xs
take_first n xs ys zs h =
    take-append_left n (xs ++ ys) zs (omega (arith, length-append xs ys))
    ∙ take-append_left n xs ys (omega arith)
    ∙ take_all n xs (omega arith)

-- Every fragment is a whole payload of the radio, with the low 16 bits of the id.
abbrev pub IsCut : ℕ → List PipeQueueElem → Type 0
IsCut tid [] = Unit
IsCut tid (p ∷ ps) = (length p.data' ≡ 32) × (p.size ≡ 32) × (p.tid ≡ tid % 2 ^ 16) × IsCut tid ps

module _ (block : List ℕ) (room : length block ≡ 32) (e : RfTransmitterQueueElem)
    (fits : e.size ≡ length e.data') (small : e.size < 2 ^ 16) where
  len_of_full : (i : ℕ) → i * 32 + 32 ≤ e.size → len_of e.size i ≡ 32
  len_of_full i h = ground arith

  len_of_last : (i : ℕ) → i * 32 < e.size → e.size < i * 32 + 32 → len_of e.size i ≡ e.size - i * 32
  len_of_last i h k = ground arith

  start_lem : (i : ℕ) → i * 32 < 2 ^ 16 → i * 32 % 2 ^ 16 ≡ i * 32
  start_lem i h = omega arith

  payloads-fragments_from :
      (left i : ℕ)
      → payloads (fragments_from block e (suc left) i)
        ≡ (fragment block e i).data' ++ payloads (fragments_from block e left ((i + 1) % 2 ^ 16))
  unfolding fragments_from fragment
  payloads-fragments_from left i = refl

  -- a full payload, and the last one
  fragment_full :
      (i : ℕ) → i * 32 + 32 ≤ e.size → (fragment block e i).data' ≡ take 32 (drop (i * 32) e.data')
  unfolding fragment
  fragment_full i h =
      rw (len_of_full i h, start_lem i (omega arith), drop_all 32 block (omega arith))
        (append-nil (take 32 (drop (i * 32) e.data')))

  fragment_last :
      (i : ℕ)
      → i * 32 < e.size
      → e.size < i * 32 + 32
      → (fragment block e i).data' ≡ drop (i * 32) e.data' ++ drop (e.size - i * 32) block
  unfolding fragment
  fragment_last i h k =
      rw
        (
          len_of_last i h k,
          start_lem i (omega arith),
          take_all (e.size - i * 32) (drop (i * 32) e.data')
              (omega (arith, length-drop (i * 32) e.data')),
        )
        refl

  fragments_from_lem :
      (left i : ℕ)
      → i + left ≡ (e.size + 31) / 32
      → take (e.size - i * 32) (payloads (fragments_from block e left i)) ≡ drop (i * 32) e.data'
  fragments_from_lem zero i h =
      ap (λ n. take n (payloads (fragments_from block e zero i))) {x = e.size - i * 32} {y = 0}
        (omega arith)
      ∙ sym (drop_all (i * 32) e.data' (omega arith))
  fragments_from_lem (suc left) i h =
      let next : (i + 1) % 2 ^ 16 ≡ i + 1 = omega arith in
      let body = drop (i * 32) e.data' in
      let room_left : length body ≡ e.size - i * 32 = omega (arith, length-drop (i * 32) e.data') in
      rw (payloads-fragments_from left i, next)
        (elim (le_cases (i * 32 + 32) e.size) [
          | inl more ↦ rw (fragment_full i more) (
              take_step (e.size - i * 32) body (payloads (fragments_from block e left (i + 1)))
                (omega arith) (omega arith)
                (ap (λ n. take n (payloads (fragments_from block e left (i + 1))))
                    {x = e.size - i * 32 - 32} {y = e.size - (i + 1) * 32} (omega arith)
                  ∙ fragments_from_lem left (i + 1) (omega arith)
                  ∙ ap (λ n. drop n e.data') {x = (i + 1) * 32} {y = i * 32 + 32} (omega arith)
                  ∙ sym (drop-drop (i * 32) 32 e.data')))
          | inr last ↦ rw (fragment_last i (omega arith) last) (
              take_first (e.size - i * 32) body (drop (e.size - i * 32) block)
                (payloads (fragments_from block e left (i + 1))) room_left)
        ])

  length-fragment : (i : ℕ) → i * 32 < e.size → length (fragment block e i).data' ≡ 32
  length-fragment i h = elim (le_cases (i * 32 + 32) e.size) [
    | inl more ↦
        rw (fragment_full i more)
          (omega (arith, length-take 32 (drop (i * 32) e.data'), length-drop (i * 32) e.data'))
    | inr last ↦ rw (fragment_last i h last) (
        omega (
          arith,
          length-append (drop (i * 32) e.data') (drop (e.size - i * 32) block),
          length-drop (i * 32) e.data',
          length-drop (e.size - i * 32) block,
        ))
  ]

  fragments_from-IsCut :
      (left i : ℕ)
      → i + left ≡ (e.size + 31) / 32
      → IsCut e.tid (fragments_from block e left i)
        × (length (fragments_from block e left i) ≡ left)
  unfolding fragments_from fragment
  fragments_from-IsCut zero i h = (_, refl)
  fragments_from-IsCut (suc left) i h =
      let next : (i + 1) % 2 ^ 16 ≡ i + 1 = omega arith in
      let rest = fragments_from-IsCut left (i + 1) (omega arith) in
      rw next ((length-fragment i (omega arith), refl, refl, rest.0), ap suc rest.1)

-- A packet of fewer than 2 ^ 16 bytes is cut into as many payloads of 32 bytes as it takes. Behind
-- one another they start with the packet, byte for byte; the tail of the last is what
-- `malloc` left in its block. Each keeps the low 16 bits of the id.
pub fragments_lem :
    (block : List ℕ) (e : RfTransmitterQueueElem)
    → length block ≡ 32
    → e.size ≡ length e.data'
    → e.size < 2 ^ 16
    → (length (fragments block e) ≡ (e.size + 31) / 32)
      × IsCut e.tid (fragments block e)
      × (take e.size (payloads (fragments block e)) ≡ e.data')
unfolding fragments
fragments_lem block e room fits small =
    let count : frags_of e.size ≡ (e.size + 31) / 32 = omega arith in
    rw count (
      let cut = fragments_from-IsCut block room e fits small ((e.size + 31) / 32) 0 (omega arith) in
      let whole = payloads (fragments_from block e ((e.size + 31) / 32) 0) in
      (
        cut.1,
        cut.0,
        ap (λ n. take n whole) {x = e.size} {y = e.size - 0 * 32} (omega arith)
            ∙ fragments_from_lem block room e fits small ((e.size + 31) / 32) 0 (omega arith),
      ))
