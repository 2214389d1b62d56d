-- ===== src/GateIn/Blob.antt =====
-- What a client's block means: big-endian numbers of bytes.
use okto_wsd.Base.{ℕ, ◌+◌, ◌*◌, ◌/◌, ◌%◌, ◌^◌, ◌<◌, ◌≡◌, arith, List, [], ◌∷◌, get_or, ap, ◌∙◌}
use okto_wsd.Base.Word.{u8}
use okto_wsd.Base.Endian.{le_bytes, of_le_bytes, reverse_bytes, reverse_bytes_lem}
use okto_wsd.GateIn.{load}

-- The list holds bytes.
abbrev pub IsBytes : List ℕ → Type 0
IsBytes bytes = (i : ℕ) → get_or bytes i 0 < 256

-- the number whose bytes stand at an index, the most significant one first
abbrev pub be_at : List ℕ → ℕ → ℕ
be_at bytes at =
    get_or bytes at 0 * 0x1000000
    + get_or bytes (at + 1) 0 * 0x10000
    + get_or bytes (at + 2) 0 * 0x100
    + get_or bytes (at + 3) 0

pub reverse_bytes-load :
    (bytes : List ℕ) (at : ℕ) → IsBytes bytes → reverse_bytes (load bytes at) ≡ be_at bytes at
reverse_bytes-load bytes at h =
    reverse_bytes_lem (get_or bytes at 0) (get_or bytes (at + 1) 0) (get_or bytes (at + 2) 0)
      (get_or bytes (at + 3) 0) (h at) (h (at + 1)) (h (at + 2)) (h (at + 3))
    ∙ omega arith

pub be_at_low :
    (bytes : List ℕ) (at : ℕ) → IsBytes bytes → u8 (be_at bytes at) ≡ get_or bytes (at + 3) 0
be_at_low bytes at h = omega (arith, h (at + 3))

pub be_at-lt : (bytes : List ℕ) (at : ℕ) → IsBytes bytes → be_at bytes at < 2 ^ 32
be_at-lt bytes at h = omega (arith, h at, h (at + 1), h (at + 2), h (at + 3))

-- A number below 2 ^ 32 survives the memory of the host.
pub load-le_bytes : (x : ℕ) → x < 2 ^ 32 → load (le_bytes x) 0 ≡ x
load-le_bytes x h = omega arith

reverse_bytes-small :
    (x : ℕ) → x < 2 ^ 16 → reverse_bytes x ≡ x / 256 * 0x10000 + x % 256 * 0x1000000
reverse_bytes-small x h =
    ap reverse_bytes {x = x} {y = of_le_bytes (x % 256) (x / 256) 0 0} (omega arith)
    ∙ reverse_bytes_lem (x % 256) (x / 256) 0 0 (omega arith) (omega arith) (omega arith)
        (omega arith)
    ∙ omega arith

-- an error's body, as the bytes on the wire
pub error_bytes : (x : ℕ) → x < 2 ^ 16 → le_bytes (reverse_bytes x) ≡ 0 ∷ 0 ∷ x / 256 ∷ x % 256 ∷ []
error_bytes x h = ground (arith, reverse_bytes-small x h)
