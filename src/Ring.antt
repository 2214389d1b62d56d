-- ===== src/Ring.antt =====
-- libs/collections/src/rings.c: the byte ring through which both receivers assemble packets.
-- Each function is the part of the C function between its lock and its unlock, with the ring as an
-- argument and, where it changes, in the result; `Mutex` adds the locking. Positions are
-- `uint16_t`. A read outside the buffer gives 0 here; a valid ring, in `Inv`, has its
-- positions inside.
pub mod Inv
pub mod Window
pub mod Refine
pub mod Compare
pub mod Search
pub mod Extract
pub mod Mutex
pub mod Faults
mod Tests
use okto_wsd.Base.{
  ℕ, zero, suc, ◌+◌, ◌-◌, List, [], ◌∷◌, ◌++◌, Bool, true, false, Option, none, some, ltb, leb,
  ◌==◌, ◌||◌, ◌*◌, min, if◌then◌else◌, length, get_or, set, take, drop, replicate,
}
use okto_wsd.Base.Word.{u16}
use okto_wsd.Base.Int.{ℤ, pos, negsuc}

abbrev pub rings_overflow_shift : ℕ
rings_overflow_shift = 0

-- `RingBufferDef` without its mutex
pub record Ring : Type 0 where
  pub buffer : List ℕ
  pub reader : ℕ
  pub writer : ℕ
  pub size : ℕ
  pub overflow_politics : ℕ

-- `storage` is the memory that `malloc` gave, with what it holds.
unfoldable pub create_ring_buffer : List ℕ → ℕ → ℕ → Ring
create_ring_buffer storage size politics = record {
  buffer = storage;
  reader = 0;
  writer = 0;
  size = size;
  overflow_politics = politics;
}

-- One position on and one position back, as every loop over the ring goes.
abbrev pub next : ℕ → ℕ → ℕ
next size ptr = if ptr + 1 == size then 0 else u16 (ptr + 1)

abbrev pub prev : ℕ → ℕ → ℕ
prev size ptr = if ptr == 0 then u16 (size + 0xffff) else ptr - 1

unfoldable pub read : Ring → ℕ × Ring
read r = (
  get_or r.buffer r.reader 0,
  if r.reader + 1 == r.size
      then record r { reader = 0 }
      else if r.reader == r.writer
      then r
      else record r { reader = u16 (r.reader + 1) },
)

-- what the overflow policy makes of the reader when the writer is about to meet it
abbrev pub overflow : Ring → ℕ
overflow r = if r.overflow_politics == rings_overflow_shift then next r.size r.reader else r.reader

unfoldable pub write : ℕ → Ring → Ring
write byte r =
    if r.writer + 1 == r.size
    then record r {
      buffer = set r.buffer r.writer byte;
      reader = if r.reader == 0 then overflow r else r.reader;
      writer = 0;
    }
    else record r {
      buffer = set r.buffer r.writer byte;
      reader = if r.writer + 1 == r.reader then overflow r else r.reader;
      writer = u16 (r.writer + 1);
    }

unfoldable pub data_length : Ring → ℕ
data_length r =
    if ltb r.writer r.reader
    then u16 (r.size + r.writer + 0x10000 - r.reader)
    else r.writer - r.reader

-- Each round moves the reader by one, so `size` rounds are enough: `Refine.read_all_lem`.
unfoldable pub read_all_loop : ℕ → List ℕ → (reader writer size : ℕ) → List ℕ × ℕ
read_all_loop zero buffer reader writer size = ([], reader)
read_all_loop (suc fuel) buffer reader writer size =
    let rest =
      read_all_loop fuel buffer (if ltb size (reader + 2) then 0 else u16 (reader + 1)) writer
        size in
    if reader == writer then ([], reader) else (get_or buffer reader 0 ∷ rest.0, rest.1)

-- The bytes put into `buff`, and the ring. The returned count is the number of these bytes.
unfoldable pub read_all : Ring → List ℕ × Ring
unfolding read_all_loop
read_all r =
    let (bytes, reader) = read_all_loop r.size r.buffer r.reader r.writer r.size in
    (bytes, record r { reader = reader })

-- The string without its terminator; `none` if `memcpy` reads past the buffer. A `strSize` of 0
-- asks it for SIZE_MAX bytes.
unfoldable pub read_string : Ring → Option (List ℕ) × Ring
read_string r = (
  if str_size == 0 || ltb (length r.buffer) (r.reader + (str_size - 1))
      then none
      else some (take (str_size - 1) (drop r.reader r.buffer)),
  record r { reader = r.writer },
)
  where
    str_size : ℕ
    str_size = u16 (r.writer + 0x10000 - r.reader + 1)

-- `lenght` bytes from the position `ptr` on, going round at the end of the buffer.
unfoldable pub range_loop : List ℕ → ℕ → (lenght ptr : ℕ) → List ℕ
range_loop buffer size zero ptr = []
range_loop buffer size (suc n) ptr = get_or buffer ptr 0 ∷ range_loop buffer size n (next size ptr)

unfoldable pub read_string_in_range : (start lenght : ℕ) → Ring → List ℕ
unfolding range_loop
read_string_in_range start lenght r = range_loop r.buffer r.size lenght start

-- The offset of the returned pointer into the buffer.
unfoldable pub data_start : Ring → ℕ
data_start r = r.reader

unfoldable pub data_clear : Ring → Ring
data_clear r = record r { reader = r.writer }

-- The loop stops before the last byte of the buffer.
unfoldable pub data_clear_full : Ring → Ring
data_clear_full r = record r {
  buffer = replicate (min (r.size - 1) (length r.buffer)) 0 ++ drop (r.size - 1) r.buffer;
  reader = 0;
  writer = 0;
}

unfoldable pub data_clear_by_size : ℕ → Ring → Ring
data_clear_by_size size r = record r { reader = u16 (r.reader + size) }

-- `n` rounds of the loops that walk forward and back.
unfoldable pub walk : (size n ptr : ℕ) → ℕ
walk size zero ptr = ptr
walk size (suc n) ptr = walk size n (next size ptr)

unfoldable pub walk_back : (size n ptr : ℕ) → ℕ
walk_back size zero ptr = ptr
walk_back size (suc n) ptr = walk_back size n (prev size ptr)

-- The position at a signed distance. The forward loops count in a `uint16_t`, the backward ones
-- in an `int32_t`.
unfoldable pub shifted : (size : ℕ) → ℤ → ℕ → ℕ
unfolding walk walk_back
shifted size (pos n) ptr = walk size (u16 n) ptr
shifted size (negsuc n) ptr = walk_back size (suc n) ptr

unfoldable pub get_by_shift_from_writer : ℤ → Ring → ℕ
unfolding shifted
get_by_shift_from_writer shift r = get_or r.buffer (shifted r.size shift r.writer) 0

unfoldable pub get_by_shift_from_reader : ℤ → Ring → ℕ
unfolding shifted
get_by_shift_from_reader shift r = get_or r.buffer (shifted r.size shift r.reader) 0

unfoldable pub shift_reader : ℤ → Ring → Ring
unfolding shifted
shift_reader shift r = record r { reader = shifted r.size shift r.reader }

unfoldable pub shift_writer : ℤ → Ring → Ring
unfolding shifted
shift_writer shift r = record r { writer = shifted r.size shift r.writer }

-- The bytes put into `buffer`, and the last `wptr`, which the function returns.
unfoldable pub extract_loop : List ℕ → (size count real_position wptr : ℕ) → List ℕ × ℕ
extract_loop buffer size zero real_position wptr = ([], wptr)
extract_loop buffer size (suc n) real_position wptr =
    let at_end = ltb size (real_position + wptr + 2) in
    let rest =
      extract_loop buffer size n (if at_end then 0 else real_position)
        (if at_end then 0 else u16 (wptr + 1)) in
    (get_or buffer (real_position + wptr) 0 ∷ rest.0, rest.1)

-- The first position of `RINGS_extractData`. Casts to `uint16_t` add a multiple of 2 ^ 16 first.
unfoldable pub extract_position : (size : ℕ) → ℤ → ℕ
extract_position size (pos n) = if leb size n then u16 (n - size) else u16 n
extract_position size (negsuc n) = u16 (size + 0xffff * suc n)

unfoldable pub extract_data : ℤ → ℕ → Ring → List ℕ × ℕ
unfolding extract_loop extract_position
extract_data position size r =
    extract_loop r.buffer r.size size (extract_position r.size position) 0

-- `n` rounds from `ptr` on. The bytes are compared as `char`, so they agree when they are equal.
unfoldable pub cmp_loop : List ℕ → (size : ℕ) → (cmp_data : List ℕ) → (n ptr count : ℕ) → Bool
cmp_loop buffer size cmp_data zero ptr count = true
cmp_loop buffer size cmp_data (suc n) ptr count =
    let rest = cmp_loop buffer size cmp_data n (next size ptr) (count + 1) in
    if get_or buffer ptr 0 == get_or cmp_data count 0 then rest else false

-- 0 for equal data; the -1 of the source is a `uint8_t`.
unfoldable pub cmp_data : ℕ → List ℕ → ℕ → Ring → ℕ
unfolding cmp_loop
cmp_data reader_offset data' data_size r =
    let ptr = u16 (r.reader + reader_offset) in
    let ptr' = if leb r.size ptr then ptr - r.size else ptr in
    if cmp_loop r.buffer r.size data' data_size ptr' 0 then 0 else 255

-- `count` rounds, the data from its end.
unfoldable pub cmp_reverse_loop : List ℕ → (size : ℕ) → (cmp_data : List ℕ) → (count ptr : ℕ) → Bool
cmp_reverse_loop buffer size cmp_data zero ptr = true
cmp_reverse_loop buffer size cmp_data (suc n) ptr =
    let rest = cmp_reverse_loop buffer size cmp_data n (prev size ptr) in
    if get_or buffer ptr 0 == get_or cmp_data n 0 then rest else false

unfoldable pub cmp_data_reverse : ℕ → List ℕ → ℕ → Ring → ℕ
unfolding cmp_reverse_loop
cmp_data_reverse writer_offset data' data_size r =
    if cmp_reverse_loop r.buffer r.size data' data_size (u16 (r.writer + writer_offset + 0xffff))
    then 0
    else 255
