-- ===== src/Elements.antt =====
-- What the threads put on one another's queues. `data'` is what a thread wrote to the block that it
-- got from `malloc` for `size` bytes: where that is more, the thread has written behind the block.
use okto_wsd.Base.{ℕ, List, [], ◌∷◌, Bool, true, ◌&&◌, leb, length}

-- include/gate_in.h
pub record GateInQueueElement : Type 0 where
  pub socket : ℕ
  pub tid : ℕ
  pub action : ℕ
  pub size : ℕ
  pub data' : List ℕ

-- include/rf_transmitter.h
pub record RfTransmitterQueueElem : Type 0 where
  pub addr : ℕ
  pub tid : ℕ
  pub size : ℕ
  pub data' : List ℕ

-- include/rf_transmitter.h; `tid` is a `uint16_t` here.
pub record PipeQueueElem : Type 0 where
  pub ft : ℕ
  pub tid : ℕ
  pub size : ℕ
  pub data' : List ℕ

-- include/so_transmitter.h
pub record SoTransmitterQueueElem : Type 0 where
  pub tid : ℕ
  pub type : ℕ
  pub uniall : Bool
  pub size : ℕ
  pub data' : List ℕ

-- include/gate_out.h
pub record GateOutQueueElement : Type 0 where
  pub addr : ℕ
  pub data' : List ℕ

-- Nothing was written behind a block.
abbrev pub requests_fit : List GateInQueueElement → Bool
requests_fit [] = true
requests_fit (e ∷ es) = leb (length e.data') e.size && requests_fit es

abbrev pub packets_fit : List SoTransmitterQueueElem → Bool
packets_fit [] = true
packets_fit (e ∷ es) = leb (length e.data') e.size && packets_fit es
