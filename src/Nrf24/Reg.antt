-- ===== src/Nrf24/Reg.antt =====
-- Register addresses and commands of the chip, under their names in include/NRF24.h.
use okto_wsd.Base.{ℕ}

abbrev pub config : ℕ
config = 0x00

abbrev pub en_aa : ℕ
en_aa = 0x01

abbrev pub en_rxaddr : ℕ
en_rxaddr = 0x02

abbrev pub setup_aw : ℕ
setup_aw = 0x03

abbrev pub setup_retr : ℕ
setup_retr = 0x04

abbrev pub rf_ch : ℕ
rf_ch = 0x05

abbrev pub rf_setup : ℕ
rf_setup = 0x06

abbrev pub status : ℕ
status = 0x07

abbrev pub observe_tx : ℕ
observe_tx = 0x08

abbrev pub rx_addr_p0 : ℕ
rx_addr_p0 = 0x0a

abbrev pub rx_addr_p1 : ℕ
rx_addr_p1 = 0x0b

abbrev pub rx_addr_p2 : ℕ
rx_addr_p2 = 0x0c

abbrev pub rx_addr_p3 : ℕ
rx_addr_p3 = 0x0d

abbrev pub rx_addr_p4 : ℕ
rx_addr_p4 = 0x0e

abbrev pub rx_addr_p5 : ℕ
rx_addr_p5 = 0x0f

abbrev pub tx_addr : ℕ
tx_addr = 0x10

abbrev pub rx_pw_p0 : ℕ
rx_pw_p0 = 0x11

abbrev pub fifo_status : ℕ
fifo_status = 0x17

abbrev pub dynpd : ℕ
dynpd = 0x1c

abbrev pub feature : ℕ
feature = 0x1d

abbrev pub rd_rx_pload : ℕ
rd_rx_pload = 0x61

abbrev pub wr_tx_pload : ℕ
wr_tx_pload = 0xa0

abbrev pub flush_tx : ℕ
flush_tx = 0xe1

abbrev pub flush_rx : ℕ
flush_rx = 0xe2
