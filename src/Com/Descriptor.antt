-- ===== src/Com/Descriptor.antt =====
-- grspw/grlib_comgrspw.h: the descriptors of the two DMA engines, as they lie in the host's memory.
use qemu_spacewire.Base.{ℕ, ◌*◌, List, drop}
use qemu_spacewire.Base.Bits.{flag}
use qemu_spacewire.Util.Word.{word_of}
use qemu_spacewire.Reg.Masks.{fieldmask}

-- SpaceWire Receive Descriptor Word 0.
abbrev pub c_spwtrw0_tr : ℕ
c_spwtrw0_tr = flag 31

abbrev pub c_spwtrw0_dc : ℕ
c_spwtrw0_dc = flag 30

abbrev pub c_spwtrw0_hc : ℕ
c_spwtrw0_hc = flag 29

abbrev pub c_spwtrw0_ep : ℕ
c_spwtrw0_ep = flag 28

abbrev pub c_spwtrw0_ie : ℕ
c_spwtrw0_ie = flag 27

abbrev pub c_spwtrw0_wr : ℕ
c_spwtrw0_wr = flag 26

abbrev pub c_spwtrw0_en : ℕ
c_spwtrw0_en = flag 25

abbrev pub c_spwtrw0_packet_length : ℕ
c_spwtrw0_packet_length = fieldmask 25

-- SpaceWire Transmitter Descriptor Words 0 and 2.
abbrev pub c_spwtdw0_ie : ℕ
c_spwtdw0_ie = flag 14

abbrev pub c_spwtdw0_wr : ℕ
c_spwtdw0_wr = flag 13

abbrev pub c_spwtdw0_en : ℕ
c_spwtdw0_en = flag 12

abbrev pub c_spwtdw0_header_length : ℕ
c_spwtdw0_header_length = fieldmask 8

abbrev pub c_spwtdw2_data_length : ℕ
c_spwtdw2_data_length = fieldmask 24

abbrev pub c_nb_rx_descriptor : ℕ
c_nb_rx_descriptor = 128

abbrev pub c_nb_tx_descriptor : ℕ
c_nb_tx_descriptor = 64

-- The sizes of t_grspw_rx_desc, which is also that of the pointer `t_grspw_rx_descptr` on a 64-bit
-- host, and of t_grspw_tx_descr.
abbrev pub sizeof_rx_desc : ℕ
sizeof_rx_desc = 8

abbrev pub sizeof_tx_descr : ℕ
sizeof_tx_descr = 16

-- Word `i` of a descriptor.
unfoldable pub word : ℕ → List ℕ → ℕ
word i descriptor = word_of (drop (4 * i) descriptor)
