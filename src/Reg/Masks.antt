-- ===== src/Reg/Masks.antt =====
-- The masks of grspw/grlib_reggrspw.h, one for each register field.
use qemu_spacewire.Base.{ℕ, ◌-◌, ◌*◌, ◌/◌, ◌^◌}
use qemu_spacewire.Base.Bits.{flag}

-- FIELDMASK(len), `~0U >> (ARCH32BIT - len)`.
abbrev pub fieldmask : ℕ → ℕ
fieldmask len = 0xffff_ffff / 2 ^ (32 - len)

abbrev pub c_spwctr_reserved_mask : ℕ
c_spwctr_reserved_mask = 0x1ffcf080

abbrev pub c_spwctr_readonly_mask : ℕ
c_spwctr_readonly_mask = 0xe0000000

abbrev pub c_spwctr_notreset_mask : ℕ
c_spwctr_notreset_mask = 0x00000007

abbrev pub c_spwctr_selfclear_mask : ℕ
c_spwctr_selfclear_mask = 0x00000050

abbrev pub c_spwctr_clearset_mask : ℕ
c_spwctr_clearset_mask = 0x00030f28

abbrev pub c_spwctr_ra : ℕ
c_spwctr_ra = flag 31

abbrev pub c_spwctr_rx : ℕ
c_spwctr_rx = flag 30

abbrev pub c_spwctr_rc : ℕ
c_spwctr_rc = flag 29

abbrev pub c_spwctr_rd : ℕ
c_spwctr_rd = flag 17

abbrev pub c_spwctr_re : ℕ
c_spwctr_re = flag 16

abbrev pub c_spwctr_tr : ℕ
c_spwctr_tr = flag 11

abbrev pub c_spwctr_tt : ℕ
c_spwctr_tt = flag 10

abbrev pub c_spwctr_li : ℕ
c_spwctr_li = flag 9

abbrev pub c_spwctr_tq : ℕ
c_spwctr_tq = flag 8

abbrev pub c_spwctr_rs : ℕ
c_spwctr_rs = flag 6

abbrev pub c_spwctr_opm : ℕ
c_spwctr_opm = flag 5

abbrev pub c_spwctr_ti : ℕ
c_spwctr_ti = flag 4

abbrev pub c_spwctr_ie : ℕ
c_spwctr_ie = flag 3

abbrev pub c_spwctr_as : ℕ
c_spwctr_as = flag 2

abbrev pub c_spwctr_ls : ℕ
c_spwctr_ls = flag 1

abbrev pub c_spwctr_ld : ℕ
c_spwctr_ld = flag 0

abbrev pub c_spwstr_lsrun : ℕ
c_spwstr_lsrun = 5 * 2 ^ 21

abbrev pub c_spwstr_lsready : ℕ
c_spwstr_lsready = 2 * 2 ^ 21

abbrev pub c_spwstr_ls : ℕ
c_spwstr_ls = fieldmask 3 * 2 ^ 21

abbrev pub c_spwstr_ee : ℕ
c_spwstr_ee = flag 8

abbrev pub c_spwstr_ia : ℕ
c_spwstr_ia = flag 7

abbrev pub c_spwstr_we : ℕ
c_spwstr_we = flag 6

abbrev pub c_spwstr_pe : ℕ
c_spwstr_pe = flag 4

abbrev pub c_spwstr_de : ℕ
c_spwstr_de = flag 3

abbrev pub c_spwstr_er : ℕ
c_spwstr_er = flag 2

abbrev pub c_spwstr_ce : ℕ
c_spwstr_ce = flag 1

abbrev pub c_spwstr_to : ℕ
c_spwstr_to = flag 0

abbrev pub c_spwndr : ℕ
c_spwndr = fieldmask 8

abbrev pub c_spwclk_divisor_link : ℕ
c_spwclk_divisor_link = fieldmask 8 * 2 ^ 8

abbrev pub c_spwclk_divisor_run : ℕ
c_spwclk_divisor_run = fieldmask 8

abbrev pub c_spwkey_key : ℕ
c_spwkey_key = fieldmask 8

abbrev pub c_spwtim_time_ctrl : ℕ
c_spwtim_time_ctrl = fieldmask 2 * 2 ^ 6

abbrev pub c_spwtim_time_counter : ℕ
c_spwtim_time_counter = fieldmask 6

abbrev pub c_spwtdr_disconnect : ℕ
c_spwtdr_disconnect = fieldmask 10 * 2 ^ 12

abbrev pub c_spwtdr_timer64 : ℕ
c_spwtdr_timer64 = fieldmask 12

abbrev pub c_spwchn_reserved_mask : ℕ
c_spwchn_reserved_mask = 0xfffee000

abbrev pub c_spwchn_notreset_mask : ℕ
c_spwchn_notreset_mask = 0x0000001c

abbrev pub c_spwchn_selfclear_mask : ℕ
c_spwchn_selfclear_mask = 0x00000a01

abbrev pub c_spwchn_clearset_mask : ℕ
c_spwchn_clearset_mask = 0x00011402

abbrev pub c_spwchn_le : ℕ
c_spwchn_le = flag 16

abbrev pub c_spwchn_ns : ℕ
c_spwchn_ns = flag 12

abbrev pub c_spwchn_rd : ℕ
c_spwchn_rd = flag 11

abbrev pub c_spwchn_rx : ℕ
c_spwchn_rx = flag 10

abbrev pub c_spwchn_at : ℕ
c_spwchn_at = flag 9

abbrev pub c_spwchn_ra : ℕ
c_spwchn_ra = flag 8

abbrev pub c_spwchn_ta : ℕ
c_spwchn_ta = flag 7

abbrev pub c_spwchn_pr : ℕ
c_spwchn_pr = flag 6

abbrev pub c_spwchn_ps : ℕ
c_spwchn_ps = flag 5

abbrev pub c_spwchn_ai : ℕ
c_spwchn_ai = flag 4

abbrev pub c_spwchn_ri : ℕ
c_spwchn_ri = flag 3

abbrev pub c_spwchn_ti : ℕ
c_spwchn_ti = flag 2

abbrev pub c_spwchn_re : ℕ
c_spwchn_re = flag 1

abbrev pub c_spwchn_te : ℕ
c_spwchn_te = flag 0

abbrev pub c_spwrxl_rx_max_length : ℕ
c_spwrxl_rx_max_length = fieldmask 23 * 2 ^ 2

abbrev pub c_spwtxd_tx_base_address : ℕ
c_spwtxd_tx_base_address = fieldmask 22 * 2 ^ 10

abbrev pub c_spwtxd_tx_desc_select : ℕ
c_spwtxd_tx_desc_select = fieldmask 6 * 2 ^ 4

abbrev pub c_spwrxd_rx_base_address : ℕ
c_spwrxd_rx_base_address = fieldmask 22 * 2 ^ 10

abbrev pub c_spwrxd_rx_desc_select : ℕ
c_spwrxd_rx_desc_select = fieldmask 7 * 2 ^ 3
