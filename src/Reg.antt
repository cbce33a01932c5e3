-- ===== src/Reg.antt =====
-- grspw/grlib_reggrspw.c and its header: the registers of one SpaceWire core.
pub mod Masks
pub mod Access
pub mod Ctr
pub mod Valid
pub mod Link
pub mod Status
mod Tests
use qemu_spacewire.Base.{ℕ, ◌+◌, ◌<◌, bit_and, bit_or, Bool, true, false, if◌then◌else◌, ltb}
use qemu_spacewire.Host.{
  Platform, Host, M, pure, ◌>>=◌, ◌>>◌, append_log, trace_readreg, trace_writereg,
}
use qemu_spacewire.Util.Mask.{checkbit, setbit, clearbit, deposit}
use qemu_spacewire.Util.Word.{u8, u32}
use qemu_spacewire.Mq.{send_spwtimecode}
use Masks.{
  c_spwctr_clearset_mask, c_spwctr_notreset_mask, c_spwctr_selfclear_mask, c_spwctr_rs, c_spwctr_ti,
  c_spwctr_ls, c_spwctr_ld, c_spwstr_ls, c_spwstr_lsrun, c_spwstr_ee, c_spwstr_ia, c_spwstr_we,
  c_spwstr_pe, c_spwstr_de, c_spwstr_er, c_spwstr_ce, c_spwstr_to, c_spwndr, c_spwclk_divisor_link,
  c_spwclk_divisor_run, c_spwkey_key, c_spwtim_time_ctrl, c_spwtim_time_counter,
  c_spwtdr_disconnect, c_spwtdr_timer64, c_spwchn_notreset_mask, c_spwchn_selfclear_mask,
  c_spwchn_clearset_mask, c_spwchn_at, c_spwchn_ra, c_spwchn_ta, c_spwchn_pr, c_spwchn_ps,
  c_spwchn_te, c_spwrxl_rx_max_length, c_spwtxd_tx_base_address, c_spwtxd_tx_desc_select,
  c_spwrxd_rx_base_address, c_spwrxd_rx_desc_select,
}

-- `t_grspw_reg`.
pub record Registers : Type 0 where
  pub ctr : ℕ
  pub str : ℕ
  pub ndr : ℕ
  pub clk : ℕ
  pub key : ℕ
  pub tim : ℕ
  pub tdr : ℕ
  pub chn : ℕ
  pub rxl : ℕ
  pub txd : ℕ
  pub rxd : ℕ

-- `t_grspw_reg_offset`; `other` is a value of the C type that is none of its enumerators.
pub data RegOffset : Type 0 where
  e_ctr e_str e_ndr e_clk e_key e_tim e_tdr e_chn e_rxl e_txd e_rxd : RegOffset
  other : ℕ → RegOffset

-- The number of the first core with RMAP, e_grspw_core3.
abbrev pub e_grspw_core3 : ℕ
e_grspw_core3 = 2

unfoldable pub reset_registers : ℕ → Registers → Registers
reset_registers grspw_id r = record {
  ctr =
      clearbit
        (bit_or (bit_and r.ctr c_spwctr_notreset_mask)
          (if ltb grspw_id e_grspw_core3 then 0x0001_0002 else 0xa001_0002))
        c_spwctr_rs;
  str = 0;
  ndr = 254;
  clk = 0x404;
  key = 0;
  tim = 0;
  tdr = 0x2_7140;
  chn = bit_or (bit_and r.chn c_spwchn_notreset_mask) 0;
  rxl = 0;
  txd = 0;
  rxd = 0;
}

-- The four parts of grlib_reggrspw_write_ctr, in their order: the store and the reset.
unfoldable pub store_ctr : ℕ → Registers → ℕ → Registers
store_ctr grspw_id r value =
    let reg = r.ctr in
    let clearset = deposit reg (bit_or c_spwctr_clearset_mask c_spwctr_notreset_mask) value in
    let set = setbit reg (bit_and value c_spwctr_selfclear_mask) in
    let stored = record r { ctr = bit_or clearset set } in
    if checkbit value c_spwctr_rs then reset_registers grspw_id stored else stored

-- Tick In: the registers after the time counter was incremented, before the time code is sent.
unfoldable pub count_tick : Registers → Registers
count_tick r = record r { tim = deposit r.tim c_spwtim_time_counter (u32 (r.tim + 1)) }

-- Link Start.
unfoldable pub link_start : Registers → ℕ → Registers
link_start r value =
    if checkbit value c_spwctr_ls
    then record r {
      str = deposit r.str c_spwstr_ls c_spwstr_lsrun;
      ctr = clearbit r.ctr c_spwctr_ld;
    }
    else r

-- Link Disable.
unfoldable pub link_disable : Registers → ℕ → Registers
link_disable r value =
    if checkbit value c_spwctr_ld
    then record r { str = deposit r.str c_spwstr_ls 0; ctr = clearbit r.ctr c_spwctr_ls }
    else r

module _ {p : Platform} where
  unfoldable pub tick_in : ℕ → Registers → ℕ → M p Registers
  tick_in grspw_id r value =
      if checkbit value c_spwctr_ti
      then (do
        let ticked = count_tick r
        send_spwtimecode grspw_id (u8 ticked.tim)
        pure (record ticked { ctr = clearbit ticked.ctr c_spwctr_ti }))
      else pure r

  -- The result that the C function returns is the field `ctr` of the new registers.
  unfoldable pub write_ctr : ℕ → Registers → ℕ → M p Registers
  write_ctr grspw_id r value = do
    ticked ← tick_in grspw_id (store_ctr grspw_id r value) value
    pure (link_disable (link_start ticked value) value)

-- `if (checkbit(value, flag)) reg = clearbit(reg, flag);`
unfoldable pub clear_written : ℕ → ℕ → ℕ → ℕ
clear_written value mask reg = if checkbit value mask then clearbit reg mask else reg

unfoldable pub write_str : Registers → ℕ → Registers
write_str r value =
    let ee = clear_written value c_spwstr_ee r.str in
    let ia = clear_written value c_spwstr_ia ee in
    let we = clear_written value c_spwstr_we ia in
    let pe = clear_written value c_spwstr_pe we in
    let de = clear_written value c_spwstr_de pe in
    let er = clear_written value c_spwstr_er de in
    let ce = clear_written value c_spwstr_ce er in
    record r { str = clear_written value c_spwstr_to ce }

unfoldable pub write_chn : Registers → ℕ → Registers
write_chn r value =
    let clearset = deposit r.chn (bit_or c_spwchn_clearset_mask c_spwchn_notreset_mask) value in
    let set = setbit clearset (bit_and value c_spwchn_selfclear_mask) in
    let at =
      if checkbit value c_spwchn_at then clearbit (clearbit set c_spwchn_te) c_spwchn_at else set in
    let ra = clear_written value c_spwchn_ra at in
    let ta = clear_written value c_spwchn_ta ra in
    let pr = clear_written value c_spwchn_pr ta in
    record r { chn = clear_written value c_spwchn_ps pr }

-- What the switch of grlib_reggrspw_write_registers stores, for every register but SPWCTR.
unfoldable pub store_register : RegOffset → Registers → ℕ → Registers
store_register e_ndr r value = record r { ndr = bit_and value c_spwndr }
store_register e_clk r value = record r {
  clk = bit_and value (bit_or c_spwclk_divisor_link c_spwclk_divisor_run);
}
store_register e_key r value = record r { key = bit_and value c_spwkey_key }
store_register e_tim r value = record r {
  tim = bit_and value (bit_or c_spwtim_time_ctrl c_spwtim_time_counter);
}
store_register e_tdr r value = record r {
  tdr = bit_and value (bit_or c_spwtdr_disconnect c_spwtdr_timer64);
}
store_register e_rxl r value = record r { rxl = bit_and value c_spwrxl_rx_max_length }
store_register e_txd r value = record r {
  txd = bit_and value (bit_or c_spwtxd_tx_base_address c_spwtxd_tx_desc_select);
}
store_register e_rxd r value = record r {
  rxd = bit_and value (bit_or c_spwrxd_rx_base_address c_spwrxd_rx_desc_select);
}
store_register e_str r value = write_str r value
store_register e_chn r value = write_chn r value
store_register _ r value = r

-- The field that an offset selects; 0 where there is none.
unfoldable pub select : RegOffset → Registers → ℕ
select e_ctr r = r.ctr
select e_str r = r.str
select e_ndr r = r.ndr
select e_clk r = r.clk
select e_key r = r.key
select e_tim r = r.tim
select e_tdr r = r.tdr
select e_chn r = r.chn
select e_rxl r = r.rxl
select e_txd r = r.txd
select e_rxd r = r.rxd
select (other n) r = 0

-- The value of the C enumeration.
unfoldable pub offset_value : RegOffset → ℕ
offset_value e_ctr = 0x00
offset_value e_str = 0x04
offset_value e_ndr = 0x08
offset_value e_clk = 0x0c
offset_value e_key = 0x10
offset_value e_tim = 0x14
offset_value e_tdr = 0x18
offset_value e_chn = 0x20
offset_value e_rxl = 0x24
offset_value e_txd = 0x28
offset_value e_rxd = 0x2c
offset_value (other n) = n

module _ {p : Platform} where
  -- The registers after the switch of grlib_reggrspw_write_registers.
  unfoldable pub switch_write : ℕ → Registers → RegOffset → ℕ → M p Registers
  switch_write grspw_id r e_ctr value = write_ctr grspw_id r value
  switch_write grspw_id r offset value = pure (store_register offset r value)

  -- `result` is the new value of the register written, and is only logged.
  unfoldable pub write_registers : ℕ → Registers → RegOffset → ℕ → M p Registers
  write_registers grspw_id r offset value = do
    written ← switch_write grspw_id r offset value
    append_log (trace_writereg grspw_id (offset_value offset) value (select offset written))
    pure written

  unfoldable pub read_registers : ℕ → Registers → RegOffset → M p ℕ
  read_registers grspw_id r offset = do
    let value = select offset r
    append_log (trace_readreg grspw_id (offset_value offset) value)
    pure value
