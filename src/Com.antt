-- ===== src/Com.antt =====
-- grspw/grlib_comgrspw.c: the DMA engines and the time codes of one core.
pub mod Descriptor
pub mod Valid
pub mod Receive
pub mod Filter
pub mod Used
pub mod Store
pub mod Deliver
pub mod Time
pub mod Transmit
pub mod Table
pub mod Round
pub mod Sends
pub mod Begin
pub mod Emit
pub mod Peer
pub mod Stale
pub mod Identity
pub mod Sample
mod Tests
use qemu_spacewire.Base.{
  ℕ, ◌+◌, ◌*◌, ◌%◌, Bool, true, false, not, ◌&&◌, ◌||◌, List, ◌∷◌, ltb, ◌==◌, if◌then◌else◌,
  get_elem?, bit_and,
}
use qemu_spacewire.Host.{
  Platform, Host, M, done, pure, ◌>>=◌, ◌>>◌, or_fault, append_log, check_warning, truncated,
  descriptor_disabled, discarded,
}
use qemu_spacewire.Host.Buffer.{slice, overwrite}
use qemu_spacewire.Util.Mask.{checkbit, setbit, clearbit, deposit}
use qemu_spacewire.Util.Word.{u32, bytes_of}
use qemu_spacewire.Util.Ram.{malloc, read_leon3_ram, write_leon3_ram}
use qemu_spacewire.Mq.{send_spwpacket, c_msgq_data}
use qemu_spacewire.Reg.{Registers}
use qemu_spacewire.Reg.Masks.{
  c_spwstr_to, c_spwstr_ee, c_spwctr_tq, c_spwctr_opm, c_spwchn_te, c_spwchn_re, c_spwchn_rd,
  c_spwchn_ns, c_spwchn_ti, c_spwchn_pr, c_spwchn_ps, c_spwrxl_rx_max_length,
  c_spwtxd_tx_desc_select, c_spwrxd_rx_desc_select,
}
use Descriptor.{
  word, c_spwtrw0_tr, c_spwtrw0_dc, c_spwtrw0_hc, c_spwtrw0_ep, c_spwtrw0_ie, c_spwtrw0_wr,
  c_spwtrw0_en, c_spwtrw0_packet_length, c_spwtdw0_ie, c_spwtdw0_wr, c_spwtdw0_en,
  c_spwtdw0_header_length, c_spwtdw2_data_length, c_nb_rx_descriptor, c_nb_tx_descriptor,
  sizeof_rx_desc, sizeof_tx_descr,
}

-- `t_grsw_device`, with the fields that the code uses; its interrupt line is named by `grspw_id`, and
-- the two tables are the bytes of their arrays, both of t_grspw_rx_desc.
pub record Device : Type 0 where
  pub grspw_id : ℕ
  pub grspw_reg : Registers
  pub rxd_map : List ℕ
  pub txd_map : List ℕ
  pub txd_cur : ℕ
  pub rxd_cur : ℕ

-- `t_recv_att`; `boolean` is an enumeration, of any unsigned value.
pub record RecvAtt : Type 0 where
  pub dc : ℕ
  pub hc : ℕ
  pub ep : ℕ

-- `boolean` of a test.
abbrev pub of_bool : Bool → ℕ
of_bool b = if b then 1 else 0

-- The status bits of a receive descriptor, GRSPWSim-010.
unfoldable pub set_status : ℕ → Bool → RecvAtt → ℕ
set_status ctrl cut att =
    let tr = setbit ctrl (u32 (of_bool cut * c_spwtrw0_tr)) in
    let dc = setbit tr (u32 (att.dc * c_spwtrw0_dc)) in
    let hc = setbit dc (u32 (att.hc * c_spwtrw0_hc)) in setbit hc (u32 (att.ep * c_spwtrw0_ep))

-- The receive descriptor's control word when a packet of `length` bytes was stored: GRSPWSim-010, -012
-- and the clear of EN.
unfoldable pub used_descriptor : ℕ → Bool → RecvAtt → ℕ → ℕ
used_descriptor ctrl cut att length =
    clearbit (deposit (set_status ctrl cut att) c_spwtrw0_packet_length length) c_spwtrw0_en

-- The index after `cur`, where the bit WR of the descriptor forces the first one.
unfoldable pub next_descriptor : Bool → ℕ → ℕ → ℕ
next_descriptor wrap cur count = if wrap then 0 else u32 (cur + 1) % count

-- The registers when a packet was stored and descriptor `cur` is the next.
unfoldable pub received_registers : Registers → RecvAtt → ℕ → Registers
received_registers r att cur = record r {
  str = if att.ep == 0 then r.str else setbit r.str c_spwstr_ee;
  chn = setbit r.chn c_spwchn_pr;
  rxd = deposit r.rxd c_spwrxd_rx_desc_select (u32 (cur * 8));
}

-- The registers when a packet was sent and descriptor `cur` is the next.
unfoldable pub sent_registers : Registers → ℕ → Registers
sent_registers r cur = record r {
  chn = setbit r.chn c_spwchn_ps;
  txd = deposit r.txd c_spwtxd_tx_desc_select (u32 (cur * 16));
}

-- How grlib_comgrspw_txenable gets to its wait for the acknowledgement, with its local variables
-- `txd_addr` and `txd_cur`, or to its end.
pub data TxState : Type 0 where
  waiting : ℕ → ℕ → TxState
  stopped : TxState

module _ {p : Platform} where
  unfoldable pub qemu_irq_pulse : ℕ → M p (Unit {0})
  qemu_irq_pulse line h = done (tt, record h { irq_pulses = line ∷ h.irq_pulses })

  -- A statement under an `if` without `else`.
  abbrev pub when : Bool → M p (Unit {0}) → M p (Unit {0})
  when b m = if b then m else pure tt

  unfoldable pub rxtimecode : Device → ℕ → M p Device
  rxtimecode d timecode =
      let r = record d.grspw_reg { tim = timecode; str = setbit d.grspw_reg.str c_spwstr_to } in
      if ltb d.grspw_reg.tim timecode
      then (do
        when (checkbit r.ctr c_spwctr_tq) (qemu_irq_pulse d.grspw_id)
        pure (record d { grspw_reg = r }))
      else pure d

  -- The packet is discarded where the bit NS is '0', with a warning.
  unfoldable pub warn_discarded : Registers → M p (Unit {0})
  warn_discarded r = when (not (checkbit r.chn c_spwchn_ns)) (append_log (check_warning discarded))

  -- The branch of an enabled descriptor: `descriptor` is its contents, in `rxd_map`.
  unfoldable pub store_packet : Device → List ℕ → List ℕ → ℕ → RecvAtt → M p Device
  store_packet d descriptor packet len att = do
    let r = d.grspw_reg
    let max_length = bit_and r.rxl c_spwrxl_rx_max_length
    let cut = ltb max_length len
    let length = if cut then max_length else len
    let ctrl = used_descriptor (word 0 descriptor) cut att length
    when cut (append_log (check_warning truncated))
    write_leon3_ram (word 1 descriptor) packet length false
    rxd_map ← or_fault (overwrite d.rxd_map (8 * d.rxd_cur) (bytes_of ctrl))
    write_leon3_ram r.rxd (bytes_of ctrl) 4 true
    let cur = next_descriptor (checkbit ctrl c_spwtrw0_wr) d.rxd_cur c_nb_rx_descriptor
    let received = received_registers r att cur
    when (checkbit ctrl c_spwtrw0_ie && checkbit received.chn c_spwchn_ti)
        (qemu_irq_pulse d.grspw_id)
    pure (record d { grspw_reg = received; rxd_map = rxd_map; rxd_cur = cur })

  -- The branch of a disabled descriptor.
  unfoldable pub refuse_packet : Device → M p Device
  refuse_packet d = do
    let r = record d.grspw_reg { chn = clearbit d.grspw_reg.chn c_spwchn_rd }
    append_log (check_warning descriptor_disabled)
    warn_discarded r
    pure (record d { grspw_reg = r })

  -- GRSPWSim-006 and what follows where the bit RD is '1'.
  unfoldable pub receive_by_descriptor : Device → List ℕ → ℕ → RecvAtt → M p Device
  receive_by_descriptor d packet len att = do
    old ← or_fault (slice (8 * d.rxd_cur) sizeof_rx_desc d.rxd_map)
    descriptor ← read_leon3_ram d.grspw_reg.rxd old sizeof_rx_desc true
    rxd_map ← or_fault (overwrite d.rxd_map (8 * d.rxd_cur) descriptor)
    let loaded = record d { rxd_map = rxd_map }
    (if checkbit (word 0 descriptor) c_spwtrw0_en
        then store_packet loaded descriptor packet len att
        else refuse_packet loaded)

  -- GRSPWSim-005: a packet that is accepted.
  unfoldable pub accept_packet : Device → List ℕ → ℕ → RecvAtt → M p Device
  accept_packet d packet len att = do
    taken ←
        (if checkbit d.grspw_reg.chn c_spwchn_rd
          then receive_by_descriptor d packet len att
          else pure d)
    warn_discarded taken.grspw_reg
    pure taken

  unfoldable pub rxenable : Device → List ℕ → ℕ → RecvAtt → M p Device
  rxenable d packet len att =
      if checkbit d.grspw_reg.chn c_spwchn_re
      then (or_fault (get_elem? packet 0) >>= λ node_addr.
          if checkbit d.grspw_reg.ctr c_spwctr_opm || (d.grspw_reg.ndr == node_addr)
          then accept_packet d packet len att
          else pure d)
      else pure d

  -- GRSPWSim-105 to the wait. The lengths have 8 and 24 bits and are within g_txheader and g_txdata,
  -- for which a buffer of the length stands.
  unfoldable pub send_by_descriptor : Device → List ℕ → M p (TxState × Device)
  send_by_descriptor d descriptor = do
    let r = d.grspw_reg
    let data_len = bit_and (word 2 descriptor) c_spwtdw2_data_length
    let header_len = bit_and (word 0 descriptor) c_spwtdw0_header_length
    payload ← read_leon3_ram (word 3 descriptor) (malloc data_len) data_len false
    header ← read_leon3_ram (word 1 descriptor) (malloc header_len) header_len false
    send_spwpacket d.grspw_id c_msgq_data header header_len payload data_len
    let cur =
        next_descriptor (checkbit (word 0 descriptor) c_spwtdw0_wr) d.txd_cur c_nb_tx_descriptor
    pure (waiting r.txd d.txd_cur, record d { grspw_reg = sent_registers r cur; txd_cur = cur })

  -- grlib_comgrspw_txenable up to grlib_coregrspw_txwaitack.
  unfoldable pub begin_txenable : Device → M p (TxState × Device)
  begin_txenable d =
      if checkbit d.grspw_reg.chn c_spwchn_te
      then (do
        old ← or_fault (slice (8 * d.txd_cur) sizeof_tx_descr d.txd_map)
        descriptor ← read_leon3_ram d.grspw_reg.txd old sizeof_tx_descr true
        txd_map ← or_fault (overwrite d.txd_map (8 * d.txd_cur) descriptor)
        (if checkbit (word 0 descriptor) c_spwtdw0_en
            then send_by_descriptor (record d { txd_map = txd_map }) descriptor
            else pure (
              stopped,
              record d {
                txd_map = txd_map;
                grspw_reg = record d.grspw_reg { chn = clearbit d.grspw_reg.chn c_spwchn_te };
              },
            )))
      else pure (stopped, d)

  -- grlib_comgrspw_txenable from grlib_coregrspw_txwaitack on.
  unfoldable pub finish_txenable : ℕ → ℕ → Device → M p Device
  finish_txenable txd_addr cur d = do
    descriptor ← or_fault (slice (8 * cur) sizeof_tx_descr d.txd_map)
    let ctrl = clearbit (word 0 descriptor) c_spwtdw0_en
    txd_map ← or_fault (overwrite d.txd_map (8 * cur) (bytes_of ctrl))
    write_leon3_ram txd_addr (bytes_of ctrl) 4 true
    when (checkbit ctrl c_spwtdw0_ie && checkbit d.grspw_reg.chn c_spwchn_ti)
        (qemu_irq_pulse d.grspw_id)
    pure (record d { txd_map = txd_map })

  -- The whole of grlib_comgrspw_txenable. `txwaitack` is what the other threads do to the device
  -- during the wait; the result is the `stop` of the source.
  unfoldable pub txenable : (Device → M p Device) → Device → M p (Bool × Device)
  txenable txwaitack d = begin_txenable d >>= λ r. elim r.0 [
    | stopped ↦ pure (true, r.1)
    | waiting txd_addr cur ↦
        txwaitack r.1 >>= λ d₂. finish_txenable txd_addr cur d₂ >>= λ d₃. pure (false, d₃)
  ]
