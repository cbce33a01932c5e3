-- ===== src/Mq.antt =====
-- grspw/grlib_mqgrspw.c: the packets between the simulated core and the external device.
pub mod Frame
pub mod Receive
pub mod RoundTrip
pub mod Header
pub mod Bounds
pub mod Malformed
pub mod Plain
pub mod Lifecycle
pub mod Send
mod Tests
use qemu_spacewire.Base.{
  ℕ, zero, suc, ◌+◌, ◌%◌, ◌^◌, Bool, true, false, ◌||◌, List, [], ◌∷◌, Option, none, some, ltb, leb,
  if◌then◌else◌,
}
use qemu_spacewire.Host.{
  Platform, Host, M, Outcome, done, fatal, fault, pure, ◌>>=◌, ◌>>◌, or_fault, check_fatal,
}
use qemu_spacewire.Host.Buffer.{prefix, slice, overwrite}
use qemu_spacewire.Util.Word.{u8, u32, bytes_of, word_of, byte_of}

abbrev pub overhead : ℕ
overhead = 7

abbrev pub c_maxq_size : ℕ
c_maxq_size = 1024

abbrev pub c_msgq_ack : ℕ
c_msgq_ack = 0

abbrev pub c_msgq_data : ℕ
c_msgq_data = 1

abbrev pub c_msgq_time : ℕ
c_msgq_time = 2

abbrev pub c_spw_id_idx : ℕ
c_spw_id_idx = 0

abbrev pub c_pword_idx : ℕ
c_pword_idx = 1

abbrev pub c_header_idx : ℕ
c_header_idx = 2

abbrev pub c_data_size : ℕ
c_data_size = 4

-- The number of simulated cores, e_grspw_corenb.
abbrev pub e_grspw_corenb : ℕ
e_grspw_corenb = 4

-- The two queues: `spwq` from the core to the device, `devq` from the device to the core.
pub data Mqd : Type 0 where
  spwq devq : Mqd

-- What grlib_mqgrspw_receive_packet stores through its pointers.
pub record Packet : Type 0 where
  pub grspw_id : ℕ
  pub pword : ℕ
  pub header : List ℕ
  pub header_len : ℕ
  pub payload : List ℕ
  pub data_len : ℕ

module _ {p : Platform} where
  -- Bytes stored into `txbuffer` at an offset.
  unfoldable pub store_tx : ℕ → List ℕ → M p (Unit {0})
  store_tx offset bytes h = elim (overwrite h.txbuffer offset bytes) [
    | none ↦ fault
    | some buffer ↦ done (tt, record h { txbuffer = buffer })
  ]

  -- `if (len > 0) memcpy(&txbuffer[offset], src, len);`
  unfoldable pub memcpy_tx : ℕ → List ℕ → ℕ → M p (Unit {0})
  memcpy_tx offset src len =
      if ltb 0 len then (or_fault (prefix len src) >>= store_tx offset) else pure tt

  -- `CHECK_FATAL(0 > mq_send(mq, txbuffer, length, 0), ...)`
  unfoldable pub mq_send : Mqd → ℕ → M p (Unit {0})
  mq_send spwq len h = elim (prefix len h.txbuffer) [
    | none ↦ fault
    | some message ↦ elim (p.mq_send h.spwq message) [
      | none ↦ fatal
      | some queue ↦ done (tt, record h { spwq = queue })
    ]
  ]
  mq_send devq len h = elim (prefix len h.txbuffer) [
    | none ↦ fault
    | some message ↦ elim (p.mq_send h.devq message) [
      | none ↦ fatal
      | some queue ↦ done (tt, record h { devq = queue })
    ]
  ]

  unfoldable pub send_packet : Mqd → ℕ → ℕ → List ℕ → ℕ → List ℕ → ℕ → M p (Unit {0})
  send_packet mq grspw_id pword header header_len payload data_len = do
    store_tx c_spw_id_idx (u8 grspw_id ∷ [])
    store_tx c_pword_idx (pword ∷ [])
    store_tx c_header_idx (u8 header_len ∷ [])
    memcpy_tx c_header_idx header header_len
    store_tx (u32 (c_header_idx + header_len + 1)) (bytes_of data_len)
    memcpy_tx (u32 (c_header_idx + header_len + c_data_size + 1)) payload data_len
    mq_send mq (u32 (overhead + header_len + data_len))

  unfoldable pub send_spwpacket : ℕ → ℕ → List ℕ → ℕ → List ℕ → ℕ → M p (Unit {0})
  send_spwpacket = send_packet spwq

  unfoldable pub send_spwtimecode : ℕ → ℕ → M p (Unit {0})
  send_spwtimecode grspw_id time_code =
      send_packet spwq grspw_id c_msgq_time [] 0 (time_code ∷ []) 1

  unfoldable pub send_devpacket : ℕ → ℕ → List ℕ → ℕ → List ℕ → ℕ → M p (Unit {0})
  send_devpacket = send_packet devq

  -- `mq_receive(mq, rxbuffer, C_MAXQ_SIZE, NULL)` with its CHECK_FATAL.
  unfoldable pub mq_receive : Mqd → M p (Unit {0})
  mq_receive spwq h = elim (p.mq_receive h.spwq) [
    | none ↦ fatal
    | some (message, queue) ↦ elim (overwrite h.rxbuffer 0 message) [
      | none ↦ fault
      | some buffer ↦ done (tt, record h { rxbuffer = buffer; spwq = queue })
    ]
  ]
  mq_receive devq h = elim (p.mq_receive h.devq) [
    | none ↦ fatal
    | some (message, queue) ↦ elim (overwrite h.rxbuffer 0 message) [
      | none ↦ fault
      | some buffer ↦ done (tt, record h { rxbuffer = buffer; devq = queue })
    ]
  ]

  -- The `len` bytes of `rxbuffer` at an offset.
  unfoldable pub load_rx : ℕ → ℕ → M p (List ℕ)
  load_rx offset len h = elim (slice offset len h.rxbuffer) [
    | none ↦ fault
    | some bytes ↦ done (bytes, h)
  ]

  -- `if (len > 0) memcpy(dest, &rxbuffer[offset], len);`
  unfoldable pub memcpy_rx : List ℕ → ℕ → ℕ → M p (List ℕ)
  memcpy_rx dest offset len =
      if ltb 0 len
      then (load_rx offset len >>= λ bytes. or_fault (overwrite dest 0 bytes))
      else pure dest

  unfoldable pub receive_packet : Mqd → List ℕ → List ℕ → M p Packet
  receive_packet mq header payload = do
    mq_receive mq
    id ← load_rx c_spw_id_idx 1
    pword ← load_rx c_pword_idx 1
    len ← load_rx c_header_idx 1
    let header_len = byte_of len
    header' ← memcpy_rx header c_header_idx header_len
    dlen ← load_rx (c_header_idx + header_len + 1) 4
    let data_len = word_of dlen
    payload' ← memcpy_rx payload (c_header_idx + header_len + c_data_size + 1) data_len
    check_fatal (leb e_grspw_corenb (byte_of id))
    pure (record {
      grspw_id = byte_of id;
      pword = byte_of pword;
      header = header';
      header_len = header_len;
      payload = payload';
      data_len = data_len;
    })

  unfoldable pub receive_spwpacket : List ℕ → List ℕ → M p Packet
  receive_spwpacket = receive_packet spwq

  unfoldable pub receive_devpacket : List ℕ → List ℕ → M p Packet
  receive_devpacket = receive_packet devq
