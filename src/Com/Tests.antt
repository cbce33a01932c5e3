-- ===== src/Com/Tests.antt =====
-- The theorems on the DMA engines and the time codes at a concrete device.
use qemu_spacewire.Base.{
  ℕ, ◌<◌, ◌*◌, length, none, true, ◌&&◌, ◌||◌, ◌==◌, if◌then◌else◌, List, [], ◌∷◌, some, ◌≡◌, refl,
  arith, ◌≤◌, ◌++◌, false,
}
use qemu_spacewire.Base.Bits.{bit, flag}
use qemu_spacewire.Host.{check_warning, truncated, discarded, Host, done, fault, fatal, pure, ◌>>=◌}
use qemu_spacewire.Host.Buffer.{slice, prefix}
use qemu_spacewire.Host.Sample.{sample, sample_host, zeros, length-zeros}
use qemu_spacewire.Util.Mask.{checkbit, clearbit}
use qemu_spacewire.Util.Word.{bytes_of, word_of}
use qemu_spacewire.Util.Swap.{reverse_words}
use qemu_spacewire.Com.{
  Device, rxenable, rxtimecode, txenable, finish_txenable, begin_txenable, overwrite, waiting,
  next_descriptor, u32,
}
use qemu_spacewire.Reg.{store_register, write_registers, e_rxd}
use qemu_spacewire.Com.Descriptor.{word}
use qemu_spacewire.Com.Sample.{
  registers, device, device-IsValid, att, host, sample-IsSized, registers-IsValid,
}
use qemu_spacewire.Com.Stale.{rewritten, wraps, rxd_write_keeps_index}
use qemu_spacewire.Com.Peer.{IsReady, packet_reaches_peer}
use qemu_spacewire.Mq.RoundTrip.{IsEmpty, packet}
use qemu_spacewire.Mq.{receive_spwpacket}
use qemu_spacewire.Com.Emit.{message, emitted, begin_txenable_emits, long_packet_is_fatal}
use qemu_spacewire.Com.Transmit.{tx_descriptor_at}
use qemu_spacewire.Com.Valid.{IsValidDevice}
use qemu_spacewire.Com.Receive.{rxenable-IsValid}
use qemu_spacewire.Com.Filter.{rxenable_filter}
use qemu_spacewire.Com.Deliver.{rxenable_delivers}
use qemu_spacewire.Com.Used.{used_bit}
use qemu_spacewire.Com.Store.{descriptor_at}
use qemu_spacewire.Mq.{spwq}
use qemu_spacewire.Mq.Frame.{deliver}
use qemu_spacewire.Com.Time.{rxtimecode_lem, pulsed_if}
use qemu_spacewire.Com.Transmit.{last_tx_descriptor_faults, finish_txenable_lem, txenable_stops}

rxenable-IsValid_example :
    (d' : Device) × (h' : Host sample) × (rxenable device (254 ∷ 7 ∷ []) 2 att host ≡ done (d', h'))
    × IsValidDevice d'
rxenable-IsValid_example =
    rxenable-IsValid device (254 ∷ 7 ∷ []) 2 att host sample-IsSized
      (device-IsValid 0 (omega arith)) (omega arith) (omega arith)

-- A packet for another node is dropped.
rxenable_filter_example : rxenable device (9 ∷ 7 ∷ []) 2 att host ≡ done (device, host)
unfolding bit
rxenable_filter_example = rxenable_filter device 9 (7 ∷ []) 2 att host refl

rxenable_delivers_example :
    (d' : Device) × (h' : Host sample) × (front : List ℕ) × (ctrl : ℕ) × (rxenable device
        (254 ∷ 7 ∷ 8 ∷ 9 ∷ 10 ∷ 11 ∷ [])
        6
        att
        host
      ≡ done (d', h'))
    × (prefix 4 (254 ∷ 7 ∷ 8 ∷ 9 ∷ 10 ∷ 11 ∷ []) ≡ some front)
    × ((i : ℕ) → i < 32 → bit ctrl i ≡ used_bit (flag 25) true att 4 i)
    × (h' ≡ record host {
      memory =
          sample.address_space_write
            (sample.address_space_write host.memory 0 front)
            0
            (reverse_words (bytes_of ctrl));
      irq_pulses = [];
      log = check_warning discarded ∷ (check_warning truncated ∷ []);
    })
    × (d'.rxd_cur ≡ 1)
    × ((i : ℕ)
        → i < 32
        → (bit d'.grspw_reg.chn i ≡ bit 0x803 i || (i == 6))
          × (bit d'.grspw_reg.str i ≡ bit 0 i || ((i == 8) && false))
          × (bit d'.grspw_reg.rxd i
              ≡ (if bit 0x3f8 i then bit (u32 (d'.rxd_cur * 8)) i else bit 0 i)))
    × (slice 0 4 d'.rxd_map ≡ some (bytes_of ctrl))
    × (d' ≡ record device {
      grspw_reg = record registers {
        chn = d'.grspw_reg.chn;
        str = d'.grspw_reg.str;
        rxd = d'.grspw_reg.rxd;
      };
      rxd_map = d'.rxd_map;
      rxd_cur = d'.rxd_cur;
    })
unfolding bit word word_of reverse_words flag
rxenable_delivers_example =
    rxenable_delivers device 254 (7 ∷ 8 ∷ 9 ∷ 10 ∷ 11 ∷ []) 6 att host sample-IsSized
      (device-IsValid 0 (omega arith)) (omega arith) refl refl refl

rxtimecode_lem_example :
    (d' : Device) × (h' : Host sample) × (rxtimecode device 9 host ≡ done (d', h'))
    × (d'.grspw_reg.tim ≡ 9)
    × ((i : ℕ) → bit d'.grspw_reg.str i ≡ bit 0 i || (true && (i == 0)))
    × (h'.irq_pulses ≡ [])
unfolding bit
rxtimecode_lem_example = rxtimecode_lem device 9 host

last_tx_descriptor_faults_example :
    txenable (λ d. pure d) (record device { txd_cur = 63 }) host ≡ fault
unfolding bit
last_tx_descriptor_faults_example =
    last_tx_descriptor_faults (record device { txd_cur = 63 }) (λ d. pure d) host
      (device-IsValid 63 (omega arith)) refl refl

finish_txenable_lem_example :
    (d' : Device) × (h' : Host sample) × (finish_txenable 0 0 device host ≡ done (d', h'))
    × (h'.memory
        ≡ sample.address_space_write host.memory 0
            (reverse_words (bytes_of (clearbit (word 0 (zeros 16)) (flag 12)))))
    × (h'.irq_pulses
        ≡ pulsed_if
            (checkbit (clearbit (word 0 (zeros 16)) (flag 12)) (flag 14) && bit 0x803 2)
            1
            [])
    × (d'.grspw_reg ≡ registers)
    × (d'.txd_cur ≡ 0)
    × IsValidDevice d'
unfolding slice prefix
finish_txenable_lem_example =
    finish_txenable_lem 0 0 device (zeros 16) host (device-IsValid 0 (omega arith)) (omega arith)
      refl

txenable_stops_example :
    (d' : Device) × (txenable (λ d. pure d) device host ≡ done ((true, d'), host))
    × (txenable (λ d. pure d) d' host ≡ done ((true, d'), host))
    × (d'.grspw_reg ≡ record registers { chn = clearbit 0x803 (flag 0) })
unfolding bit word word_of reverse_words
txenable_stops_example =
    txenable_stops device (λ d. pure d) host sample-IsSized (device-IsValid 0 (omega arith))
      (omega arith) refl refl

-- A guest whose descriptor at address 0 is enabled, with a header of one byte and no data.
abbrev sender : Host sample
sender = record (sample_host 64) { memory = λ a. if a == 2 then 0x10 else if a == 3 then 1 else 0 }

begin_txenable_emits_example :
    (d' : Device) × (stale : ℕ) × (rest : List ℕ) × (begin_txenable device sender
      ≡ (deliver spwq (message device (tx_descriptor_at device sender) stale sender) >>= λ _.
            pure (waiting 0 0, d'))
          (record sender {
            txbuffer = message device (tx_descriptor_at device sender) stale sender ++ rest;
          }))
    × (d'.txd_cur ≡ 1)
    × ((i : ℕ)
        → i < 32
        → (bit d'.grspw_reg.chn i ≡ bit 0x803 i || (i == 5))
          × (bit d'.grspw_reg.txd i
              ≡ (if bit 0x3f0 i then bit (u32 (d'.txd_cur * 16)) i else bit 0 i)))
    × (overwrite device.txd_map 0 (tx_descriptor_at device sender) ≡ some d'.txd_map)
    × (d' ≡ record device {
      grspw_reg = record registers { chn = d'.grspw_reg.chn; txd = d'.grspw_reg.txd };
      txd_map = d'.txd_map;
      txd_cur = d'.txd_cur;
    })
unfolding bit word word_of reverse_words
begin_txenable_emits_example =
    begin_txenable_emits sample-IsSized device sender (device-IsValid 0 (omega arith)) (omega arith)
      refl refl (omega arith)

-- A header of one byte and 2000 bytes of data.
abbrev long_sender : Host sample
long_sender = record (sample_host 2048) {
  memory = λ a.
      if a == 2
      then 0x10
      else if a == 3
      then 1
      else if a == 10
      then 7
      else if a == 11
      then 208
      else 0;
}

refuses_long : (bytes : List ℕ) → 1024 < length bytes → sample.mq_send long_sender.spwq bytes ≡ none
refuses_long bytes long = ground (arith, long)

long_packet_is_fatal_example : begin_txenable device long_sender ≡ fatal
unfolding bit word word_of reverse_words
long_packet_is_fatal_example =
    long_packet_is_fatal sample-IsSized device long_sender (device-IsValid 0 (omega arith))
      (omega arith) refl refl (omega (arith, length-zeros 2048)) refuses_long (omega arith)

IsEmpty-spwq : IsEmpty sample []
IsEmpty-spwq = record { after = λ m. m ∷ []; sends = λ m h. ground arith; receives = λ m h. refl }

-- The guest of `sender`, whose header is the byte 1 at address 3, with room for the longest message.
abbrev one_byte_sender : Host sample
one_byte_sender = record (sample_host 1024) {
  memory = λ a. if a == 2 then 0x10 else if a == 3 then 1 else if a == 7 then 3 else 0;
}

one_byte_sender-IsReady : IsReady device one_byte_sender
unfolding bit word word_of reverse_words
one_byte_sender-IsReady = record {
  device_valid = device-IsValid 0 (omega arith);
  core_lt = omega arith;
  cur_lt = omega arith;
  transmits = refl;
  enabled = refl;
  fits = omega arith;
  room = omega (arith, length-zeros 1024);
  own = refl;
}

packet_reaches_peer_example :
    (h' : Host sample) × (g' : Host sample) × (xs : List ℕ) × (begin_txenable device one_byte_sender
      ≡ done ((waiting 0 0, emitted device (tx_descriptor_at device one_byte_sender) xs), h'))
    × (h'.memory ≡ one_byte_sender.memory)
    × (receive_spwpacket (0 ∷ (0 ∷ [])) (0 ∷ []) (record (sample_host 1024) { spwq = h'.spwq })
        ≡ done (packet 1 1 (1 ∷ []) [] (0 ∷ []) (0 ∷ []), g'))
    × (g'.spwq ≡ [])
unfolding word word_of reverse_words
packet_reaches_peer_example =
    packet_reaches_peer device one_byte_sender (sample_host 1024) (0 ∷ []) (0 ∷ []) [] (0 ∷ [])
      sample-IsSized IsEmpty-spwq one_byte_sender-IsReady (omega (arith, length-zeros 1024)) refl
      refl

-- Five packets have been received.
abbrev used : Device
used = record device { rxd_cur = 5 }

used-IsValid : IsValidDevice used
used-IsValid = record {
  registers_valid = registers-IsValid;
  rxd_map_length = length-zeros 1024;
  txd_map_length = length-zeros 512;
  rxd_cur_lt = omega arith;
  txd_cur_lt = omega arith;
}

rxd_write_keeps_index_example :
    (d' : Device) × (h' : Host sample) × ((write_registers 1 registers e_rxd 0 >>= λ r.
    rxenable (record used { grspw_reg = r }) (254 ∷ (7 ∷ [])) 2 att)
        host
      ≡ done (d', h'))
    × (d'.rxd_cur
        ≡ next_descriptor
            (wraps (rewritten used 0) (descriptor_at (rewritten used 0) host) 2 att)
            5
            128)
    × ((i : ℕ) → 3 ≤ i → i < 10 → bit d'.grspw_reg.rxd i ≡ bit (u32 (d'.rxd_cur * 8)) i)
unfolding bit word word_of reverse_words store_register
rxd_write_keeps_index_example =
    rxd_write_keeps_index used 0 host 254 (7 ∷ []) 2 att sample-IsSized used-IsValid (omega arith)
      refl refl refl
