-- ===== src/System/Tests.antt =====
-- The steps of the threads from a concrete state.
use qemu_spacewire.Base.{
  ◌≡◌, refl, arith, true, false, [], ◌∷◌, if◌then◌else◌, List, ◌==◌, ℕ, some, set,
}
use qemu_spacewire.Host.{Host, done, ◌>>=◌, trace_readreg}
use qemu_spacewire.Host.Buffer.{prefix}
use qemu_spacewire.Host.Sample.{sample, sample_host, zeros}
use qemu_spacewire.Util.Word.{word_of}
use qemu_spacewire.Util.Swap.{reverse_words}
use qemu_spacewire.Com.Descriptor.{word}
use qemu_spacewire.Mq.{c_msgq_ack, c_msgq_time}
use qemu_spacewire.Mq.Plain.{plain_message}
use qemu_spacewire.Com.Sample.{device, device-IsValid, att, sample-IsSized}
use qemu_spacewire.Core.{RxThread, locktxsem, unlocktxsem}
use qemu_spacewire.Reg.{reset_registers, read_registers, select, offset_value}
use qemu_spacewire.Apb.{
  returned, Pending, apb_read, core_id, reg_offset, to_offset, init_cores, init_core,
}
use qemu_spacewire.System.{
  System, idle, sent, sleeping, woken, signal, Reach, here, next, external, bus_read, start, Step,
}
use qemu_spacewire.System.Reachable.{IsValidSystem, Reach-IsValidSystem}
use qemu_spacewire.System.Acknowledge.{acknowledgement, Acknowledges, acknowledgement_lost}
use qemu_spacewire.System.Lock.{IsRead, reads_blocked}
use qemu_spacewire.System.Reads.{defined_bits, reads_return_words}
use qemu_spacewire.Base.Within.{Within, IsWord}
use qemu_spacewire.System.Deliver.{data_message, packet_delivered}
use qemu_spacewire.System.Identity.{numbers, cores_keep_numbers}
use qemu_spacewire.System.Progress.{Message, messages_are_handled}
use qemu_spacewire.Com.Store.{stored_length, descriptor_at, delivered, after_receipt}
use qemu_spacewire.Base.Bits.{bit}

abbrev rx : RxThread
rx = record { g_rxheader = zeros 8; g_rxdata = zeros 8; recv_att = att }

-- A write to core 2 that transmits its first descriptor.
abbrev pending : Pending
pending = record { core = 2; txd_addr = 0; txd_cur = 0 }

-- The external device has acknowledged.
abbrev acknowledged : Host sample
acknowledged = record (sample_host 64) { devq = acknowledgement 1 ∷ [] }

acknowledged-Acknowledges : Acknowledges acknowledged 1 []
acknowledged-Acknowledges = record { core_lt = omega arith; room = omega arith; arrives = refl }

abbrev waiting_system : System sample
waiting_system = record {
  cores = device ∷ device ∷ device ∷ device ∷ [];
  rx = rx;
  bus = sleeping pending;
  mutex_held = false;
  host = acknowledged;
}

-- The write has not come to its wait.
abbrev sent_system : System sample
sent_system = record waiting_system { bus = sent pending }

-- The write is over.
abbrev idle_system : System sample
idle_system = record waiting_system { bus = idle; mutex_held = true }

waiting_system-IsValid : IsValidSystem waiting_system
waiting_system-IsValid =
    let d = device-IsValid 0 (omega arith) in
    record {
      cores_valid = record { count = refl; all_valid = (d, (d, (d, (d, tt)))) };
      rx_valid = omega arith;
      bus_valid = (record { core_lt = omega arith; cur_lt = omega arith }, refl);
    }

-- The external device puts a message into the queue.
abbrev message_arrives : System sample → System sample
message_arrives s = record s {
  host = record s.host { devq = acknowledgement 1 ∷ (acknowledgement 2 ∷ []) };
}

-- The guest reads SPWNDR of core 0 after the initialisation.
abbrev ndr_logged : Host sample
ndr_logged = record acknowledged { log = trace_readreg 0 8 254 ∷ [] }

first_read :
    apb_read false (start rx acknowledged).cores 8 acknowledged
    ≡ done (returned 254 false, ndr_logged)
unfolding apb_read core_id reg_offset to_offset start init_cores init_core reset_registers
    read_registers select offset_value locktxsem unlocktxsem ◌>>=◌
first_read = refl

Reach-IsValidSystem_example : IsValidSystem (record (start rx acknowledged) { host = ndr_logged })
unfolding start
Reach-IsValidSystem_example =
    Reach-IsValidSystem rx acknowledged sample-IsSized (omega arith)
      (next here (bus_read 8 254 false ndr_logged refl first_read refl))

acknowledgement_lost_example :
    (t : System sample) × Reach sent_system t
    × (t.bus ≡ sleeping pending)
    × (t.host.devq ≡ [])
    × (t.cores ≡ sent_system.cores)
acknowledgement_lost_example =
    acknowledgement_lost sent_system pending 1 [] refl acknowledged-Acknowledges

-- The same message arrives again.
abbrev arrival : Step (message_arrives idle_system) (message_arrives idle_system)
arrival = external [] (acknowledgement 1 ∷ (acknowledgement 2 ∷ [])) (λ a. 0) refl

reads_blocked_example : ¬ IsRead arrival
reads_blocked_example =
    reads_blocked {s = idle_system} refl refl
      (next here (external [] (acknowledgement 1 ∷ (acknowledgement 2 ∷ [])) (λ a. 0) refl)) arrival

-- The next message is a packet of three bytes for core 1, which has an enabled descriptor.
abbrev served : System sample
served = record waiting_system {
  host = record (sample_host 64) {
    devq = data_message 1 (254 ∷ (7 ∷ (8 ∷ []))) ∷ [];
    memory = λ a. if a == 0 then 2 else 0;
  };
}

served-IsValid : IsValidSystem served
served-IsValid = record {
  cores_valid = waiting_system-IsValid.cores_valid;
  rx_valid = waiting_system-IsValid.rx_valid;
  bus_valid = waiting_system-IsValid.bus_valid;
}

packet_delivered_example :
    (t : System sample) × (front : List ℕ) × (xs : List ℕ) × (buffer : List ℕ) × Step served t
    × (prefix (stored_length device 3) (254 ∷ (7 ∷ (8 ∷ []))) ≡ some front)
    × (t.host
        ≡ after_receipt device
            (descriptor_at device served.host)
            3
            att
            front
            (record served.host { rxbuffer = buffer; devq = [] }))
    × (t.cores ≡ set served.cores 1 (delivered device (descriptor_at device served.host) 3 att xs))
    × (t.bus ≡ sleeping pending)
    × (t.mutex_held ≡ false)
unfolding bit word word_of reverse_words
packet_delivered_example =
    packet_delivered served device 1 254 (7 ∷ (8 ∷ [])) [] sample-IsSized served-IsValid
      (record {
        core_lt = omega arith;
        fits = omega arith;
        room = omega arith;
        data_room = omega arith;
        arrives = refl;
      })
      refl refl refl refl

reads_return_words_example :
    (value : ℕ) × (apb_read false (start rx acknowledged).cores 8 acknowledged
      ≡ done (
        returned value false,
        record acknowledged {
          log = trace_readreg (core_id 8) (offset_value (reg_offset 8)) value ∷ [];
        },
      ))
    × Within value (defined_bits (reg_offset 8))
    × IsWord value
unfolding start
reads_return_words_example =
    reads_return_words rx acknowledged (start rx acknowledged) 8 sample-IsSized (omega arith) here

-- The current time for core 3, then the acknowledgement of core 1.
abbrev time_message : Message
time_message = record { grspw_id = 3; pword = c_msgq_time; packet = 0x81 ∷ [] }

abbrev ack_message : Message
ack_message = record { grspw_id = 1; pword = c_msgq_ack; packet = [] }

abbrev queued : System sample
queued = record waiting_system {
  host = record (sample_host 64) {
    devq = plain_message 3 c_msgq_time (0x81 ∷ []) ∷ (plain_message 1 c_msgq_ack [] ∷ []);
  };
}

queued-IsValid : IsValidSystem queued
queued-IsValid = record {
  cores_valid = waiting_system-IsValid.cores_valid;
  rx_valid = waiting_system-IsValid.rx_valid;
  bus_valid = waiting_system-IsValid.bus_valid;
}

messages_are_handled_example :
    (t : System sample) × Reach queued t
    × (t.host.devq ≡ [])
    × (t.bus ≡ woken pending)
    × IsValidSystem t
unfolding signal
messages_are_handled_example =
    messages_are_handled queued (time_message ∷ (ack_message ∷ [])) [] sample-IsSized queued-IsValid
      (
        record {
          core_lt = omega arith;
          length_lt = omega arith;
          room = omega arith;
          data_room = omega arith;
        },
        (
          record {
            core_lt = omega arith;
            length_lt = omega arith;
            room = omega arith;
            data_room = omega arith;
          },
          tt,
        ),
      )
      (_, refl, (_, refl, refl))

cores_keep_numbers_example : numbers (start rx acknowledged).cores ≡ 0 ∷ (1 ∷ (2 ∷ (3 ∷ [])))
unfolding start
cores_keep_numbers_example =
    cores_keep_numbers rx acknowledged
      (next here (bus_read 8 254 false ndr_logged refl first_read refl))
