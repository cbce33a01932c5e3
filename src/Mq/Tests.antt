-- ===== src/Mq/Tests.antt =====
-- The packet theorems at concrete packets, and runs of the packet code.
use qemu_spacewire.Base.{◌≤◌, ◌≡◌, refl, arith, [], ◌∷◌, length, List, ℕ, some}
use qemu_spacewire.Host.{◌>>=◌, Host, done, ◌>>◌, fault}
use qemu_spacewire.Host.Sample.{sample, sample_host, zeros, length-zeros}
use qemu_spacewire.Mq.{
  Packet, devq, c_maxq_size, send_packet, send_devpacket, receive_devpacket, receive_packet,
  store_tx, memcpy_tx, mq_send, mq_receive, load_rx, memcpy_rx,
}
use qemu_spacewire.Mq.RoundTrip.{IsEmpty, packet, devpacket_round_trip}
use qemu_spacewire.Mq.Bounds.{IsBounded, receive_packet-IsBounded}
use qemu_spacewire.Mq.Header.{header_len_is_first_byte}
use qemu_spacewire.Mq.Malformed.{claim, receives_stale, claims_too_much}
use qemu_spacewire.Host.Buffer.{slice, prefix, overwrite, overlay}
use qemu_spacewire.Util.Word.{bytes_of, word_of}

abbrev small : Host sample
small = sample_host 64

abbrev big : Host sample
big = sample_host 1024

big_room : c_maxq_size ≤ length (zeros 1024)
big_room = omega (arith, length-zeros 1024)

IsEmpty-devq : IsEmpty sample []
IsEmpty-devq = record { after = λ m. m ∷ []; sends = λ m h. ground arith; receives = λ m h. refl }

devpacket_round_trip_example :
    (h' : Host sample) × ((do
      send_devpacket 3 1 (2 ∷ 8 ∷ []) 2 (5 ∷ 6 ∷ 7 ∷ []) 3
      receive_devpacket (0 ∷ 0 ∷ 0 ∷ []) (0 ∷ 0 ∷ 0 ∷ 0 ∷ []))
        big
      ≡ done (packet 3 1 (2 ∷ 8 ∷ []) (5 ∷ 6 ∷ 7 ∷ []) (0 ∷ []) (0 ∷ []), h'))
    × (h'.devq ≡ big.devq)
devpacket_round_trip_example =
    devpacket_round_trip 3 1 (5 ∷ 6 ∷ 7 ∷ []) (0 ∷ 0 ∷ []) (0 ∷ []) (0 ∷ 0 ∷ 0 ∷ []) (0 ∷ []) big
      (2 ∷ 8 ∷ []) IsEmpty-devq (omega arith) big_room big_room refl refl refl (omega arith)

-- The packet that comes out for a header of two bytes that begins with 1.
abbrev misread : Packet
misread = record {
  grspw_id = 3;
  pword = 1;
  header = 1 ∷ 0 ∷ [];
  header_len = 1;
  payload = 0 ∷ [];
  data_len = 0;
}

header_len_is_first_byte_example : misread.header_len ≡ 1
unfolding send_devpacket receive_devpacket send_packet receive_packet store_tx memcpy_tx mq_send
    mq_receive load_rx memcpy_rx slice prefix overwrite overlay bytes_of word_of ◌>>=◌
header_len_is_first_byte_example =
    header_len_is_first_byte big 3 1 1 (8 ∷ []) [] (0 ∷ 0 ∷ []) (0 ∷ []) {pkt = misread}
      IsEmpty-devq (omega arith) big_room big_room refl

-- A message of three bytes of data.
abbrev received : Host sample
received = record (sample_host 16) {
  devq = (2 ∷ (1 ∷ (0 ∷ (3 ∷ (0 ∷ (0 ∷ (0 ∷ (9 ∷ (8 ∷ (7 ∷ [])))))))))) ∷ [];
}

abbrev received_packet : Packet
received_packet = record {
  grspw_id = 2;
  pword = 1;
  header = 0 ∷ [];
  header_len = 0;
  payload = 9 ∷ (8 ∷ (7 ∷ (0 ∷ [])));
  data_len = 3;
}

receive_packet-IsBounded_example : IsBounded (0 ∷ []) (0 ∷ (0 ∷ (0 ∷ (0 ∷ [])))) received_packet
unfolding receive_packet mq_receive load_rx memcpy_rx slice prefix overwrite overlay word_of ◌>>=◌
receive_packet-IsBounded_example =
    receive_packet-IsBounded devq (0 ∷ []) (0 ∷ (0 ∷ (0 ∷ (0 ∷ [])))) received _ received_packet
      refl

-- A message that claims four bytes of data and holds none, after a message with data.
abbrev short_message : Host sample
short_message = record (sample_host 16) {
  rxbuffer = 1 ∷ (1 ∷ (0 ∷ (4 ∷ (0 ∷ (0 ∷ (0 ∷ (9 ∷ (8 ∷ (7 ∷ (6 ∷ []))))))))));
  devq = claim 2 1 4 ∷ [];
}

receives_stale_example :
    (stale : List ℕ) × (pkt : Packet) × (h' : Host sample) × (slice 7 4 short_message.rxbuffer
      ≡ some stale)
    × (receive_devpacket [] (0 ∷ 0 ∷ 0 ∷ 0 ∷ []) short_message ≡ done (pkt, h'))
    × (pkt.data_len ≡ 4)
    × (slice 0 4 pkt.payload ≡ some stale)
receives_stale_example =
    receives_stale short_message 2 1 4 [] refl (omega arith) [] (0 ∷ 0 ∷ 0 ∷ 0 ∷ []) (omega arith)
      (omega arith) (omega arith)

claims_too_much_example : receive_devpacket [] (0 ∷ 0 ∷ 0 ∷ []) short_message ≡ fault
claims_too_much_example =
    claims_too_much short_message 2 1 4 [] [] (0 ∷ 0 ∷ 0 ∷ []) refl (omega arith) (omega arith)
      (omega arith)
