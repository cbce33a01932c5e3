-- ===== src/Mq/Plain.antt =====
-- grlib_mqgrspw_receive_devpacket on a message without a header.
use mathlib.Core.List.{append_assoc}
use qemu_spacewire.Base.{
  ℕ, ◌+◌, ◌^◌, ◌≤◌, ◌<◌, ◌≡◌, refl, sym, ap, arith, List, [], ◌∷◌, ◌++◌, length, length-append,
  some,
}
use qemu_spacewire.Host.{Platform, Host, done}
use qemu_spacewire.Host.Buffer.{split_at}
use qemu_spacewire.Util.Word.{bytes_of, length-bytes_of}
use qemu_spacewire.Mq.{devq, receive_devpacket}
use qemu_spacewire.Mq.Receive.{mq_receive_over, parse_message}

-- The core, the protocol word, the header length 0, the data length and the data.
abbrev pub plain_message : ℕ → ℕ → List ℕ → List ℕ
plain_message grspw_id pword packet =
    grspw_id ∷ (pword ∷ (0 ∷ (bytes_of (length packet) ++ packet)))

module _ {p : Platform} (h : Host p) (grspw_id pword : ℕ) (packet header payload : List ℕ)
    (rest : p.Queue) where
  -- The packet is received as it is, over the front of the buffer for the data.
  pub receive_plain :
      grspw_id < 4
      → length packet < 2 ^ 32
      → 7 + length packet ≤ length h.rxbuffer
      → length packet ≤ length payload
      → p.mq_receive h.devq ≡ some (plain_message grspw_id pword packet, rest)
      → (back_d : List ℕ) × (buffer : List ℕ) × (receive_devpacket header payload h
          ≡ done (
            record {
              grspw_id = grspw_id;
              pword = pword;
              header = header;
              header_len = 0;
              payload = packet ++ back_d;
              data_len = length packet;
            },
            record h { rxbuffer = buffer; devq = rest },
          ))
        × (length (packet ++ back_d) ≡ length payload)
        × (length buffer ≡ length h.rxbuffer)
  unfolding receive_devpacket
  receive_plain lt fits room data_room arrives =
      let message = plain_message grspw_id pword packet in
      let long : length message ≡ 7 + length packet =
        omega (
          arith,
          length-append (bytes_of (length packet)) packet,
          length-bytes_of (length packet),
        ) in
      let (front, back, whole, n) =
        split_at (length message) h.rxbuffer (omega (arith, room, long)) in
      let got = mq_receive_over h message rest front back arrives whole (sym n) in
      let (old, back_d, split, l) = split_at (length packet) payload data_room in
      let after : Host p = record h { rxbuffer = message ++ back; devq = rest } in
      let assoc : message ++ back
          ≡ grspw_id ∷ (pword ∷ (0 ∷ (bytes_of (length packet) ++ (packet ++ back)))) =
        simp append_assoc in
      let parse =
        parse_message after grspw_id pword 0 0 [] [] packet back devq h [] header old back_d got
          assoc refl refl refl (sym l) fits lt in
      (
        back_d,
        message ++ back,
        cc (split, parse),
        omega (arith, length-append packet back_d, length-append old back_d, l, ap length split),
        omega (arith, length-append message back, length-append front back, n, ap length whole),
      )
