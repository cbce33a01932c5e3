-- ===== src/Mq/Header.antt =====
-- The header length that the receiver sees.
use qemu_spacewire.Base.{ℕ, suc, ◌+◌, ◌≤◌, ◌≡◌, refl, arith, List, ◌∷◌, ◌++◌, length}
use qemu_spacewire.Host.{◌>>=◌, Platform, Host, done, ◌>>◌}
use qemu_spacewire.Host.Buffer.{slice}
use qemu_spacewire.Util.Word.{u8}
use qemu_spacewire.Mq.{
  Mqd, devq, Packet, mq_receive, load_rx, receive_packet, c_maxq_size, send_devpacket,
  receive_devpacket,
}
use qemu_spacewire.Mq.Frame.{frame}
use qemu_spacewire.Mq.Send.{send_packet-frame}
use qemu_spacewire.Mq.RoundTrip.{IsEmpty, received, length-frame}

frame_starts :
    (grspw_id pword x stale : ℕ) (xs payload back : List ℕ)
    → (body : List ℕ) × (frame grspw_id pword (x ∷ xs) stale payload ++ back
        ≡ u8 grspw_id ∷ (pword ∷ (x ∷ body)))
unfolding frame
frame_starts grspw_id pword x stale xs payload back = (_, refl)

module _ {p : Platform} where
  receive_packet-header_len :
      (mq : Mqd) (before after : Host p) (header payload : List ℕ) (a b l : ℕ) (rest : List ℕ)
      {pkt : Packet} {h' : Host p}
      → mq_receive mq before ≡ done (tt, after)
      → after.rxbuffer ≡ a ∷ (b ∷ (l ∷ rest))
      → receive_packet mq header payload before ≡ done (pkt, h')
      → pkt.header_len ≡ l
  unfolding receive_packet load_rx slice ◌>>=◌
  receive_packet-header_len mq before after header payload a b l rest r e done_ = ground arith

  -- A packet with a header, sent on an empty queue and received from it: the header length that
  -- the receiver gets is the first byte of the header, whatever the length of the header is.
  pub header_len_is_first_byte :
      (h : Host p) (grspw_id pword x : ℕ) (xs payload buf_h buf_d : List ℕ) {pkt : Packet}
      {h' : Host p}
      → IsEmpty p h.devq
      → 8 + length xs + length payload ≤ c_maxq_size
      → c_maxq_size ≤ length h.txbuffer
      → c_maxq_size ≤ length h.rxbuffer
      → (do
        send_devpacket grspw_id pword (x ∷ xs) (suc (length xs)) payload (length payload)
        receive_devpacket buf_h buf_d)
          h
        ≡ done (pkt, h')
      → pkt.header_len ≡ x
  unfolding send_devpacket receive_devpacket ◌>>=◌
  header_len_is_first_byte h grspw_id pword x xs payload buf_h buf_d {pkt} {h'} empty fits tx rx
        got =
      let (stale, rest, sent) =
        send_packet-frame devq h grspw_id pword (x ∷ xs) payload (omega arith) (omega arith) in
      let message = frame grspw_id pword (x ∷ xs) stale payload in
      let n = length-frame grspw_id pword stale (x ∷ xs) payload in
      let (back, delivered, arrived) =
        received h message rest empty (omega (arith, n)) (omega (arith, n)) in
      let after : Host p = record h { txbuffer = message ++ rest; rxbuffer = message ++ back } in
      let before : Host p = record h { txbuffer = message ++ rest; devq = empty.after message } in
      let parse : receive_packet devq buf_h buf_d before ≡ done (pkt, h') =
        ground (arith, sent, delivered, got) in
      let (body, starts) = frame_starts grspw_id pword x stale xs payload back in
      receive_packet-header_len devq before after buf_h buf_d (u8 grspw_id) pword x body arrived
        starts parse
