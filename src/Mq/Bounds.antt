-- ===== src/Mq/Bounds.antt =====
-- grlib_mqgrspw_receive_packet: the bounds of what it returns, for any message.
use qemu_spacewire.Base.{
  ℕ, ◌≤◌, ◌<◌, ◌≡◌, refl, arith, List, length, ltb, leb, Option-cases, inl, inr,
}
use qemu_spacewire.Host.{Platform, Host, done}
use qemu_spacewire.Host.Ensures.{
  Ensures, Ensures-pure, Ensures-bind, Ensures-if, Ensures-or_fault, Ensures-check_fatal,
  Ensures-Anything,
}
use qemu_spacewire.Host.Buffer.{slice, overwrite, slice_bound, overlay_bound}
use qemu_spacewire.Util.Word.{byte_of, word_of}
use qemu_spacewire.Mq.{Mqd, Packet, load_rx, memcpy_rx, mq_receive, receive_packet}

-- The lengths of a received packet are within the buffers that it was stored in, which keep their
-- sizes, and its core is one of the four.
pub record IsBounded (header payload : List ℕ) (pkt : Packet) : Type 0 where
  pub core_lt : pkt.grspw_id < 4
  pub header_le : pkt.header_len ≤ length header
  pub data_le : pkt.data_len ≤ length payload
  pub header_size : length pkt.header ≡ length header
  pub payload_size : length pkt.payload ≡ length payload

module _ {p : Platform} where
  load_rx-Ensures : (i n : ℕ) → Ensures (λ (bytes : List ℕ). length bytes ≡ n) (load_rx {p = p} i n)
  unfolding load_rx
  load_rx-Ensures i n = record {
    ensures = λ h h' bytes e. elim (Option-cases (slice i n h.rxbuffer)) [
      | inl none_ ↦ ground (arith, none_)
      | inr (zs, some_) ↦
          let l = (slice_bound i n h.rxbuffer zs some_).1 in ground (arith, some_, l)
    ];
  }

  -- The destination keeps its length, and holds what was copied.
  memcpy_rx-Ensures :
      (dest : List ℕ) (i n : ℕ)
      → Ensures
          (λ (ys : List ℕ). (n ≤ length dest) × (length ys ≡ length dest))
          (memcpy_rx {p = p} dest i n)
  unfolding memcpy_rx overwrite
  memcpy_rx-Ensures dest i n =
      Ensures-if (ltb 0 n)
        (λ e. Ensures-bind (load_rx-Ensures i n) λ bytes l.
          Ensures-or_fault (overwrite dest 0 bytes)
            λ ys o. let (b, k) = overlay_bound dest bytes ys o in (omega (arith, b, l), k))
        (λ e. Ensures-pure dest (ground (arith, e), refl))

  -- Whatever message is next on a queue: if grlib_mqgrspw_receive_packet returns, the core is one of
  -- the four, and both lengths that it reports are within the buffers of the caller, which it did
  -- not overrun. A message that claims more bytes than fit never returns.
  pub receive_packet-IsBounded :
      (mq : Mqd) (header payload : List ℕ) (h h' : Host p) (pkt : Packet)
      → receive_packet mq header payload h ≡ done (pkt, h')
      → IsBounded header payload pkt
  unfolding receive_packet
  receive_packet-IsBounded mq header payload h h' pkt e =
      let total : Ensures (IsBounded header payload) (receive_packet {p = p} mq header payload) =
        Ensures-bind (Ensures-Anything (mq_receive mq)) λ _ _.
          Ensures-bind (load_rx-Ensures 0 1) λ id _. Ensures-bind (load_rx-Ensures 1 1) λ pword _.
            Ensures-bind (load_rx-Ensures 2 1) λ len _.
              Ensures-bind (memcpy_rx-Ensures header _ (byte_of len)) λ header' a.
                Ensures-bind (load_rx-Ensures _ 4) λ dlen _.
                  Ensures-bind (memcpy_rx-Ensures payload _ (word_of dlen)) λ payload' b.
                    Ensures-bind (Ensures-check_fatal (leb 4 (byte_of id))) λ _ c.
                      Ensures-pure _ (record {
                        core_lt = ground (arith, c);
                        header_le = a.0;
                        data_le = b.0;
                        header_size = a.1;
                        payload_size = b.1;
                      }) in
      total.ensures h h' pkt e
