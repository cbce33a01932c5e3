-- ===== src/Mq/RoundTrip.antt =====
-- A packet sent on a queue and received from it.
use qemu_spacewire.Base.{
  ℕ, suc, ◌+◌, ◌^◌, ◌≤◌, ◌<◌, ◌≡◌, refl, sym, ◌∙◌, arith, List, [], ◌∷◌, ◌++◌, length,
  length-append, some,
}
use mathlib.Core.List.{append_assoc}
use qemu_spacewire.Host.{◌>>=◌, Platform, Host, done, ◌>>◌}
use qemu_spacewire.Host.Buffer.{overwrite, overlay-append, split_at}
use qemu_spacewire.Util.Word.{u8, bytes_of, length-bytes_of}
use qemu_spacewire.Mq.{
  Mqd, devq, Packet, mq_receive, c_maxq_size, send_devpacket, receive_packet, receive_devpacket,
}
use qemu_spacewire.Mq.Frame.{frame, header_field, deliver}
use qemu_spacewire.Mq.Send.{send_packet-frame}
use qemu_spacewire.Mq.Receive.{parse_message}

pub length-frame :
    (grspw_id pword stale : ℕ) (header payload : List ℕ)
    → length (frame grspw_id pword header stale payload) ≡ 7 + length header + length payload
unfolding frame
length-frame grspw_id pword stale [] payload =
    omega
      (arith, length-append (bytes_of (length payload)) payload, length-bytes_of (length payload))
length-frame grspw_id pword stale (x ∷ xs) payload = omega (
  arith,
  length-append (xs ++ (stale ∷ [])) (bytes_of (length payload) ++ payload),
  length-append xs (stale ∷ []),
  length-append (bytes_of (length payload)) payload,
  length-bytes_of (length payload),
)

-- An empty queue of <mqueue.h>: it takes a message of at most C_MAXQ_SIZE bytes, and hands that
-- message out next.
pub record IsEmpty (p : Platform) (q : p.Queue) : Type 0 where
  pub after : List ℕ → p.Queue
  pub sends : (m : List ℕ) → length m ≤ c_maxq_size → p.mq_send q m ≡ some (after m)
  pub receives : (m : List ℕ) → length m ≤ c_maxq_size → p.mq_receive (after m) ≡ some (m, q)

-- A header that is empty or begins with its own length.
abbrev pub HasOwnLength : List ℕ → Type 0
HasOwnLength [] = Unit
HasOwnLength (x ∷ xs) = x ≡ suc (length xs)

-- The packet that is received, with the bytes behind it in the two buffers.
abbrev pub packet : ℕ → ℕ → List ℕ → List ℕ → List ℕ → List ℕ → Packet
packet grspw_id pword header payload back_h back_d = record {
  grspw_id = grspw_id;
  pword = pword;
  header = header ++ back_h;
  header_len = length header;
  payload = payload ++ back_d;
  data_len = length payload;
}

frame-append :
    (grspw_id pword stale : ℕ) (header payload rest : List ℕ)
    → grspw_id < 4
    → frame grspw_id pword header stale payload ++ rest
      ≡ grspw_id
        ∷ (pword ∷ (header_field header stale ++ (bytes_of (length payload) ++ (payload ++ rest))))
unfolding frame
frame-append grspw_id pword stale header payload rest ok =
    let fits : u8 grspw_id ≡ grspw_id = omega arith in rw fits (simp append_assoc)

module _ {p : Platform} where
  -- What is sent is in the front of the receive buffer next.
  pub received :
      (h : Host p) (message rest : List ℕ) (empty : IsEmpty p h.devq)
      → length message ≤ c_maxq_size
      → length message ≤ length h.rxbuffer
      → (back : List ℕ) × (deliver devq message (record h { txbuffer = message ++ rest })
          ≡ done (tt, record h { txbuffer = message ++ rest; devq = empty.after message }))
        × (mq_receive devq (record h { txbuffer = message ++ rest; devq = empty.after message })
            ≡ done (tt, record h { txbuffer = message ++ rest; rxbuffer = message ++ back }))
  unfolding deliver mq_receive overwrite
  received h message rest empty fits room =
      let (old, back, e, l) = split_at (length message) h.rxbuffer room in
      (
        back,
        ground (arith, empty.sends message fits),
        ground (arith, empty.receives message fits, overlay-append old message back (sym l)),
      )

  module _ (grspw_id pword : ℕ) (payload old_h back_h old_d back_d : List ℕ) where
    pub parse_frame :
        (mq : Mqd) (before after : Host p) (header : List ℕ) (stale : ℕ) (rest : List ℕ)
        → mq_receive mq before ≡ done (tt, after)
        → after.rxbuffer ≡ frame grspw_id pword header stale payload ++ rest
        → HasOwnLength header
        → length header ≡ length old_h
        → length payload ≡ length old_d
        → length payload < 2 ^ 32
        → grspw_id < 4
        → receive_packet mq (old_h ++ back_h) (old_d ++ back_d) before
          ≡ done (packet grspw_id pword header payload back_h back_d, after)
    unfolding frame
    parse_frame mq before after [] stale rest r e own lh ld w ok =
        parse_message after grspw_id pword 0 0 [] [] payload rest mq before old_h back_h old_d
          back_d r (e ∙ frame-append grspw_id pword stale [] payload rest ok) refl refl lh ld w ok
    parse_frame mq before after (x ∷ xs) stale rest r e own lh ld w ok =
        parse_message after grspw_id pword x stale (x ∷ xs) (xs ++ (stale ∷ [])) payload rest mq
          before old_h back_h old_d back_d r
          (e ∙ frame-append grspw_id pword stale (x ∷ xs) payload rest ok) refl own lh ld w ok

    -- A packet that is sent on an empty queue and received from it comes back as it was sent: the
    -- core, the protocol word, both lengths, and header and data at the front of the receiver's
    -- buffers. This needs a core below 4, a packet within the message size and the buffers, and a
    -- header that is empty or begins with its own length.
    pub devpacket_round_trip :
        (h : Host p) (header : List ℕ)
        → IsEmpty p h.devq
        → 7 + length header + length payload ≤ c_maxq_size
        → c_maxq_size ≤ length h.txbuffer
        → c_maxq_size ≤ length h.rxbuffer
        → HasOwnLength header
        → length header ≡ length old_h
        → length payload ≡ length old_d
        → grspw_id < 4
        → (h' : Host p) × ((do
          send_devpacket grspw_id pword header (length header) payload (length payload)
          receive_devpacket (old_h ++ back_h) (old_d ++ back_d))
              h
            ≡ done (packet grspw_id pword header payload back_h back_d, h'))
          × (h'.devq ≡ h.devq)
    unfolding send_devpacket receive_devpacket ◌>>=◌
    devpacket_round_trip h header empty fits tx rx own lh ld ok =
        let (stale, rest, sent) =
          send_packet-frame devq h grspw_id pword header payload (omega arith) (omega arith) in
        let message = frame grspw_id pword header stale payload in
        let n = length-frame grspw_id pword stale header payload in
        let (back, delivered, got) =
          received h message rest empty (omega (arith, n)) (omega (arith, n)) in
        let after : Host p = record h { txbuffer = message ++ rest; rxbuffer = message ++ back } in
        let before : Host p = record h { txbuffer = message ++ rest; devq = empty.after message } in
        let parse =
          parse_frame devq before after header stale back got refl own lh ld (omega arith) ok in
        (after, ground (arith, sent, delivered, parse), refl)
