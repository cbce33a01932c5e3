-- ===== src/Mq/Receive.antt =====
-- grlib_mqgrspw_receive_packet on the frames that grlib_mqgrspw_send_packet makes.
use qemu_spacewire.Base.{
  ℕ, ◌+◌, ◌^◌, ◌<◌, ◌≡◌, refl, sym, ap, ◌∙◌, arith, List, [], ◌∷◌, ◌++◌, length, length-append,
  some, ◌≤◌,
}
use mathlib.Core.List.{append_assoc}
use qemu_spacewire.Host.{◌>>=◌, Platform, Host, done}
use qemu_spacewire.Host.Buffer.{overwrite, overlay-append, slice-append, split_at}
use qemu_spacewire.Util.Word.{bytes_of, length-bytes_of, word_of-bytes_of}
use qemu_spacewire.Mq.{Mqd, Packet, mq_receive, load_rx, memcpy_rx, receive_packet, devq, spwq}

module _ {p : Platform} where
  pub load_rx-append :
      (h : Host p) (i n : ℕ) (xs bytes rest : List ℕ)
      → h.rxbuffer ≡ xs ++ (bytes ++ rest)
      → i ≡ length xs
      → n ≡ length bytes
      → load_rx i n h ≡ done (bytes, h)
  unfolding load_rx
  load_rx-append h i n xs bytes rest e k l = ground (arith, slice-append xs bytes rest)

  memcpy_rx-append :
      (h : Host p) (i : ℕ) (old back xs bytes rest : List ℕ)
      → h.rxbuffer ≡ xs ++ (bytes ++ rest)
      → i ≡ length xs
      → length bytes ≡ length old
      → memcpy_rx (old ++ back) i (length bytes) h ≡ done (bytes ++ back, h)
  unfolding memcpy_rx overwrite ◌>>=◌
  memcpy_rx-append h i [] back xs [] rest e k l = refl
  memcpy_rx-append h i (o ∷ os) back xs [] rest e k l = absurd (omega arith)
  memcpy_rx-append h i old back xs (y ∷ ys) rest e k l = ground (
    arith,
    load_rx-append h i (length (y ∷ ys)) xs (y ∷ ys) rest e k refl,
    overlay-append old (y ∷ ys) back l,
  )

  -- The next message of the queue to the core goes over the first bytes of the buffer.
  pub mq_receive_over :
      (h : Host p) (message : List ℕ) (rest : p.Queue) (old back : List ℕ)
      → p.mq_receive h.devq ≡ some (message, rest)
      → h.rxbuffer ≡ old ++ back
      → length message ≡ length old
      → mq_receive devq h ≡ done (tt, record h { rxbuffer = message ++ back; devq = rest })
  unfolding mq_receive overwrite
  mq_receive_over h message rest old back arrives e l =
      ground (arith, arrives, e, overlay-append old message back l)

  pub mq_receive_devq :
      (h : Host p) (message : List ℕ) (rest : p.Queue)
      → p.mq_receive h.devq ≡ some (message, rest)
      → length message ≤ length h.rxbuffer
      → (back : List ℕ) × (mq_receive devq h
          ≡ done (tt, record h { rxbuffer = message ++ back; devq = rest }))
  mq_receive_devq h message rest arrives room =
      let (old, back, e, l) = split_at (length message) h.rxbuffer room in
      (back, mq_receive_over h message rest old back arrives e (sym l))

  -- The same at the other end.
  pub mq_receive_spwq :
      (h : Host p) (message : List ℕ) (rest : p.Queue)
      → p.mq_receive h.spwq ≡ some (message, rest)
      → length message ≤ length h.rxbuffer
      → (back : List ℕ) × (mq_receive spwq h
          ≡ done (tt, record h { rxbuffer = message ++ back; spwq = rest }))
  unfolding mq_receive overwrite
  mq_receive_spwq h message rest arrives room =
      let (old, back, e, l) = split_at (length message) h.rxbuffer room in
      (back, ground (arith, arrives, e, overlay-append old message back (sym l)))

  -- A received message with the header field `f₀ ∷ field`.
  module _ (h : Host p) (id pword f₀ s : ℕ) (hs field payload rest : List ℕ) where
    abbrev pub parsed : List ℕ → List ℕ → Packet
    parsed back_h back_d = record {
      grspw_id = id;
      pword = pword;
      header = hs ++ back_h;
      header_len = length hs;
      payload = payload ++ back_d;
      data_len = length payload;
    }

    pub parse_message :
        (mq : Mqd) (before : Host p) (old_h back_h old_d back_d : List ℕ)
        → mq_receive mq before ≡ done (tt, h)
        → h.rxbuffer
          ≡ id ∷ (pword ∷ (f₀ ∷ (field ++ (bytes_of (length payload) ++ (payload ++ rest)))))
        → f₀ ∷ field ≡ hs ++ (s ∷ [])
        → f₀ ≡ length hs
        → length hs ≡ length old_h
        → length payload ≡ length old_d
        → length payload < 2 ^ 32
        → id < 4
        → receive_packet mq (old_h ++ back_h) (old_d ++ back_d) before
          ≡ done (parsed back_h back_d, h)
    unfolding receive_packet ◌>>=◌
    parse_message mq before old_h back_h old_d back_d r e f b lh ld w ok =
        let dl = bytes_of (length payload) in
        let dl_len = length-bytes_of (length payload) in
        let tail = dl ++ (payload ++ rest) in
        let split_header : (f₀ ∷ field) ++ tail ≡ hs ++ (s ∷ tail) =
          ap (λ t. t ++ tail) f ∙ append_assoc hs (s ∷ []) tail in
        let at_header : h.rxbuffer ≡ (id ∷ (pword ∷ [])) ++ (hs ++ (s ∷ tail)) =
          e ∙ ap (λ t. id ∷ (pword ∷ t)) split_header in
        let at_payload : h.rxbuffer ≡ (id ∷ (pword ∷ (f₀ ∷ (field ++ dl)))) ++ (payload ++ rest) =
          e ∙ ap (λ t. id ∷ (pword ∷ (f₀ ∷ t))) (sym (append_assoc field dl (payload ++ rest))) in
        let field_len : length field ≡ length hs =
          omega (arith, ap length f, length-append hs (s ∷ [])) in
        ground (
          arith,
          load_rx-append h 0 1 [] (id ∷ []) (pword ∷ (f₀ ∷ (field ++ tail))) e refl refl,
          load_rx-append h 1 1 (id ∷ []) (pword ∷ []) (f₀ ∷ (field ++ tail)) e refl refl,
          load_rx-append h 2 1 (id ∷ (pword ∷ [])) (f₀ ∷ []) (field ++ tail) e refl refl,
          memcpy_rx-append h 2 old_h back_h (id ∷ (pword ∷ [])) hs (s ∷ tail) at_header refl lh,
          load_rx-append h (2 + length hs + 1) 4 (id ∷ (pword ∷ (f₀ ∷ field))) dl (payload ++ rest)
              e (omega arith) (omega (arith, dl_len)),
          memcpy_rx-append h (2 + length hs + 4 + 1) old_d back_d
              (id ∷ (pword ∷ (f₀ ∷ (field ++ dl)))) payload rest at_payload
              (omega (arith, length-append field dl, dl_len)) ld,
          word_of-bytes_of (length payload) w,
        )
