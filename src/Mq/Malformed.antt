-- ===== src/Mq/Malformed.antt =====
-- grlib_mqgrspw_receive_packet on a message whose data length is not that of its data: the length of
-- the message, which mq_receive returns, is not looked at.
use qemu_spacewire.Base.{
  ℕ, ◌+◌, ◌^◌, ◌≤◌, ◌<◌, ◌≡◌, refl, sym, ◌∙◌, ap, arith, List, [], ◌∷◌, ◌++◌, length, length-append,
  Option-cases, inl, inr, some,
}
use qemu_spacewire.Host.{Platform, Host, done, fault, ◌>>=◌}
use qemu_spacewire.Host.Buffer.{
  slice, slice-append, slice_bound, overwrite, overlay_bound, split_at,
}
use qemu_spacewire.Util.Word.{bytes_of, length-bytes_of, word_of-bytes_of}
use qemu_spacewire.Mq.{
  Packet, devq, mq_receive, load_rx, memcpy_rx, receive_packet, receive_devpacket,
}
use qemu_spacewire.Mq.Receive.{mq_receive_over, load_rx-append, parsed, parse_message}

-- A message that claims `len` bytes of data and ends before the data.
abbrev pub claim : ℕ → ℕ → ℕ → List ℕ
claim grspw_id pword len = grspw_id ∷ (pword ∷ (0 ∷ bytes_of len))

module _ {p : Platform} where
  -- A copy of more bytes than the destination holds.
  memcpy_rx_too_long :
      (dest : List ℕ) (i n : ℕ) (h : Host p) → length dest < n → memcpy_rx dest i n h ≡ fault
  unfolding memcpy_rx load_rx overwrite ◌>>=◌
  memcpy_rx_too_long dest i n h lt = elim (Option-cases (slice i n h.rxbuffer)) [
    | inl none_ ↦ ground (arith, none_)
    | inr (bytes, some_) ↦ elim (Option-cases (overwrite dest 0 bytes)) [
      | inl refused ↦ ground (arith, some_, refused)
      | inr (ys, fits) ↦
          let (b, _) = overlay_bound dest bytes ys fits in
          let (_, l) = slice_bound i n h.rxbuffer bytes some_ in absurd (omega (arith, b, l))
    ]
  ]

  module _ (h : Host p) (grspw_id pword len : ℕ) (rest : p.Queue)
      (arrives : p.mq_receive h.devq ≡ some (claim grspw_id pword len, rest))
      (fits : len < 2 ^ 32) where
    -- A message for a core that exists, which claims data and ends before it: where the claim lies
    -- within the receive buffer and within the buffer for the data, the packet is received without an
    -- error, with the claimed data length, and its data are the bytes that stood in the receive buffer
    -- before the message came.
    pub receives_stale :
        (header payload : List ℕ)
        → grspw_id < 4
        → 7 + len ≤ length h.rxbuffer
        → len ≤ length payload
        → (stale : List ℕ) × (pkt : Packet) × (h' : Host p) × (slice 7 len h.rxbuffer ≡ some stale)
          × (receive_devpacket header payload h ≡ done (pkt, h'))
          × (pkt.data_len ≡ len)
          × (slice 0 len pkt.payload ≡ some stale)
    unfolding receive_devpacket
    receives_stale header payload ok room data_room =
        let (old, back, e, l) = split_at 7 h.rxbuffer (omega arith) in
        let (stale, behind, f, k) =
          split_at len back (omega (arith, ap length e, length-append old back, l)) in
        let (old_d, back_d, g, n) = split_at len payload data_room in
        let m = length-bytes_of len in
        let got =
          mq_receive_over h (claim grspw_id pword len) rest old back arrives e
            (omega (arith, m, l)) in
        let whole : h.rxbuffer ≡ old ++ (stale ++ behind) = e ∙ ap (λ b. old ++ b) f in
        let at : slice (length old) (length stale) (old ++ (stale ++ behind)) ≡ some stale =
          slice-append old stale behind in
        let front : slice 0 (length stale) (stale ++ back_d) ≡ some stale =
          slice-append [] stale back_d in
        let after : Host p = record h {
          rxbuffer = claim grspw_id pword len ++ back;
          devq = rest;
        } in
        let e' : after.rxbuffer
            ≡ grspw_id ∷ (pword ∷ (0 ∷ ([] ++ (bytes_of (length stale) ++ (stale ++ behind))))) =
          cc (f, k) in
        let run =
          parse_message after grspw_id pword 0 0 [] [] stale behind devq h [] header old_d back_d
            got e' refl refl refl (omega (arith, k, n)) (omega (arith, k)) ok in
        (
          stale,
          parsed after grspw_id pword 0 0 [] [] stale behind header back_d,
          after,
          cc (whole, at, l, k),
          cc (run, g),
          k,
          cc (front, k),
        )

  -- A message of which the data length is more than the destination holds.
  receive_too_long :
      (before h : Host p) (grspw_id pword len : ℕ) (back header payload : List ℕ)
      → mq_receive devq before ≡ done (tt, h)
      → h.rxbuffer ≡ grspw_id ∷ (pword ∷ (0 ∷ (bytes_of len ++ back)))
      → len < 2 ^ 32
      → length payload < len
      → receive_packet devq header payload before ≡ fault
  unfolding receive_packet memcpy_rx ◌>>=◌
  receive_too_long before h grspw_id pword len back header payload got e fits long = ground (
    arith,
    got,
    load_rx-append h 0 1 [] (grspw_id ∷ []) (pword ∷ (0 ∷ (bytes_of len ++ back))) e refl refl,
    load_rx-append h 1 1 (grspw_id ∷ []) (pword ∷ []) (0 ∷ (bytes_of len ++ back)) e refl refl,
    load_rx-append h 2 1 (grspw_id ∷ (pword ∷ [])) (0 ∷ []) (bytes_of len ++ back) e refl refl,
    load_rx-append h 3 4 (grspw_id ∷ (pword ∷ (0 ∷ []))) (bytes_of len) back e refl
        (sym (length-bytes_of len)),
    word_of-bytes_of len fits,
    memcpy_rx_too_long payload 7 len h long,
  )

  -- A message that claims more data than the buffer of the receiver holds, and ends before
  -- them, is not refused: the copy goes beyond that buffer.
  pub claims_too_much :
      (h : Host p) (grspw_id pword len : ℕ) (rest : p.Queue) (header payload : List ℕ)
      → p.mq_receive h.devq ≡ some (claim grspw_id pword len, rest)
      → len < 2 ^ 32
      → 7 ≤ length h.rxbuffer
      → length payload < len
      → receive_devpacket header payload h ≡ fault
  unfolding receive_devpacket
  claims_too_much h grspw_id pword len rest header payload arrives fits room long =
      let (old, back, e, l) = split_at 7 h.rxbuffer room in
      let got =
        mq_receive_over h (claim grspw_id pword len) rest old back arrives e
          (omega (arith, length-bytes_of len, l)) in
      receive_too_long h (record h { rxbuffer = claim grspw_id pword len ++ back; devq = rest })
        grspw_id pword len back header payload got refl fits long
