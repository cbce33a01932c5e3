-- ===== src/Mq/Send.antt =====
-- grlib_mqgrspw_send_packet on any buffer that is large enough.
use qemu_spacewire.Base.{
  ℕ, ◌+◌, ◌^◌, ◌≤◌, ◌<◌, ◌≡◌, refl, sym, ap, ◌∙◌, arith, List, [], ◌∷◌, ◌++◌, length, length-append,
}
use qemu_spacewire.Host.{Platform, Host}
use qemu_spacewire.Host.Buffer.{split_at, split_head}
use qemu_spacewire.Mq.{Mqd, send_packet}
use qemu_spacewire.Mq.Frame.{frame, deliver, send_packet-nil, send_packet-cons}

module _ {p : Platform} (mq : Mqd) (h : Host p) (grspw_id pword : ℕ) where
  -- The packet goes out as this frame, and the frame is also what the buffer then begins with.
  abbrev pub Sends : List ℕ → List ℕ → Type 0
  Sends header payload =
      (stale : ℕ) × (rest : List ℕ) × (send_packet mq grspw_id pword header (length header) payload
          (length payload) h
        ≡ deliver mq (frame grspw_id pword header stale payload)
            (record h { txbuffer = frame grspw_id pword header stale payload ++ rest }))

  regroup :
      (start body cs back₁ back₂ dlen back₃ old rest : List ℕ) (s : ℕ)
      → h.txbuffer ≡ start ++ body
      → body ≡ cs ++ back₁
      → back₁ ≡ s ∷ back₂
      → back₂ ≡ dlen ++ back₃
      → back₃ ≡ old ++ rest
      → h.txbuffer ≡ start ++ (cs ++ (s ∷ (dlen ++ (old ++ rest))))
  regroup start body cs back₁ back₂ dlen back₃ old rest s e e₁ e₂ e₃ e₄ =
      e
      ∙ ap (λ t. start ++ t)
          (e₁ ∙ ap (λ t. cs ++ t) (e₂ ∙ ap (λ t. s ∷ t) (e₃ ∙ ap (λ t. dlen ++ t) e₄)))

  Sends-over :
      (header payload buffer : List ℕ)
      → h.txbuffer ≡ buffer
      → 7 + length header + length payload ≤ length buffer
      → 7 + length header + length payload < 2 ^ 32
      → Sends header payload
  Sends-over [] payload (a ∷ (b ∷ (c ∷ body))) e l w =
      let (dlen, back, e₁, l₁) = split_at 4 body (omega arith) in
      let (old, rest, e₂, l₂) =
        split_at (length payload) back (omega (arith, ap length e₁, length-append dlen back)) in
      (
        c,
        rest,
        send_packet-nil mq h grspw_id pword payload rest a b c dlen old
            (e ∙ ap (λ t. a ∷ (b ∷ (c ∷ t))) (e₁ ∙ ap (λ t. dlen ++ t) e₂)) l₁ (sym l₂)
            (omega arith),
      )
  Sends-over (x ∷ xs) payload (a ∷ (b ∷ (c ∷ body))) e l w =
      let (cs, back₁, e₁, l₁) = split_at (length xs) body (omega arith) in
      let n₁ : length body ≡ length cs + length back₁ =
        omega (arith, ap length e₁, length-append cs back₁) in
      let (s, back₂, e₂) = split_head back₁ (omega arith) in
      let (dlen, back₃, e₃, l₃) = split_at 4 back₂ (omega (arith, ap length e₂)) in
      let n₃ : length back₂ ≡ length dlen + length back₃ =
        omega (arith, ap length e₃, length-append dlen back₃) in
      let (old, rest, e₄, l₄) = split_at (length payload) back₃ (omega (arith, ap length e₂)) in
      (
        s,
        rest,
        send_packet-cons mq h grspw_id pword payload rest a b c x s cs xs dlen old
            (regroup (a ∷ (b ∷ (c ∷ []))) body cs back₁ back₂ dlen back₃ old rest s e e₁ e₂ e₃ e₄)
            l₃ (sym l₄) (sym l₁) (omega arith),
      )
  Sends-over header payload _ e l w = absurd (omega arith)

  -- A packet whose bytes fit the buffer and a 32-bit length is sent with no access out of bounds:
  -- the queue is handed the core, the protocol word, the header field, the data length and the
  -- data, and the process ends only where the queue refuses it. The header field is the byte 0
  -- where there is no header; else it is the header itself and a byte left from before.
  pub send_packet-frame :
      (header payload : List ℕ)
      → 7 + length header + length payload ≤ length h.txbuffer
      → 7 + length header + length payload < 2 ^ 32
      → Sends header payload
  send_packet-frame header payload l w = Sends-over header payload h.txbuffer refl l w
