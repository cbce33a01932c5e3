-- ===== src/Mq/Frame.antt =====
-- The bytes that grlib_mqgrspw_send_packet hands to its queue.
use qemu_spacewire.Base.{
  ℕ, suc, ◌+◌, ◌^◌, ◌<◌, ◌≡◌, refl, ap, ◌∙◌, arith, List, [], ◌∷◌, ◌++◌, none, some, length,
  length-append,
}
use mathlib.Core.List.{append_assoc}
use qemu_spacewire.Host.{◌>>=◌, Platform, Host, M, done, fatal, ◌>>◌}
use qemu_spacewire.Host.Buffer.{overwrite, prefix-append, prefix_self, overwrite-append}
use qemu_spacewire.Util.Word.{u8, u32, bytes_of, length-bytes_of}
use qemu_spacewire.Mq.{
  Mqd, spwq, devq, store_tx, memcpy_tx, mq_send, send_packet, c_spw_id_idx, c_pword_idx,
  c_header_idx,
}

-- The bytes from the header index up to the data length: the header and one byte that is left
-- from an earlier packet, or the length 0 where there is no header.
abbrev pub header_field : List ℕ → ℕ → List ℕ
header_field [] stale = 0 ∷ []
header_field (x ∷ xs) stale = x ∷ (xs ++ (stale ∷ []))

unfoldable pub frame : ℕ → ℕ → List ℕ → ℕ → List ℕ → List ℕ
frame grspw_id pword header stale payload =
    u8 grspw_id ∷ (pword ∷ (header_field header stale ++ (bytes_of (length payload) ++ payload)))

module _ {p : Platform} where
  -- A message handed to a queue, where a refusal ends the process.
  unfoldable pub deliver : Mqd → List ℕ → M p (Unit {0})
  deliver spwq message h = elim (p.mq_send h.spwq message) [
    | none ↦ fatal
    | some queue ↦ done (tt, record h { spwq = queue })
  ]
  deliver devq message h = elim (p.mq_send h.devq message) [
    | none ↦ fatal
    | some queue ↦ done (tt, record h { devq = queue })
  ]

  mq_send-deliver :
      (mq : Mqd) (h : Host p) (message rest : List ℕ) (len : ℕ)
      → h.txbuffer ≡ message ++ rest
      → len ≡ length message
      → mq_send mq len h ≡ deliver mq message h
  unfolding mq_send deliver
  mq_send-deliver spwq h message rest len e l = ground (arith, prefix-append message rest)
  mq_send-deliver devq h message rest len e l = ground (arith, prefix-append message rest)

  store_tx-append :
      (h : Host p) (i : ℕ) (xs old src rest : List ℕ)
      → h.txbuffer ≡ xs ++ (old ++ rest)
      → i ≡ length xs
      → length src ≡ length old
      → store_tx i src h ≡ done (tt, record h { txbuffer = xs ++ (src ++ rest) })
  unfolding store_tx
  store_tx-append h i xs old src rest e l k = ground (arith, overwrite-append xs old src rest k)

  memcpy_tx-append :
      (h : Host p) (i : ℕ) (xs old src rest : List ℕ)
      → h.txbuffer ≡ xs ++ (old ++ rest)
      → i ≡ length xs
      → length src ≡ length old
      → memcpy_tx i src (length src) h ≡ done (tt, record h { txbuffer = xs ++ (src ++ rest) })
  unfolding memcpy_tx ◌>>=◌
  memcpy_tx-append h i xs [] [] rest e l k = ground arith
  memcpy_tx-append h i xs (z ∷ zs) [] rest e l k = absurd (omega arith)
  memcpy_tx-append h i xs old (y ∷ ys) rest e l k =
      ground (arith, prefix_self (y ∷ ys), store_tx-append h i xs old (y ∷ ys) rest e l k)

  abbrev pub with_tx : Host p → List ℕ → Host p
  with_tx h buffer = record h { txbuffer = buffer }

  -- The three stores at the fixed places.
  fill_front :
      (h : Host p) (grspw_id pword a b c len : ℕ) (rest : List ℕ) (k : M p (Unit {0}))
      → h.txbuffer ≡ a ∷ (b ∷ (c ∷ rest))
      → (do
        store_tx c_spw_id_idx (u8 grspw_id ∷ [])
        store_tx c_pword_idx (pword ∷ [])
        store_tx c_header_idx (u8 len ∷ [])
        k)
          h
        ≡ k (with_tx h (u8 grspw_id ∷ (pword ∷ (u8 len ∷ rest))))
  unfolding store_tx overwrite ◌>>=◌
  fill_front h grspw_id pword a b c len rest k e = ground arith

  -- The copy of the header over the bytes from the header index on.
  fill_header :
      (h : Host p) (id pword l x s : ℕ) (xs cs tail : List ℕ) (k : M p (Unit {0}))
      → length xs ≡ length cs
      → (do memcpy_tx c_header_idx (x ∷ xs) (suc (length xs)); k)
          (with_tx h (id ∷ (pword ∷ (l ∷ (cs ++ (s ∷ tail))))))
        ≡ k (with_tx h (id ∷ (pword ∷ (x ∷ (xs ++ (s ∷ [])))) ++ tail))
  unfolding ◌>>=◌
  fill_header h id pword l x s xs cs tail k e =
      let f : (id ∷ (pword ∷ [])) ++ ((x ∷ xs) ++ (s ∷ tail))
          ≡ (id ∷ (pword ∷ (x ∷ (xs ++ (s ∷ []))))) ++ tail =
        simp append_assoc in
      ground (
        arith,
        f,
        memcpy_tx-append (with_tx h (id ∷ (pword ∷ (l ∷ (cs ++ (s ∷ tail)))))) c_header_idx
            (id ∷ (pword ∷ [])) (l ∷ cs) (x ∷ xs) (s ∷ tail) refl refl (ap suc e),
      )

  fill_no_header : (h : Host p) (k : M p (Unit {0})) → (do memcpy_tx c_header_idx [] 0; k) h ≡ k h
  unfolding memcpy_tx ◌>>=◌
  fill_no_header h k = refl

  -- The data length and the data, behind the bytes `front`.
  fill_back :
      (mq : Mqd) (h : Host p) (front dlen old payload rest : List ℕ) (i j len : ℕ)
      → length dlen ≡ 4
      → length payload ≡ length old
      → i ≡ length front
      → j ≡ length front + 4
      → len ≡ length front + 4 + length payload
      → (do
        store_tx i (bytes_of (length payload))
        memcpy_tx j payload (length payload)
        mq_send mq len)
          (with_tx h (front ++ (dlen ++ (old ++ rest))))
        ≡ deliver mq
            (front ++ (bytes_of (length payload) ++ payload))
            (with_tx h ((front ++ (bytes_of (length payload) ++ payload)) ++ rest))
  unfolding ◌>>=◌
  fill_back mq h front dlen old payload rest i j len d l p q r =
      let dl = bytes_of (length payload) in
      let dl_len = length-bytes_of (length payload) in
      let e : front ++ (dl ++ (old ++ rest)) ≡ (front ++ dl) ++ (old ++ rest) = simp append_assoc in
      let f : (front ++ dl) ++ (payload ++ rest) ≡ (front ++ (dl ++ payload)) ++ rest =
        simp append_assoc in
      let stored : j ≡ length (front ++ dl) = omega (arith, length-append front dl, dl_len) in
      let total : len ≡ length (front ++ (dl ++ payload)) =
        omega (arith, length-append front (dl ++ payload), length-append dl payload, dl_len) in
      ground (
        arith,
        store_tx-append (with_tx h (front ++ (dlen ++ (old ++ rest)))) i front dlen dl (old ++ rest)
            refl p (omega (arith, dl_len)),
        memcpy_tx-append (with_tx h (front ++ (dl ++ (old ++ rest)))) j (front ++ dl) old payload
            rest e stored l,
        mq_send-deliver mq (with_tx h ((front ++ dl) ++ (payload ++ rest)))
            (front ++ (dl ++ payload)) rest len f total,
      )

  module _ (mq : Mqd) (h : Host p) (grspw_id pword : ℕ) (payload rest : List ℕ) where
    pub send_packet-nil :
        (a b c : ℕ) (dlen old : List ℕ)
        → h.txbuffer ≡ a ∷ (b ∷ (c ∷ (dlen ++ (old ++ rest))))
        → length dlen ≡ 4
        → length payload ≡ length old
        → 7 + length payload < 2 ^ 32
        → send_packet mq grspw_id pword [] 0 payload (length payload) h
          ≡ deliver mq
              (frame grspw_id pword [] c payload)
              (with_tx h (frame grspw_id pword [] c payload ++ rest))
    unfolding send_packet frame
    send_packet-nil a b c dlen old e d l fits =
        fill_front h grspw_id pword a b c 0 (dlen ++ (old ++ rest)) _ e
        ∙ fill_no_header _ _
        ∙ fill_back mq h (u8 grspw_id ∷ (pword ∷ (0 ∷ []))) dlen old payload rest (u32 3) (u32 7)
            (u32 (7 + 0 + length payload)) d l refl refl (omega arith)

    pub send_packet-cons :
        (a b c x s : ℕ) (cs xs dlen old : List ℕ)
        → h.txbuffer ≡ a ∷ (b ∷ (c ∷ (cs ++ (s ∷ (dlen ++ (old ++ rest))))))
        → length dlen ≡ 4
        → length payload ≡ length old
        → length xs ≡ length cs
        → 8 + length xs + length payload < 2 ^ 32
        → send_packet mq grspw_id pword (x ∷ xs) (suc (length xs)) payload (length payload) h
          ≡ deliver mq
              (frame grspw_id pword (x ∷ xs) s payload)
              (with_tx h (frame grspw_id pword (x ∷ xs) s payload ++ rest))
    unfolding send_packet frame
    send_packet-cons a b c x s cs xs dlen old e d l k fits =
        let front : List ℕ = u8 grspw_id ∷ (pword ∷ (x ∷ (xs ++ (s ∷ [])))) in
        let n : length front ≡ length xs + 4 = omega (arith, length-append xs (s ∷ [])) in
        fill_front h grspw_id pword a b c (suc (length xs)) (cs ++ (s ∷ (dlen ++ (old ++ rest)))) _
          e
        ∙ fill_header h (u8 grspw_id) pword (u8 (suc (length xs))) x s xs cs (dlen ++ (old ++ rest))
            _ k
        ∙ fill_back mq h front dlen old payload rest (u32 (2 + suc (length xs) + 1))
            (u32 (2 + suc (length xs) + 4 + 1)) (u32 (7 + suc (length xs) + length payload)) d l
            (omega arith) (omega arith) (omega arith)
