-- ===== src/Mq/Lifecycle/Laws.antt =====
-- The queues when the device has opened them, when its peer has, and when they are removed.
use Prim.Native.String.{String}
use text.Mathlib.TextEquality.{eq_iff}
use qemu_spacewire.Base.{
  ◌≡◌, ◌≢◌, refl, sym, ◌∙◌, ap, arith, Option, none, some, Option-cases, inl, inr, ◌⊎◌,
}
use qemu_spacewire.Host.{Outcome, done, fatal, fault}
use qemu_spacewire.Mq.Lifecycle.{
  MqAttr, OpenMode, o_wronly, o_rdonly, Posix, Process, attr, open_spwq, open_devq, checked, ◌then◌,
  mqgrspw_init, mqgrspw_connect, devdestroy, spwdestroy,
}

-- What POSIX speaks of: the queue of a name, with its attributes, and the queue and the mode that a
-- descriptor was opened with.
pub record View (k : Posix) : Type 0 where
  pub queue_of : k.State → String → Option MqAttr
  pub refers : k.State → k.Descriptor → Option (String × OpenMode)

-- What it documents of the calls.
pub record IsPosix {k : Posix} (view : View k) : Type 0 where
  pub open_missing :
      (s : k.State) (name : String) (mode : OpenMode)
      → view.queue_of s name ≡ none
      → k.mq_open s name mode none ≡ none
  pub open_makes :
      (s s' : k.State) (name : String) (mode : OpenMode) (a : MqAttr) (d : k.Descriptor)
      → view.queue_of s name ≡ none
      → k.mq_open s name mode (some a) ≡ some (d, s')
      → view.queue_of s' name ≡ some a
  pub open_finds :
      (s s' : k.State) (name : String) (mode : OpenMode) (made : Option MqAttr) (a : MqAttr)
      (d : k.Descriptor)
      → view.queue_of s name ≡ some a
      → k.mq_open s name mode made ≡ some (d, s')
      → view.queue_of s' name ≡ some a
  pub open_refers :
      (s s' : k.State) (name : String) (mode : OpenMode) (made : Option MqAttr) (d : k.Descriptor)
      → k.mq_open s name mode made ≡ some (d, s')
      → view.refers s' d ≡ some (name, mode)
  pub open_keeps :
      (s s' : k.State) (name : String) (mode : OpenMode) (made : Option MqAttr) (d : k.Descriptor)
      → k.mq_open s name mode made ≡ some (d, s')
      → ((other : String) → other ≢ name → view.queue_of s' other ≡ view.queue_of s other)
        × ((e : k.Descriptor) (x : String × OpenMode)
            → view.refers s e ≡ some x
            → view.refers s' e ≡ some x)
  pub close_works :
      (s : k.State) (d : k.Descriptor) (x : String × OpenMode)
      → view.refers s d ≡ some x
      → (s' : k.State) × (k.mq_close s d ≡ some s')
        × ((name : String) → view.queue_of s' name ≡ view.queue_of s name)
        × ((e : k.Descriptor) → e ≢ d → view.refers s' e ≡ view.refers s e)
  pub unlink_removes :
      (s s' : k.State) (name : String)
      → k.mq_unlink s name ≡ some s'
      → (view.queue_of s' name ≡ none)
        × ((other : String) → other ≢ name → view.queue_of s' other ≡ view.queue_of s other)
        × ((e : k.Descriptor) → view.refers s' e ≡ view.refers s e)

pub names_differ : ◌≢◌ {A = String} "/spwq" "/devq"
names_differ = ground (arith, eq_iff "/spwq" "/devq")

-- Both queues of the process are open, with the given modes, and exist with the attributes that
-- grlib_mqgrspw_init asks for.
pub record AreOpen {k : Posix} (view : View k) (out into : OpenMode) (p : Process k) : Type 0 where
  pub spwq_refers : view.refers p.system p.spwq ≡ some ("/spwq", out)
  pub devq_refers : view.refers p.system p.devq ≡ some ("/devq", into)
  pub spwq_made : view.queue_of p.system "/spwq" ≡ some attr
  pub devq_made : view.queue_of p.system "/devq" ≡ some attr

module _ {k : Posix} (view : View k) (x : IsPosix view) where
  open_spwq-inversion :
      (mode : OpenMode) (made : Option MqAttr) (p q : Process k)
      → open_spwq mode made p ≡ done q
      → (d : k.Descriptor) × (s : k.State) × (k.mq_open p.system "/spwq" mode made ≡ some (d, s))
        × (q ≡ record p { spwq = d; system = s })
  unfolding open_spwq
  open_spwq-inversion mode made p q e = elim (Option-cases (k.mq_open p.system "/spwq" mode made)) [
    | inl n ↦ absurd (ground (arith, e, n))
    | inr ((d, s), o) ↦ (d, s, o, ground (arith, e, o))
  ]

  open_devq-inversion :
      (mode : OpenMode) (made : Option MqAttr) (p q : Process k)
      → open_devq mode made p ≡ done q
      → (d : k.Descriptor) × (s : k.State) × (k.mq_open p.system "/devq" mode made ≡ some (d, s))
        × (q ≡ record p { devq = d; system = s })
  unfolding open_devq
  open_devq-inversion mode made p q e = elim (Option-cases (k.mq_open p.system "/devq" mode made)) [
    | inl n ↦ absurd (ground (arith, e, n))
    | inr ((d, s), o) ↦ (d, s, o, ground (arith, e, o))
  ]

  pub then-inversion :
      (f g : Process k → Outcome (Process k)) (p r : Process k)
      → (f then g) p ≡ done r
      → (q : Process k) × (f p ≡ done q) × (g q ≡ done r)
  unfolding ◌then◌
  then-inversion f g p r e = go (f p) refl
    where
      go : (o : Outcome (Process k)) → f p ≡ o → (q : Process k) × (f p ≡ done q) × (g q ≡ done r)
      go (done q) h = (q, h, ground (arith, e, h))
      go fatal h = absurd (ground (arith, e, h))
      go fault h = absurd (ground (arith, e, h))

  pub init_opens :
      (p q : Process k)
      → view.queue_of p.system "/spwq" ≡ none
      → view.queue_of p.system "/devq" ≡ none
      → mqgrspw_init p ≡ done q
      → AreOpen view o_wronly o_rdonly q
  unfolding mqgrspw_init
  init_opens p q no_spwq no_devq e =
      let (m, e₁, e₂) = then-inversion _ _ p q e in
      let (d, s, o, a) = open_spwq-inversion o_wronly (some attr) p m e₁ in
      let (f, t, u, b) = open_devq-inversion o_rdonly (some attr) m q e₂ in
      let u' : k.mq_open s "/devq" o_rdonly (some attr) ≡ some (f, t) = rw a at u in
      let b' : q ≡ record p { spwq = d; devq = f; system = t } = rw a at b in
      let (kept₁, _) = x.open_keeps p.system s _ _ _ d o in
      let (kept₂, opened₂) = x.open_keeps s t _ _ _ f u' in
      rw b' (record {
        spwq_refers = opened₂ d _ (x.open_refers p.system s _ _ _ d o);
        devq_refers = x.open_refers s t _ _ _ f u';
        spwq_made = kept₂ "/spwq" names_differ ∙ x.open_makes p.system s _ _ attr d no_spwq o;
        devq_made =
            x.open_makes s t _ _ attr f (kept₁ "/devq" (λ w. names_differ (sym w)) ∙ no_devq) u';
      })

  -- The peer of a process that has the queues open: it opens them the other way round, and leaves the
  -- descriptors of the first process as they are.
  pub connect_opens :
      (q p r : Process k)
      → AreOpen view o_wronly o_rdonly q
      → p.system ≡ q.system
      → mqgrspw_connect p ≡ done r
      → AreOpen view o_rdonly o_wronly r
        × AreOpen view o_wronly o_rdonly (record q { system = r.system })
  unfolding mqgrspw_connect
  connect_opens q p r v same e =
      let (m, e₁, e₂) = then-inversion _ _ p r e in
      let (d, s, o, a) = open_devq-inversion o_wronly none p m e₁ in
      let (f, t, u, b) = open_spwq-inversion o_rdonly none m r e₂ in
      let o' : k.mq_open q.system "/devq" o_wronly none ≡ some (d, s) = rw same at o in
      let u' : k.mq_open s "/spwq" o_rdonly none ≡ some (f, t) = rw a at u in
      let b' : r ≡ record p { spwq = f; devq = d; system = t } = rw a at b in
      let (kept₁, opened₁) = x.open_keeps q.system s _ _ _ d o' in
      let (kept₂, opened₂) = x.open_keeps s t _ _ _ f u' in
      let dev = x.open_finds q.system s _ _ _ attr d v.devq_made o' in
      let spw = kept₁ "/spwq" names_differ ∙ v.spwq_made in
      let made = x.open_finds s t _ _ _ attr f spw u' in
      let found = kept₂ "/devq" (λ w. names_differ (sym w)) ∙ dev in
      rw b' (
        record {
          spwq_refers = x.open_refers s t _ _ _ f u';
          devq_refers = opened₂ d _ (x.open_refers q.system s _ _ _ d o');
          spwq_made = made;
          devq_made = found;
        },
        record {
          spwq_refers = opened₂ q.spwq _ (opened₁ q.spwq _ v.spwq_refers);
          devq_refers = opened₂ q.devq _ (opened₁ q.devq _ v.devq_refers);
          spwq_made = made;
          devq_made = found;
        },
      )

  -- A peer that comes first ends at once.
  pub connect_needs_init :
      (p : Process k) → view.queue_of p.system "/devq" ≡ none → mqgrspw_connect p ≡ fatal
  unfolding mqgrspw_connect open_devq ◌then◌
  connect_needs_init p e = ground (arith, x.open_missing p.system "/devq" o_wronly e)

  distinct : (out into : OpenMode) (p : Process k) → AreOpen view out into p → p.spwq ≢ p.devq
  distinct out into p v e =
      let w : some ("/spwq", out) ≡ some ("/devq", into) =
        sym v.spwq_refers ∙ (ap (λ d. view.refers p.system d) e ∙ v.devq_refers) in
      names_differ (cc w)

  -- The second half, on a process whose queue /devq is gone.
  spwq_removed :
      (out : OpenMode) (p : Process k)
      → view.refers p.system p.spwq ≡ some ("/spwq", out)
      → view.queue_of p.system "/spwq" ≡ some attr
      → view.queue_of p.system "/devq" ≡ none
      → ((q : Process k) × (spwdestroy p ≡ done q)
          × (view.queue_of q.system "/spwq" ≡ none)
          × (view.queue_of q.system "/devq" ≡ none))
        ⊎ ((s : k.State) × (spwdestroy p ≡ fatal)
            × (k.mq_unlink s "/spwq" ≡ none)
            × (view.queue_of s "/spwq" ≡ some attr)
            × (view.queue_of s "/devq" ≡ none))
  unfolding spwdestroy checked ◌then◌
  spwq_removed out p opened there gone =
      let (s, c, kept, _) = x.close_works p.system p.spwq _ opened in
      elim (Option-cases (k.mq_unlink s "/spwq")) [
        | inl n ↦ inr (s, ground (arith, c, n), n, kept "/spwq" ∙ there, kept "/devq" ∙ gone)
        | inr (t, u) ↦
            let (absent, others, _) = x.unlink_removes s t "/spwq" u in
            inl (
              record p { system = t },
              ground (arith, c, u),
              absent,
              others "/devq" (λ w. names_differ (sym w)) ∙ (kept "/devq" ∙ gone),
            )
      ]

  -- A process that has both queues open removes them, with grlib_mqgrspw_devdestroy and then
  -- grlib_mqgrspw_spwdestroy: both return and neither name has a queue any more, or the process ends
  -- because mq_unlink failed, for /devq with the queue there, or for /spwq with the queue there and
  -- /devq gone. Closing a descriptor that is open does not end it.
  pub destroy_removes :
      (out into : OpenMode) (p : Process k)
      → AreOpen view out into p
      → ((q : Process k) × ((devdestroy then spwdestroy) p ≡ done q)
          × (view.queue_of q.system "/spwq" ≡ none)
          × (view.queue_of q.system "/devq" ≡ none))
        ⊎ ((s : k.State) × ((devdestroy then spwdestroy) p ≡ fatal)
            × (k.mq_unlink s "/devq" ≡ none)
            × (view.queue_of s "/devq" ≡ some attr))
        ⊎ ((s : k.State) × ((devdestroy then spwdestroy) p ≡ fatal)
            × (k.mq_unlink s "/spwq" ≡ none)
            × (view.queue_of s "/spwq" ≡ some attr)
            × (view.queue_of s "/devq" ≡ none))
  unfolding devdestroy checked ◌then◌
  destroy_removes out into p v =
      let (s, c, kept, opened) = x.close_works p.system p.devq _ v.devq_refers in
      elim (Option-cases (k.mq_unlink s "/devq")) [
        | inl n ↦ inr (inl (s, ground (arith, c, n), n, kept "/devq" ∙ v.devq_made))
        | inr (t, u) ↦
            let (gone, others, same) = x.unlink_removes s t "/devq" u in
            let spwq_open = same p.spwq ∙ (opened p.spwq (distinct out into p v) ∙ v.spwq_refers) in
            let there = others "/spwq" names_differ ∙ (kept "/spwq" ∙ v.spwq_made) in
            elim (spwq_removed out (record p { system = t }) spwq_open there gone) [
              | inl (q, run, a, b) ↦ inl (q, ground (arith, c, u, run), a, b)
              | inr (w, run, n, a, b) ↦ inr (inr (w, ground (arith, c, u, run), n, a, b))
            ]
      ]
