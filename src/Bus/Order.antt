-- ===== src/Bus/Order.antt =====
-- The queues of the bus are first in, first out, over any history of calls.
use crabclaw.Prelude.{◌≡◌, refl, sym, ap, ◌∙◌, List, [], ◌∷◌, ◌++◌, append-nil, append_assoc, arith}
use crabclaw.Bus.{
  Bus, InboundMessage, OutboundMessage, Call, call_publish_inbound, call_publish_outbound,
  call_consume_inbound, call_consume_outbound, step, run,
}

-- What one call puts into the queues.
abbrev pub put_inbound : Call → List InboundMessage
put_inbound (call_publish_inbound m) = m ∷ []
put_inbound _ = []

abbrev pub put_outbound : Call → List OutboundMessage
put_outbound (call_publish_outbound m) = m ∷ []
put_outbound _ = []

-- What a history of calls puts into them, in order.
abbrev pub published_inbound : List Call → List InboundMessage
published_inbound [] = []
published_inbound (c ∷ cs) = put_inbound c ++ published_inbound cs

abbrev pub published_outbound : List Call → List OutboundMessage
published_outbound [] = []
published_outbound (c ∷ cs) = put_outbound c ++ published_outbound cs

step_inbound :
    (c : Call) (b : Bus)
    → (step c b).0.from_inbound ++ (step c b).1.inbound ≡ b.inbound ++ put_inbound c
unfolding step
step_inbound (call_publish_inbound m) b = refl
step_inbound (call_consume_inbound) b = ground (arith, append-nil b.inbound)
step_inbound _ b = ground (arith, append-nil b.inbound)

step_outbound :
    (c : Call) (b : Bus)
    → (step c b).0.from_outbound ++ (step c b).1.outbound ≡ b.outbound ++ put_outbound c
unfolding step
step_outbound (call_publish_outbound m) b = ground arith
step_outbound (call_consume_outbound) b = ground (arith, append-nil b.outbound)
step_outbound _ b = ground (arith, append-nil b.outbound)

module _ {ℓ} {A : Type ℓ} where
  -- two steps of a queue, one after the other
  chain :
      (t t' q q' q'' p p' : List A)
      → t ++ q' ≡ q ++ p
      → t' ++ q'' ≡ q' ++ p'
      → (t ++ t') ++ q'' ≡ q ++ (p ++ p')
  chain t t' q q' q'' p p' h h' =
      append_assoc t t' q''
      ∙ ap (λ x. t ++ x) h'
      ∙ sym (append_assoc t q' p')
      ∙ ap (λ x. x ++ p') h
      ∙ append_assoc q p p'

-- Over any history of calls, for the inbound and for the outbound queue: what was taken out,
-- followed by what is still queued, is what was queued at first followed by what was published, in
-- that order.
pub run_fifo :
    (cs : List Call) (b : Bus)
    → ((run cs b).0.from_inbound ++ (run cs b).1.inbound ≡ b.inbound ++ published_inbound cs)
      × ((run cs b).0.from_outbound ++ (run cs b).1.outbound ≡ b.outbound ++ published_outbound cs)
unfolding run
run_fifo [] b = (sym (append-nil b.inbound), sym (append-nil b.outbound))
run_fifo (c ∷ cs) b =
    let (t, b') = step c b in
    let (t', b'') = run cs b' in
    let (i, o) = run_fifo cs b' in
    (
      chain t.from_inbound t'.from_inbound b.inbound b'.inbound b''.inbound (put_inbound c)
          (published_inbound cs) (step_inbound c b) i,
      chain t.from_outbound t'.from_outbound b.outbound b'.outbound b''.outbound (put_outbound c)
          (published_outbound cs) (step_outbound c b) o,
    )
