-- ===== src/Transport/Channel/Order.antt =====
-- pkg/transport/channel.go: a channel neither loses nor reorders, holds no more than its capacity, and
-- ends only when everything that was sent has been received.
use tidemark.Prelude.{
  ◌≡◌, ◌≤◌, ◌<◌, refl, sym, ap, ◌∙◌, ℤ, ltb, Bool, true, false, Option, none, some, List, [], ◌∷◌,
  ◌++◌, length, length-append, append_assoc, if◌then◌else◌, Bool-cases, inl, inr, arith,
}
use tidemark.Core.{StreamElement}
use tidemark.Transport.Channel.{
  Channel, new_channel, send, SendOutcome, accepted, cancelled, send_waits, send_panics, recv,
  recv_from, RecvOutcome, received, ended, recv_waits, close,
}

-- A call of one end; a send with whether its context is done, and the choice of its select.
pub data Call : Type 0 where
  sends : Bool → Bool → StreamElement → Call
  receives : Call
  closes : Call

-- A channel with what was delivered to it and received from it, and whether a Recv has reported its end.
pub record History : Type 0 where
  pub channel : Channel
  pub sent : List StreamElement
  pub got : List StreamElement
  pub over : Bool

after_send : StreamElement → SendOutcome → History → History
after_send e (accepted c) h = record h { channel = c; sent = h.sent ++ e ∷ [] }
after_send e cancelled h = h
after_send e send_waits h = h
after_send e send_panics h = h

after_recv : RecvOutcome → History → History
after_recv (received e c) h = record h { channel = c; got = h.got ++ e ∷ [] }
after_recv ended h = record h { over = true }
after_recv recv_waits h = h

after_close : Option Channel → History → History
after_close none h = h
after_close (some c) h = record h { channel = c }

unfoldable pub call : History → Call → History
unfolding after_send after_recv after_close
call h (sends done pick e) = after_send e (send done pick e h.channel) h
call h receives = after_recv (recv h.channel) h
call h closes = after_close (close h.channel) h

unfoldable pub calls : History → List Call → History
calls h [] = h
calls h (x ∷ xs) = calls (call h x) xs

abbrev pub opened : ℤ → History
opened n = record { channel = new_channel n; sent = []; got = []; over = false }

pub record ChannelInv (h : History) : Type 0 where
  pub fifo : h.got ++ h.channel.elements ≡ h.sent
  pub bounded : length h.channel.elements ≤ h.channel.capacity
  pub finished : h.over ≡ true → (h.channel.closed ≡ true) × (h.channel.elements ≡ [])

-- An open channel with one more element.
abbrev pushed : StreamElement → Channel → Channel
pushed e c = record { capacity = c.capacity; elements = c.elements ++ e ∷ []; closed = false }

-- A send is delivered to an open channel with room, or changes nothing.
send_cases {ℓ} :
    (P : SendOutcome → Type ℓ) (done pick : Bool) (e : StreamElement) (c : Channel)
    → P cancelled
    → P send_waits
    → P send_panics
    → (c.closed ≡ false → length c.elements < c.capacity → P (accepted (pushed e c)))
    → P (send done pick e c)
unfolding send
send_cases P done pick e c stop wait panic go = elim (Bool-cases c.closed) [
  | inl x ↦ rw x (closed_choice done pick)
  | inr x ↦ elim (Bool-cases (ltb (length c.elements) c.capacity)) [
    | inl r ↦ rw (x, r) (open_choice done pick (accepted (pushed e c)) (go x (ground (arith, r))))
    | inr r ↦ rw (x, r) (full_choice done)
  ]
]
  where
    closed_choice :
        (d p : Bool) → P (if d then (if p then send_panics else cancelled) else send_panics)
    closed_choice true true = panic
    closed_choice true false = stop
    closed_choice false p = panic

    full_choice : (d : Bool) → P (if d then cancelled else send_waits)
    full_choice true = stop
    full_choice false = wait

    open_choice :
        (d p : Bool) (x : SendOutcome) → P x → P (if d then (if p then x else cancelled) else x)
    open_choice true true x g = g
    open_choice true false x g = stop
    open_choice false p x g = g

send-ChannelInv :
    (h : History) (done pick : Bool) (e : StreamElement)
    → ChannelInv h
    → ChannelInv (after_send e (send done pick e h.channel) h)
unfolding after_send
send-ChannelInv h done pick e v =
    send_cases (λ o. ChannelInv (after_send e o h)) done pick e h.channel v v v
      (λ open_yet room. record {
        fifo =
            sym (append_assoc h.got h.channel.elements (e ∷ [])) ∙ ap (λ xs. xs ++ e ∷ []) v.fifo;
        bounded = omega (arith, room, length-append h.channel.elements (e ∷ []));
        finished = λ o. absurd (ground (arith, open_yet, v.finished o));
      })

recv-ChannelInv :
    (h : History) (es : List StreamElement)
    → h.channel.elements ≡ es
    → ChannelInv h
    → ChannelInv (after_recv (recv_from es h.channel) h)
unfolding after_recv recv_from
recv-ChannelInv h (e ∷ es) q v = record {
  fifo = append_assoc h.got (e ∷ []) es ∙ ap (λ xs. h.got ++ xs) (sym q) ∙ v.fifo;
  bounded = omega (arith, v.bounded, ap (λ xs. length xs) q);
  finished = λ o. absurd (ground (arith, v.finished o, q));
}
recv-ChannelInv h [] q v = elim (Bool-cases h.channel.closed) [
  | inl c ↦ simp c (record { fifo = v.fifo; bounded = v.bounded; finished = λ _. (c, q) })
  | inr c ↦ simp c v
]

close-ChannelInv : (h : History) → ChannelInv h → ChannelInv (after_close (close h.channel) h)
unfolding after_close close
close-ChannelInv h v = elim (Bool-cases h.channel.closed) [
  | inl c ↦ simp c v
  | inr c ↦
      simp c
        (record { fifo = v.fifo; bounded = v.bounded; finished = λ o. (refl, (v.finished o).1) })
]

calls_keep : (xs : List Call) (h : History) → ChannelInv h → ChannelInv (calls h xs)
unfolding calls call recv
calls_keep [] h v = v
calls_keep (sends done pick e ∷ xs) h v = calls_keep xs _ (send-ChannelInv h done pick e v)
calls_keep (receives ∷ xs) h v = calls_keep xs _ (recv-ChannelInv h h.channel.elements refl v)
calls_keep (closes ∷ xs) h v = calls_keep xs _ (close-ChannelInv h v)

-- Whatever the two ends of a new channel call, in whatever order: what was received and what is in the
-- channel are together what was delivered to it, in order; it holds no more than its capacity; and if
-- a Recv has reported its end, it is closed and everything delivered has been received.
pub calls-ChannelInv : (n : ℤ) (xs : List Call) → ChannelInv (calls (opened n) xs)
unfolding new_channel
calls-ChannelInv n xs =
    calls_keep xs (opened n)
      (record { fifo = refl; bounded = omega arith; finished = λ o. absurd (ground arith) })
