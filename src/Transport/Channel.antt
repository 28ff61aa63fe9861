-- ===== src/Transport/Channel.antt =====
-- pkg/transport/channel.go: a bounded queue. A call that would wait is `waits`, and changes nothing; the
-- other arm of Send's select is `cancelled`. A send or a second close on a closed channel panics.
pub mod Order
use tidemark.Prelude.{
  ℕ, ◌+◌, ℤ, pos, pos_part, ltb_ℤ, ltb, Bool, true, false, Option, none, some, List, [], ◌∷◌, ◌++◌,
  length, if◌then◌else◌,
}
use tidemark.Core.{StreamElement}

abbrev pub default_capacity : ℕ
default_capacity = 1024

pub record Channel : Type 0 where
  pub capacity : ℕ
  pub elements : List StreamElement
  pub closed : Bool

unfoldable pub new_channel : ℤ → Channel
new_channel capacity = record {
  capacity = if ltb_ℤ capacity (pos 1) then default_capacity else pos_part capacity;
  elements = [];
  closed = false;
}

pub data SendOutcome : Type 0 where
  accepted : Channel → SendOutcome
  cancelled : SendOutcome
  send_waits : SendOutcome
  send_panics : SendOutcome

-- `Send`, with whether its context is done. Where both arms are ready the choice is free: `pick` is it.
unfoldable pub send : Bool → Bool → StreamElement → Channel → SendOutcome
send done pick e c =
    if c.closed
    then (if done then (if pick then send_panics else cancelled) else send_panics)
    else if ltb (length c.elements) c.capacity
    then (if done
        then (if pick then accepted (record c { elements = c.elements ++ e ∷ [] }) else cancelled)
        else accepted (record c { elements = c.elements ++ e ∷ [] }))
    else if done
    then cancelled
    else send_waits

pub data RecvOutcome : Type 0 where
  received : StreamElement → Channel → RecvOutcome
  ended : RecvOutcome
  recv_waits : RecvOutcome

recv_from : List StreamElement → Channel → RecvOutcome
recv_from [] c = if c.closed then ended else recv_waits
recv_from (e ∷ es) c = received e (record c { elements = es })

unfoldable pub recv : Channel → RecvOutcome
unfolding recv_from
recv c = recv_from c.elements c

-- `Close`; `none` where it panics.
unfoldable pub close : Channel → Option Channel
close c = if c.closed then none else some (record c { closed = true })
