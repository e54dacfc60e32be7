-- ===== src/Escrow.antt =====
-- hooks/escrow.hooks.ts: which notification a status change asks for, and the outcome of sending
-- it on both channels. What the channels do is the outcome of their two promises.
use talenttrust_backend.Prelude.{
  ◌≡◌, ◌↔◌, ◌⊎◌, String, Bool, true, false, ◌&&◌, ◌||◌, Option, none, some, arith, str_eq,
  if◌then◌else◌, List, [], ◌∷◌,
}

pub data KeyEscrowEvent : Type 0 where
  funds_deposited escrow_resolved dispute_raised : KeyEscrowEvent

pub data Channel : Type 0 where
  email web : Channel

-- A settled promise of a channel.
pub data Settled : Type 0 where
  fulfilled : Bool → Option String → Settled
  thrown : String → Settled

pub record ChannelResult : Type 0 where
  pub channel : Channel
  pub success : Bool
  pub message : Option String

pub record DispatchResult : Type 0 where
  pub all_succeeded : Bool
  pub any_succeeded : Bool
  pub channels : List ChannelResult

abbrev pub resolve_channel_result : Channel → Settled → ChannelResult
resolve_channel_result c (fulfilled true m) = record { channel = c; success = true; message = none }
resolve_channel_result c (fulfilled false m) = record { channel = c; success = false; message = m }
resolve_channel_result c (thrown m) = record { channel = c; success = false; message = some m }

-- `channels.every(c => c.success)` and `channels.some(c => c.success)`
abbrev every : List ChannelResult → Bool
every [] = true
every (c ∷ cs) = c.success && every cs

abbrev any : List ChannelResult → Bool
any [] = false
any (c ∷ cs) = c.success || any cs

unfoldable pub on_escrow_event : Settled → Settled → DispatchResult
on_escrow_event email_outcome web_outcome =
    let channels =
      resolve_channel_result email email_outcome ∷ resolve_channel_result web web_outcome ∷ [] in
    record { all_succeeded = every channels; any_succeeded = any channels; channels = channels }

-- The event that a change of status asks to be notified of.
unfoldable pub transition_event : String → String → Option KeyEscrowEvent
transition_event old_status new_status =
    if str_eq old_status "" || str_eq new_status "" || str_eq old_status new_status
    then none
    else if str_eq old_status "draft" && str_eq new_status "active"
    then some funds_deposited
    else if str_eq old_status "active" && str_eq new_status "completed"
    then some escrow_resolved
    else if str_eq old_status "active" && str_eq new_status "disputed"
    then some dispute_raised
    else none

abbrev dispatch_event : Settled → Settled → Option KeyEscrowEvent → Option DispatchResult
dispatch_event email_outcome web_outcome none = none
dispatch_event email_outcome web_outcome (some event) =
    some (on_escrow_event email_outcome web_outcome)

unfoldable pub on_state_transition : Settled → Settled → String → String → Option DispatchResult
unfolding on_escrow_event transition_event
on_state_transition email_outcome web_outcome old_status new_status =
    dispatch_event email_outcome web_outcome (transition_event old_status new_status)

abbrev pub Succeeds : Settled → Type 0
Succeeds (fulfilled b m) = b ≡ true
Succeeds (thrown m) = ⊥

-- Sending an event reports one result for each channel, whatever the other one did: a channel
-- counts as a success exactly when its service returned success; the summary flags say whether
-- both did and whether one did.
pub on_escrow_event_lem :
    (e w : Settled)
    → let r = on_escrow_event e w in
      (r.channels ≡ resolve_channel_result email e ∷ resolve_channel_result web w ∷ [])
      × (((resolve_channel_result email e).success ≡ true) ↔ Succeeds e)
      × (((resolve_channel_result web w).success ≡ true) ↔ Succeeds w)
      × ((r.all_succeeded ≡ true) ↔ (Succeeds e × Succeeds w))
      × ((r.any_succeeded ≡ true) ↔ (Succeeds e ⊎ Succeeds w))
unfolding on_escrow_event
on_escrow_event_lem (fulfilled true m) (fulfilled true n) = ground arith
on_escrow_event_lem (fulfilled true m) (fulfilled false n) = ground arith
on_escrow_event_lem (fulfilled false m) (fulfilled true n) = ground arith
on_escrow_event_lem (fulfilled false m) (fulfilled false n) = ground arith
on_escrow_event_lem (fulfilled true m) (thrown n) = ground arith
on_escrow_event_lem (fulfilled false m) (thrown n) = ground arith
on_escrow_event_lem (thrown m) (fulfilled true n) = ground arith
on_escrow_event_lem (thrown m) (fulfilled false n) = ground arith
on_escrow_event_lem (thrown m) (thrown n) = ground arith
