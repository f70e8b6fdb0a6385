-- ===== src/Tests/Senders.antt =====
-- Two messages: the write of the first one fails, and it is sent again after a reconnect.
use ote_stack.Prelude.{ℕ, ◌≡◌, refl, true, false, Option, some, List, [], ◌∷◌}
use ote_stack.Message.{Bytes}
use ote_stack.ControllerTunnel.{
  SenderStep, puts, runs, loses, recovers, new_sender, sender_steps, sent, send_from_chan,
  sender_step, put_message, recover_and_resend, next_message, after_send,
}

abbrev bytes : ℕ → Option Bytes
bytes n = some (n ∷ [])

abbrev over_failure : List (SenderStep ℕ)
over_failure =
    puts 1 ∷ puts 2 ∷ runs false ∷ runs true ∷ loses ∷ recovers ∷ runs true ∷ runs true ∷ []

sent_in_order : (sender_steps bytes over_failure new_sender).handled ≡ (1, sent) ∷ (2, sent) ∷ []
unfolding sender_step put_message send_from_chan recover_and_resend next_message after_send
sent_in_order = refl
