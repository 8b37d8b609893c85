-- ===== src/Tests/Sender.antt =====
-- The theorems on the sender's queues, on a sender with a FIN outstanding and data not yet sent.
use capybara_artifact.Base.{
  ℕ, ◌≤◌, ◌≡◌, refl, inl, inr, Bool, some, none, List, [], ◌∷◌, ◌++◌, length, drop, arith,
}
use capybara_artifact.State.{Buffer, UnackedSegment}
use capybara_artifact.Tcp.Sender.{Sender, new}
use capybara_artifact.Tcp.Sender.Queues.{
  acknowledge, remove_acknowledged_data, pop_unsent, pop_one_unsent_byte,
}
use capybara_artifact.Tcp.Sender.Queues.Acknowledged.{space, FinLast, remove-space}
use capybara_artifact.Tcp.Sender.Queues.Unsent.{pop_unsent-bytes}
use mathlib.Core.List.{flatten}

-- Two segments of data and the FIN are outstanding.
abbrev outstanding : List UnackedSegment
outstanding =
    record { bytes = 1 ∷ 2 ∷ 3 ∷ []; initial_tx = some 5 }
    ∷ record { bytes = 4 ∷ 5 ∷ []; initial_tx = some 7 }
    ∷ record { bytes = []; initial_tx = none }
    ∷ []

abbrev sender : Sender
unfolding new
sender = record (new 100 1000 0 1460) {
  unacked_queue = outstanding;
  unsent_queue = (6 ∷ 7 ∷ 8 ∷ []) ∷ (9 ∷ []) ∷ [];
}

outstanding-FinLast : FinLast outstanding
outstanding-FinLast = (inl (omega arith), (inl (omega arith), (inr refl, tt)))

-- Four bytes are acknowledged, one of them of the second segment.
remove-space_example :
    (left : List UnackedSegment) × ((samples : List ℕ) × (((remove_acknowledged_data 4 9 sender
            ≡ some (record sender { unacked_queue = left }, samples))
          × (space left ≡ drop 4 (space outstanding)))
        × FinLast left))
unfolding sender
remove-space_example = remove-space 4 9 sender outstanding-FinLast (omega arith)

-- The segment that is acknowledged in part is not timed any more, but was sampled.
partly :
    acknowledge 9 4 outstanding
    ≡ some (
      record { bytes = 5 ∷ []; initial_tx = none } ∷ record { bytes = []; initial_tx = none } ∷ [],
      4 ∷ 2 ∷ [],
    )
unfolding acknowledge
partly = refl

-- Acknowledging all of it takes the FIN off too.
all_of_it : acknowledge 9 6 outstanding ≡ some ([], 4 ∷ 2 ∷ [])
unfolding acknowledge
all_of_it = refl

too_much : acknowledge 9 7 outstanding ≡ none
unfolding acknowledge
too_much = refl

pop_unsent-bytes_example :
    (sent : Buffer) × ((push : Bool) × ((left : List Buffer) × (((pop_unsent 2 sender
              ≡ some (some (sent, push), record sender { unsent_queue = left }))
            × (length sent ≤ 2))
          × (sent ++ flatten left ≡ flatten sender.unsent_queue))))
unfolding sender
pop_unsent-bytes_example = pop_unsent-bytes 2 sender (6 ∷ 7 ∷ 8 ∷ []) ((9 ∷ []) ∷ []) refl

-- A probe from a buffer of one byte leaves an empty buffer in the queue, on which a second panics.
probe :
    pop_one_unsent_byte (record sender { unsent_queue = (9 ∷ []) ∷ [] })
    ≡ some (some (9 ∷ []), record sender { unsent_queue = [] ∷ [] })
unfolding pop_one_unsent_byte
probe = refl

probe_again : pop_one_unsent_byte (record sender { unsent_queue = [] ∷ [] }) ≡ none
unfolding pop_one_unsent_byte
probe_again = refl
