-- ===== src/Account/Updates/Tests.antt =====
-- A subscriber who leaves while the loop runs.
use address_verification.Base.{arith}
use address_verification.Account.Updates.{Updates, no_updates, subscribe, Step, Reachable}
use address_verification.Account.Updates.Loop.{IsOneLoop, Reachable-IsOneLoop}

abbrev left : Updates
left = record (subscribe no_updates) { subscribers = 0 }

left-Reachable : Reachable left
unfolding subscribe
left-Reachable =
    Reachable.next_step (Reachable.next_step Reachable.start Step.subscribes)
      (Step.leaves (omega arith))

Reachable-IsOneLoop_example : IsOneLoop left
Reachable-IsOneLoop_example = Reachable-IsOneLoop left-Reachable
