-- ===== src/Account/Updates.antt =====
-- The notification loop of ABaccount/keystore.go: `Subscribe` and `updater`, whose rounds each end in
-- a test under the lock. A subscriber leaves by the event library. What a round refreshes is
-- Account.Wallets.
pub mod Loop
mod Tests
use address_verification.Base.{ℕ, zero, suc, ◌-◌, ◌<◌, Bool, true, false, ◌==◌, if◌then◌else◌}

-- `updateScope.Count()`, `updating`, and how many goroutines run `updater`.
pub record Updates : Type 0 where
  pub subscribers : ℕ
  pub updating : Bool
  pub running : ℕ

abbrev pub no_updates : Updates
no_updates = record { subscribers = 0; updating = false; running = 0 }

-- `Subscribe`.
unfoldable pub subscribe : Updates → Updates
subscribe s = record {
  subscribers = suc s.subscribers;
  updating = true;
  running = if s.updating then s.running else suc s.running;
}

-- The end of a round of one `updater`.
unfoldable pub end_round : Updates → Updates
end_round s =
    if s.subscribers == 0
    then record { subscribers = s.subscribers; updating = false; running = s.running - 1 }
    else s

pub data Step (s : Updates) : Updates → Type 0 where
  subscribes : Step s (subscribe s)
  leaves : 0 < s.subscribers → Step s (record s { subscribers = s.subscribers - 1 })
  ends_round : 0 < s.running → Step s (end_round s)

pub data Reachable : Updates → Type 0 where
  start : Reachable no_updates
  next_step : {s t : Updates} → Reachable s → Step s t → Reachable t
