-- ===== src/Account/Updates/Loop.antt =====
-- There is one loop whenever there is a subscriber, and never more than one.
use address_verification.Base.{
  ◌<◌, ◌≡◌, refl, true, ◌==◌, ==_iff, if◌then◌else◌, arith, Bool-cases, inl, inr,
}
use address_verification.Account.Updates.{Updates, subscribe, end_round, Step, Reachable}

pub record IsOneLoop (s : Updates) : Type 0 where
  pub one_loop : s.running ≡ (if s.updating then 1 else 0)
  pub served : 0 < s.subscribers → s.updating ≡ true

subscribe-IsOneLoop : (s : Updates) → IsOneLoop s → IsOneLoop (subscribe s)
unfolding subscribe
subscribe-IsOneLoop s v = record { one_loop = ground (arith, v.one_loop); served = λ h. refl }

end_round-IsOneLoop : (s : Updates) → 0 < s.running → IsOneLoop s → IsOneLoop (end_round s)
unfolding end_round
end_round-IsOneLoop s h v = elim (Bool-cases (s.subscribers == 0)) [
  | inl none_left ↦
      let empty = (==_iff s.subscribers 0).0 none_left in
      rw (none_left, end_round)
        (record {
          one_loop = ground (arith, v.one_loop);
          served = λ some_left. absurd (omega (arith, empty));
        })
  | inr some_left ↦ rw (some_left, end_round) v
]

-- However subscriptions, departures and the rounds of the loop interleave: one goroutine runs
-- `updater` when `updating` is set and none when it is not, and it is set as long as there is a
-- subscriber.
pub Reachable-IsOneLoop : {s : Updates} → Reachable s → IsOneLoop s
Reachable-IsOneLoop Reachable.start = record { one_loop = refl; served = λ h. absurd (omega arith) }
Reachable-IsOneLoop (Reachable.next_step r step) = go (Reachable-IsOneLoop r) step
  where
    go : {s t : Updates} → IsOneLoop s → Step s t → IsOneLoop t
    go {s = s} v Step.subscribes = subscribe-IsOneLoop s v
    go {s = s} v (Step.leaves h) = record { one_loop = v.one_loop; served = λ k. v.served h }
    go {s = s} v (Step.ends_round h) = end_round-IsOneLoop s h v
