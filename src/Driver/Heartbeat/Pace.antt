-- ===== src/Driver/Heartbeat/Pace.antt =====
-- How often packets are sent.
use wave_judge.Prelude.{
  ℕ, zero, suc, ◌≤◌, Bool, true, false, List, [], ◌∷◌, Text, Result, ok, err, panic, arith,
}
use wave_judge.Sandbox.Memory.{Duration}
use wave_judge.Driver.Workers.Threads.{Thread, alive, dead}
use wave_judge.Driver.Heartbeat.{
  Heartbeat, Node, Event, slept, sent, max, min_heartbeat_interval, create_heartbeat, patched,
  packet, followed, round, rounds, heartbeat_daemon_entry,
}

-- Each packet has a sleep of its own before it, of at least `least`; `rested` says that the last event
-- was a sleep.
abbrev pub Paced : Duration → Bool → List Event → Type 0
Paced least rested [] = Unit
Paced least rested (slept d ∷ events) = (least ≤ d) × Paced least true events
Paced least true (sent hb ∷ events) = Paced least false events
Paced least false (sent hb ∷ events) = ⊥

Paced-rested :
    (least : Duration) (events : List Event) → Paced least false events → Paced least true events
Paced-rested least [] p = p
Paced-rested least (slept d ∷ events) p = p
Paced-rested least (sent hb ∷ events) p = absurd p

module _ {W E : Type 0} (node : Node W E) (least interval : Duration)
    (enough : least ≤ interval) where
  sent-Paced :
      (next : W → List Event × Thread W) (hb : Heartbeat) (thread : Thread W)
      → ((w : W) → Paced least false (next w).0)
      → Paced least false (followed next (slept interval ∷ sent hb ∷ [], thread)).0
  unfolding followed
  sent-Paced next hb (alive w) later = (enough, later w)
  sent-Paced next hb (dead w) later = (enough, tt)

  followed-Paced :
      (next : W → List Event × Thread W) (x : Result Text Heartbeat × W)
      → ((w : W) → Paced least false (next w).0)
      → Paced least false (followed next (slept interval ∷ (packet node x).0, (packet node x).1)).0
  unfolding packet followed
  followed-Paced next (ok hb, w) later =
      sent-Paced next hb (patched node (node.patch_heartbeat hb w)) later
  followed-Paced next (err e, w) later = (enough, Paced-rested least _ (later w))
  followed-Paced next (panic, w) later = (enough, tt)

  rounds-Paced : (n : ℕ) (w : W) → Paced least false (rounds node interval n w).0
  unfolding rounds round
  rounds-Paced zero w = tt
  rounds-Paced (suc n) w =
      followed-Paced (rounds node interval n) (create_heartbeat node w) (rounds-Paced n)

-- Whatever the configured interval, every packet of the thread has a sleep of its own before it, which
-- takes at least three seconds and at least the interval.
pub heartbeat_daemon_entry-Paced :
    {W E : Type 0} (node : Node W E) (interval : Duration) (n : ℕ) (w : W)
    → Paced min_heartbeat_interval false (heartbeat_daemon_entry node interval n w).0
      × Paced interval false (heartbeat_daemon_entry node interval n w).0
unfolding heartbeat_daemon_entry max
heartbeat_daemon_entry-Paced node interval n w = (
  rounds-Paced node min_heartbeat_interval _ (ground arith) n w,
  rounds-Paced node interval _ (ground arith) n w,
)
