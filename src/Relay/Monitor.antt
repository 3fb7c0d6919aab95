-- ===== src/Relay/Monitor.antt =====
-- relay.py: the loop of `_monitor_limits`. While it sleeps, other tasks run.
use babeltower.Prelude.{
  ℕ, zero, suc, ◌+◌, ◌*◌, ◌≤◌, ◌<◌, String, ◌≡◌, refl, some, Bool, true, false, ◌⊎◌, inl, inr,
  if◌then◌else◌, leb, arith,
}
use babeltower.World.{World, SessionState}
use babeltower.Exec.{Exn, Result, ok, err, pure, continue, ◌>>◌}
use babeltower.Relay.Sockets.{get_state}
use babeltower.Relay.Persist.{active_window}
use babeltower.Relay.End.{
  monitor, inactivity_window, until_cancelled, end_session, monitor_state, monitor_limits,
}
use babeltower.Relay.Ended.{IsOver, end_session-IsOver}

-- `asyncio.sleep(5)`
abbrev pub monitor_sleep : ℕ
monitor_sleep = 5_000_000

-- How a loop stands after some rounds.
pub data Loop : Type 0 where
  ended running : World → Loop

-- After a round: does the loop go on?
unfoldable pub after_round : (World → Loop) → Result Bool × World → Loop
after_round next (ok true, w) = next w
after_round next (ok false, w) = ended w
after_round next (err e, w) = ended w

module _ (others : ℕ → World → World) (session_id : String) where
  -- The loop for a number of rounds, `others` being what other tasks do until the given time.
  unfoldable pub monitor_loop : ℕ → ℕ → World → Loop
  unfolding after_round
  monitor_loop zero now w = running w
  monitor_loop (suc n) now w =
      let later = now + monitor_sleep in
      after_round (monitor_loop n later) (monitor_limits session_id later (others later w))

  -- The relay holds the session, and both members have been there since the given time.
  abbrev pub IsStarted : ℕ → World → Type 0
  IsStarted at w = (s : SessionState) × (get_state session_id w ≡ some s) × (s.active_at ≡ some at)

  -- A round ends the loop with the session over, or the thirty minutes are not.
  Rounds : ℕ → ℕ → World → Result Bool × World → Type 0
  Rounds at now w p =
      ((p ≡ (ok true, w)) × (now < at + active_window))
      ⊎ ((v : World) × ((next : World → Loop) → after_round next p ≡ ended v) × IsOver session_id v)

  stops :
      (e : Exn) (v : World) (next : World → Loop)
      → after_round next (until_cancelled false (err e, v)) ≡ ended v
  unfolding after_round
  stops e v next = elim e as (λ k. after_round next (until_cancelled false (err k, v)) ≡ ended v) [
    | Exn.cancelled_error ↦ refl
    | _ ↦ refl
  ]

  -- The end of a session by the monitor task, cancelled or not.
  ended-Rounds :
      (at now : ℕ) (reason : String) (w : World) {s : SessionState}
      → get_state session_id w ≡ some s
      → Rounds at now w
          (until_cancelled false ((end_session monitor session_id reason now >> pure false) w))
  unfolding Rounds after_round
  ended-Rounds at now reason w {s} e =
      go (end_session monitor session_id reason now w)
        (end_session-IsOver monitor session_id reason now w {s = s} e)
    where
      go :
          (p : Result (Unit {0}) × World)
          → IsOver session_id p.1
          → Rounds at now w (until_cancelled false (continue p.0 (λ _. pure false) p.1))
      go (ok a, v) o = inr (v, λ next. refl, o)
      go (err e, v) o = inr (v, λ next. stops e v next, o)

  elapsed-Rounds :
      (at now : ℕ) (w : World) (s : SessionState) (closed elapsed quiet : Bool)
      → get_state session_id w ≡ some s
      → s.closed ≡ closed
      → leb (at + active_window) now ≡ elapsed
      → Rounds at now w (
          until_cancelled false (
            (if closed
                then pure false
                else if elapsed
                then (end_session monitor session_id "time_limit_reached" now >> pure false)
                else if quiet
                then (end_session monitor session_id "inactivity" now >> pure false)
                else pure true)
              w))
  unfolding Rounds after_round
  elapsed-Rounds at now w s true elapsed quiet e c t = inr (w, λ next. refl, (s, e, c))
  elapsed-Rounds at now w s false true quiet e c t =
      ended-Rounds at now "time_limit_reached" w {s = s} e
  elapsed-Rounds at now w s false false true e c t = ended-Rounds at now "inactivity" w {s = s} e
  elapsed-Rounds at now w s false false false e c t = inl (refl, ground (arith, t))

  monitor_limits-Rounds :
      (at now : ℕ) (w : World) → IsStarted at w → Rounds at now w (monitor_limits session_id now w)
  unfolding monitor_limits monitor_state
  monitor_limits-Rounds at now w (s, e, a) =
      rw (e, a)
        (elapsed-Rounds at now w s s.closed (leb (at + active_window) now)
          (leb (s.last_message_at + inactivity_window) now) e refl refl)

  -- Where no other task takes the session out of the relay or changes when it started, the monitor's
  -- loop ends within as many rounds as reach the end of the thirty minutes, also where a match has
  -- just been confirmed, and then the relay holds the session as over.
  pub monitor_loop-ends :
      (at : ℕ)
      → ((now : ℕ) (w : World) → IsStarted at w → IsStarted at (others now w))
      → (n now : ℕ) (w : World) → IsStarted at w
      → at + active_window ≤ now + suc n * monitor_sleep
      → (v : World) × (monitor_loop (suc n) now w ≡ ended v) × IsOver session_id v
  unfolding monitor_loop Rounds after_round
  monitor_loop-ends at keeps zero now w h t =
      let later = now + monitor_sleep in
      elim (monitor_limits-Rounds at later (others later w) (keeps later w h)) [
        | inl (e, early) ↦ absurd (omega (arith, early, t))
        | inr (v, stop, over) ↦ (v, stop (monitor_loop zero later), over)
      ]
  monitor_loop-ends at keeps (suc n) now w h t =
      let later = now + monitor_sleep in
      elim (monitor_limits-Rounds at later (others later w) (keeps later w h)) [
        | inl (e, early) ↦ rw e (
            monitor_loop-ends at keeps n later (others later w) (keeps later w h)
              (omega (arith, t)))
        | inr (v, stop, over) ↦ (v, stop (monitor_loop (suc n) later), over)
      ]
