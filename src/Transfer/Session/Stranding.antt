-- ===== src/Transfer/Session/Stranding.antt =====
-- A request that gives up while it waits to join.
use tdrive.Base.{ℕ, ◌-◌, ◌+◌, ◌≡◌, refl, ◌∙◌, Bool, ◌&&◌, true, false, arith, if◌then◌else◌}
use tdrive.Base.Int.{ℤ}
use tdrive.Transfer.Session.{begin_join, grace_over, finish_session, record_bytes}
use tdrive.Transfer.Session.Lifetime.{
  World, world, Step, timed_out, served, ended, settled, arrived, went_on,
}

-- Between two requests: the slot is held, and the timer that would return it runs.
pub record IsResting (w : World) : Type 0 where
  pub has_slot : w.session.slot ≡ true
  pub no_request : w.session.active ≡ 0
  pub timer : w.session.idle ≡ true
  pub one_timer : w.pending ≡ 1
  pub no_joiner : w.joining ≡ 0
  pub leased : w.opening ≡ false

-- The slot is held and nothing that is under way will return it.
pub record IsStranded (w : World) : Type 0 where
  pub has_slot : w.session.slot ≡ true
  pub no_request : w.session.active ≡ 0
  pub no_timer : w.session.idle ≡ false
  pub none_pending : w.pending ≡ 0
  pub no_joiner : w.joining ≡ 0
  pub leased : w.opening ≡ false

-- A request finds the session in the map and waits to join it; `stopped` is whether a timer that runs
-- had not fired yet. This is the step `arrived`.
abbrev pub arrives : Bool → World → World
arrives stopped w =
    world (begin_join (w.session)) (w.joining + 1)
      (if w.session.idle && stopped then w.pending - 1 else w.pending) (w.opening) (w.returned)

-- Its context is done at the select: it returns an error and changes nothing.
abbrev pub gave_up : World → World
gave_up w = world (w.session) (w.joining - 1) (w.pending) (w.opening) (w.returned)

-- A run in which nobody waits to join.
module _ (max_conns : ℕ) (grace : ℤ) where
  pub data QuietSteps : World → World → Type 0 where
    ends : (w : World) → QuietSteps w w
    goes_on :
        (w v u : World) → Step max_conns grace w v → v.joining ≡ 0 → QuietSteps v u → QuietSteps w u

  step-IsStranded :
      (w v : World)
      → IsStranded w
      → v.joining ≡ 0
      → Step max_conns grace w v
      → IsStranded v × (v.returned ≡ w.returned)
  unfolding record_bytes
  step-IsStranded w v h q (settled e s j p n) = absurd (ground (arith, h.leased))
  step-IsStranded w v h q (arrived stopped s j p n o l) = absurd (omega (arith, q))
  step-IsStranded w v h q (went_on s j p n o r) = absurd (omega (arith, h.no_joiner))
  step-IsStranded w v h q (ended s j p n o a) = absurd (omega (arith, h.no_request))
  step-IsStranded w v h q (timed_out s j p n o) = absurd (omega (arith, h.none_pending))
  step-IsStranded w v h q (served bytes s j p n o) = (
    record {
      has_slot = ground (arith, h.has_slot);
      no_request = ground (arith, h.no_request);
      no_timer = ground (arith, h.no_timer);
      none_pending = h.none_pending;
      no_joiner = h.no_joiner;
      leased = h.leased;
    },
    refl,
  )

  quiet-IsStranded :
      (w v : World) → IsStranded w → QuietSteps w v → IsStranded v × (v.returned ≡ w.returned)
  quiet-IsStranded w v h (ends _) = (h, refl)
  quiet-IsStranded w v h (goes_on _ u _ st q rest) =
      let (k, e) = step-IsStranded w u h q st in
      let (l, f) = quiet-IsStranded u v k rest in (l, f ∙ e)

stopped-IsStranded : (w : World) → IsResting w → IsStranded (gave_up (arrives true w))
unfolding begin_join
stopped-IsStranded w h = rw (h.timer) (record {
  has_slot = h.has_slot;
  no_request = h.no_request;
  no_timer = refl;
  none_pending = omega (arith, h.one_timer);
  no_joiner = omega (arith, h.no_joiner);
  leased = h.leased;
})

fired-returns :
    (w : World)
    → IsResting w
    → ((gave_up (arrives false w)).pending ≡ 1)
      × ((grace_over ((gave_up (arrives false w)).session)).0 ≡ true)
unfolding begin_join grace_over finish_session
fired-returns w h = (ground (arith, h.one_timer), ground (arith, h.timer, h.no_request, h.has_slot))

-- A request comes to a session between two requests and its context is done before it joins. When it
-- has stopped the grace timer in time, then whatever runs after it, as long as nobody comes to join
-- again, the session holds its slot with no request and no timer, and the slot is not returned.
-- When the timer had fired already, its function is still to run, and returns the slot.
pub gave_up-IsStranded :
    (max_conns : ℕ) (grace : ℤ) (w : World)
    → IsResting w
    → ((v : World)
        → QuietSteps max_conns grace (gave_up (arrives true w)) v
        → IsStranded v × (v.returned ≡ w.returned))
      × ((gave_up (arrives false w)).pending ≡ 1)
      × ((grace_over ((gave_up (arrives false w)).session)).0 ≡ true)
gave_up-IsStranded max_conns grace w h =
    let (pending, returns) = fired-returns w h in
    (
      λ v run.
          quiet-IsStranded max_conns grace (gave_up (arrives true w)) v (stopped-IsStranded w h)
            run,
      pending,
      returns,
    )
