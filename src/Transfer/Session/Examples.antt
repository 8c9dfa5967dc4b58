-- ===== src/Transfer/Session/Examples.antt =====
-- A download of one request, with a grace period.
use tdrive.Base.{◌≡◌, refl, true, false, arith}
use tdrive.Base.Int.{pos}
use tdrive.Transfer.Session.{
  DownloadSession, new_session, settle_session, begin_join, finish_session, end_request, grace_over,
}
use tdrive.Transfer.Session.Lifetime.{
  World, world, settled, ended, stop, next, IsKept, steps-IsKept,
}
use tdrive.Transfer.Session.Stranding.{
  IsResting, IsStranded, arrives, gave_up, QuietSteps, gave_up-IsStranded,
}

abbrev running : DownloadSession
unfolding settle_session
running = settle_session false new_session

abbrev paused : DownloadSession
unfolding end_request finish_session running
paused = (end_request (pos 20) running).session

steps-IsKept_example : IsKept (world paused 0 1 false 0)
unfolding settle_session end_request finish_session running paused
steps-IsKept_example = steps-IsKept 8 (pos 20) (world paused 0 1 false 0) (omega arith) (
    next _ (world running 0 0 false 0) _ (settled false new_session 0 0 0)
      (next _ _ _ (ended running 0 0 0 false (omega arith)) (stop _)))

abbrev idle_world : World
idle_world = world paused 0 1 false 0

idle_world-IsResting : IsResting idle_world
unfolding settle_session end_request finish_session running paused
idle_world-IsResting = record {
  has_slot = refl;
  no_request = refl;
  timer = refl;
  one_timer = refl;
  no_joiner = refl;
  leased = refl;
}

gave_up-IsStranded_example :
    ((v : World)
      → QuietSteps 8 (pos 20) (gave_up (arrives true idle_world)) v
      → IsStranded v × (v.returned ≡ 0))
    × ((gave_up (arrives false idle_world)).pending ≡ 1)
    × ((grace_over ((gave_up (arrives false idle_world)).session)).0 ≡ true)
gave_up-IsStranded_example = gave_up-IsStranded 8 (pos 20) idle_world idle_world-IsResting

returned_at_once : (end_request (pos 0) running).returned ≡ true
unfolding end_request finish_session settle_session running
returned_at_once = refl

abbrev left : DownloadSession
unfolding begin_join paused
left = begin_join paused

abbrev left_world : World
left_world = world left 0 0 false 0

left_world-IsStranded : IsStranded left_world
unfolding settle_session end_request finish_session running paused begin_join left
left_world-IsStranded = record {
  has_slot = refl;
  no_request = refl;
  no_timer = refl;
  none_pending = refl;
  no_joiner = refl;
  leased = refl;
}
