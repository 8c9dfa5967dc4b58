-- ===== src/Transfer/Limiter/Examples.antt =====
-- A limiter with one slot and three tasks.
use tdrive.Base.{◌≡◌, refl, false, [], ◌∷◌}
use tdrive.Base.Int.{pos}
use tdrive.Transfer.Limiter.{
  TaskLimiter, dispatch_from, dispatch, enter, give_up, release, set_limit, new_task_limiter,
}
use tdrive.Transfer.Limiter.Slots.{gate, opened, entered, queued, released, stop, next, IsSound}
use tdrive.Transfer.Limiter.Fairness.{steps-IsSound}

abbrev one_slot : TaskLimiter
unfolding new_task_limiter
one_slot = new_task_limiter (pos 1)

abbrev first_in : TaskLimiter
unfolding enter one_slot
first_in = (enter 1 one_slot).0

abbrev second_waits : TaskLimiter
unfolding enter first_in one_slot
second_waits = (enter 2 first_in).0

abbrev third_waits : TaskLimiter
unfolding enter first_in second_waits one_slot
third_waits = (enter 3 second_waits).0

first_come : (release third_waits).1 ≡ 2 ∷ []
unfolding release dispatch dispatch_from enter third_waits second_waits first_in one_slot
    new_task_limiter
first_come = refl

wider : (set_limit (pos 5) third_waits).1 ≡ 2 ∷ 3 ∷ []
unfolding set_limit dispatch dispatch_from enter third_waits second_waits first_in one_slot
    new_task_limiter
wider = refl

overtaken_by_cancel : (give_up 2 third_waits).0.queue ≡ 3 ∷ []
unfolding give_up dispatch dispatch_from enter third_waits second_waits first_in one_slot
    new_task_limiter
overtaken_by_cancel = refl

abbrev two_waiting : TaskLimiter
two_waiting = record {
  limit = 2;
  active = 1;
  queue = 7 ∷ 8 ∷ [];
  granted = λ w. false;
  cancel = λ w. false;
}

steps-IsSound_example : IsSound (opened 0 [] (release second_waits))
unfolding enter first_in second_waits one_slot new_task_limiter
steps-IsSound_example = steps-IsSound (pos 1) (opened 0 [] (release second_waits)) (
    next (gate one_slot 0 []) (gate first_in 1 []) _ (entered 1 one_slot first_in 0 [] refl) (
      next _ (gate second_waits 1 []) _ (queued 2 first_in second_waits 1 [] refl tt refl refl)
        (next _ _ _ (released second_waits 0 []) (stop _))))
