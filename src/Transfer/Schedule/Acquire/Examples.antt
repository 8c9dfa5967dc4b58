-- ===== src/Transfer/Schedule/Acquire/Examples.antt =====
-- One upload on a primary account that has used its quota up, with a backup.
use tdrive.Base.{ℕ, ◌≡◌, refl, Bool, true, false, List, [], ◌∷◌}
use tdrive.Base.Int.{ℤ, pos}
use tdrive.Transfer.Quota.{ensure_loaded, may_start, fits, quota_limit}
use tdrive.Transfer.Limiter.{TaskLimiter, new_task_limiter, set_limit, enter}
use tdrive.Transfer.Schedule.{scan, first_account_for_transfer}
use tdrive.Transfer.Schedule.Examples.{backup, both, content, empty_db, unused}
use tdrive.Transfer.Schedule.Acquire.{
  Service, new_service, sync_limiter, Stage, joining, chosen, choose, choose_again, reserve_chosen,
}
use tdrive.Transfer.Schedule.Acquire.Stages.{
  scene, wake, with_limiter, Move, looks, observes, chooses, enters, chooses_again, reserves, task,
  World, world, Step, asked, moved, Steps, stop, next,
}
use tdrive.Transfer.Schedule.Acquire.Totals.{IsAccounted}
use tdrive.Transfer.Schedule.Acquire.Returns.{Returns}
use tdrive.Transfer.Schedule.Acquire.Accounting.{steps-IsAccounted}

abbrev limits : Bool → ℤ
limits u = pos 2

abbrev nobody : Bool → List ℕ
nobody u = []

abbrev synced_service : Service
synced_service = (sync_limiter true (pos 2) (new_service limits unused)).0

abbrev synced_woken : Bool → List ℕ
synced_woken = wake true [] nobody

abbrev one_active : TaskLimiter
one_active = record { limit = 2; active = 1; queue = []; granted = λ w. false; cancel = λ w. false }

abbrev entered_service : Service
entered_service = with_limiter true one_active synced_service

abbrev alone : Service → (Bool → List ℕ) → Stage → World
alone s woken st = world s woken (task content st ∷ [])

step :
    (s t : Service) (w v : Bool → List ℕ) (st later : Stage)
    → Move empty_db content (scene s w st) (scene t v later)
    → Step empty_db (alone s w st) (alone t v later)
step s t w v st later m = moved content [] [] (scene s w st) (scene t v later) m

abbrev again : (Service × List ℕ) × Stage
again = choose_again empty_db content both entered_service

abbrev got : (Service × List ℕ) × Stage
got = reserve_chosen empty_db content backup (again.0.0)

abbrev again_woken : Bool → List ℕ
again_woken = wake true (again.0.1) synced_woken

abbrev final : World
final = alone (got.0.0) (wake true (got.0.1) again_woken) (got.1)

joins : choose empty_db content both 0 synced_service ≡ (synced_service, joining)
unfolding choose first_account_for_transfer scan may_start fits ensure_loaded quota_limit
joins = refl

chooses_backup : again.1 ≡ chosen backup
unfolding choose_again first_account_for_transfer scan may_start fits ensure_loaded quota_limit
chooses_backup = refl

one_upload : Steps empty_db (world (new_service limits unused) nobody []) final
unfolding choose choose_again first_account_for_transfer scan may_start fits ensure_loaded
    quota_limit new_task_limiter set_limit enter
one_upload = next _ _ _ (asked content (new_service limits unused) nobody []) (
    next _ _ _ (step _ _ _ _ _ _ (looks true both (pos 2) (new_service limits unused) nobody)) (
      next _ _ _ (step _ _ _ _ _ _ (observes both synced_service synced_woken)) (
        next _ _ _ (step _ _ _ _ _ _ (chooses 20 both 0 synced_service synced_woken)) (
          next _ _ _
            (step _ _ _ _ _ _ (
              enters 7 (new_task_limiter (pos 2)) one_active synced_service synced_woken refl refl))
            (next _ _ _ (step _ _ _ _ _ _ (chooses_again 20 both entered_service synced_woken)) (
              next _ _ _ (step _ _ _ _ _ _ (reserves 20 backup (again.0.0) again_woken))
                (stop final)))))))

steps-IsAccounted_example : IsAccounted final
steps-IsAccounted_example = steps-IsAccounted empty_db limits unused (λ k. refl) final one_upload
