-- ===== src/OrchestratorUi/Tests.antt =====
-- The theorem on the schedules that are shown, at a concrete agent.
use yucca.Common.{◌≡◌, ◌≢◌, refl, [], ◌∷◌}
use yucca.Common.Monad.{ok}
use yucca.Orchestrator.Schedules.Rows.{
  add_repository, remove_repository, remove_row, update_row, get, publish,
}
use yucca.Orchestrator.Schedules.Service.{
  update, remove, restart, handle, handle_all, update_schedule, remove_schedule,
  apply_schedule_update, update_cron_job, delete_cron_job,
}
use yucca.Orchestrator.Schedules.Tests.{
  names, parses, agent, agent-IsSound, ask, asked, update-restart,
}
use yucca.OrchestratorUi.Schedules.Following.{IsFollowed, handle-IsFollowed}
use yucca.OrchestratorUi.Schedules.Requests.{handle_all-IsFollowed}

handle-IsFollowed_example :
    IsFollowed (agent "0 1 * * *") (handle names parses (update 9 ask) (agent "0 1 * * *")).1
handle-IsFollowed_example =
    handle-IsFollowed names parses (update 9 ask) (agent "0 1 * * *") update-restart agent-IsSound
      asked

remove-restart : remove 9 ≢ restart
remove-restart e = cc

-- the removal after the update is served
removed :
    (handle names parses (remove 9) (handle names parses (update 9 ask) (agent "0 1 * * *")).1).0
    ≡ ok tt
unfolding handle update_schedule remove_schedule apply_schedule_update add_repository
    remove_repository remove_row update_row get publish update_cron_job delete_cron_job
removed = refl

handle_all-IsFollowed_example :
    IsFollowed
      (agent "0 1 * * *")
      (handle_all names parses (update 9 ask ∷ remove 9 ∷ []) (agent "0 1 * * *"))
handle_all-IsFollowed_example =
    handle_all-IsFollowed names parses (update 9 ask ∷ remove 9 ∷ []) (agent "0 1 * * *")
      agent-IsSound (update-restart, asked, (remove-restart, removed, tt))
