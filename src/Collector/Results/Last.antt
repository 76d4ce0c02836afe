-- ===== src/Collector/Results/Last.antt =====
-- A failure of the job at the end of its table.
use distributed_job_schedule.Prelude.{
  ◌≡◌, refl, ◌∙◌, Bool, false, some, List, [], ◌∷◌, ◌++◌, arith, any,
}
use distributed_job_schedule.Models.{Job}
use distributed_job_schedule.Errors.{ok}
use distributed_job_schedule.Repository.Database.{Database, Call, reachable}
use distributed_job_schedule.Repository.Jobs.{has_id, touch, verdict, mark_failed}
use distributed_job_schedule.Repository.Jobs.Single.{update-last}
use distributed_job_schedule.Broker.Messages.{ResultMessage}
use distributed_job_schedule.Broker.World.{World, Env, KafkaRecord}
use distributed_job_schedule.Broker.Producer.{publish}
use distributed_job_schedule.Repository.Jobs.Single.{job_at-appended}
use distributed_job_schedule.Collector.Results.{settle, handle_result}
use distributed_job_schedule.Collector.Results.Outcome.{deferred_keeps}

mark_failed-last :
    (c : Call) (jobs : List Job) (row : Job) (db : Database)
    → c.link ≡ reachable
    → any (has_id row.id) jobs ≡ false
    → db.jobs ≡ jobs ++ row ∷ []
    → let row' = touch c.now (record row { status = verdict 3 row }) in
      mark_failed c row.id 3 db ≡ (record db { jobs = jobs ++ row' ∷ [] }, ok (verdict 3 row))
unfolding mark_failed
mark_failed-last c jobs row db up free there =
    let failed = λ (j : Job). touch c.now (record j { status = verdict 3 j }) in
    rw
      (
        there,
        update-last (has_id row.id) failed jobs row free (ground arith),
        job_at-appended row.id jobs (failed row) refl free,
        up,
      )
      refl

-- The tables that it leaves.
pub handle_result-last :
    (env : Env) (cached : Bool) (r : KafkaRecord) (m : ResultMessage) (w : World) (jobs : List Job)
    (row : Job)
    → (env.call w.calls).link ≡ reachable
    → env.json.decode_result r.value ≡ some m
    → m.success ≡ false
    → m.job_id ≡ row.id
    → any (has_id row.id) jobs ≡ false
    → w.db.jobs ≡ jobs ++ row ∷ []
    → let row' = touch (env.call w.calls).now (record row { status = verdict 3 row }) in
      (handle_result env cached r w).0.db ≡ record w.db { jobs = jobs ++ row' ∷ [] }
unfolding handle_result settle publish
handle_result-last env cached r m w jobs row up decodes bad same free there = rw decodes (
    (deferred_keeps env cached m.job_id (settle env m w)).1
    ∙ rw (same, bad, mark_failed-last (env.call w.calls) jobs row w.db up free there)
        (ground arith))
