-- ===== src/Tests/EchoJobs.antt =====
-- A part of an instance of Json that takes any payload.
use text.Mathlib.Text.{◌==◌ as str_eq}
use text.Mathlib.TextEquality.{eq_iff}
use distributed_job_schedule.Prelude.{◌≡◌, ◌&&◌, Option, none, some, ◌∷◌, if◌then◌else◌, arith}
use distributed_job_schedule.Prelude.Int.{pos}
use distributed_job_schedule.Broker.Messages.{Bytes, JobMessage}
use distributed_job_schedule.Tests.Instances.{magnitude, is_pos}

-- A marshaller of the jobs "echo", with any payload and no negative priority.
abbrev pub encode_job : JobMessage → Option Bytes
encode_job m =
    if str_eq m.type "echo" && is_pos m.priority
    then some (m.job_id ∷ m.worker_id ∷ magnitude m.priority ∷ m.attempts ∷ m.payload)
    else none

abbrev pub decode_job : Bytes → Option JobMessage
decode_job (i ∷ k ∷ p ∷ n ∷ payload) = some (record {
  job_id = i;
  worker_id = k;
  type = "echo";
  payload = payload;
  priority = pos p;
  attempts = n;
})
decode_job _ = none

pub decode-encode_job : (m : JobMessage) (b : Bytes) → encode_job m ≡ some b → decode_job b ≡ some m
decode-encode_job m b h = ground (arith, eq_iff m.type "echo")
