-- ===== src/Api/Limit/Forwarded.antt =====
-- Whose requests are counted together.
use distributed_job_schedule.Prelude.{
  ℕ, ◌+◌, ◌<◌, ◌≡◌, false, none, some, [], ◌∷◌, ◌++◌, if◌then◌else◌, arith,
}
use distributed_job_schedule.Repository.Database.{reachable}
use distributed_job_schedule.Strings.{Text, is_empty, has, trim_space, split_host_port}
use distributed_job_schedule.Strings.Split.{split_lacks, split_once-append, split_last-append}
use distributed_job_schedule.Broker.World.{World, Env, Slot}
use distributed_job_schedule.Api.Limit.{same_slot, counter, Limiter, allow, extract_ip, rate_limit}
use distributed_job_schedule.Api.Limit.Counted.{counter-bump, same_slot_iff, slot_at}

-- A request that carries an address in X-Forwarded-For (with no comma, and no white space around
-- it) of which no request has been counted in this window passes, whatever connection it comes over
-- and however many of that connection's requests have been counted, and only the counter of the
-- address that it names goes up: over a Redis that answers, with a limit that is not 0.
pub rate_limit-forwarded :
    (env : Env) (l : Limiter) (second : ℕ) (ip addr : Text) (w : World)
    → env.redis w.calls ≡ reachable
    → 0 < l.limit
    → is_empty ip ≡ false
    → has b',' ip ≡ false
    → trim_space ip ≡ ip
    → counter (slot_at l (second, ip)) w.rates ≡ 0
    → let slot = slot_at l (second, ip) in
      let (w', refusal) =
        rate_limit env l second (record { forwarded_for = ip; remote_addr = addr }) w in
      (refusal ≡ none)
      × ((s : Slot)
          → counter s w'.rates
            ≡ (if same_slot slot s then counter s w.rates + 1 else counter s w.rates))
unfolding rate_limit extract_ip allow
rate_limit-forwarded env l second ip addr w up limited given lacks trimmed fresh =
    let slot = slot_at l (second, ip) in
    rw (given, split_lacks b',' ip lacks, trimmed)
      (
        ground (arith, counter-bump slot slot w.rates, same_slot_iff slot slot),
        λ s. ground (
          arith,
          counter-bump slot slot w.rates,
          same_slot_iff slot slot,
          counter-bump slot s w.rates,
        ),
      )

plain_host :
    (host port : Text)
    → has b':' host ≡ false
    → has b'[' host ≡ false
    → has b']' host ≡ false
    → has b'[' port ≡ false
    → has b']' port ≡ false
    → has b':' port ≡ false
    → split_host_port (host ++ b':' ∷ port) ≡ some host
unfolding split_host_port
plain_host [] port hc hl hr pl pr colon = rw (split_last-append b':' [] port colon) (ground arith)
plain_host (c ∷ host) port hc hl hr pl pr colon =
    rw (split_last-append b':' (c ∷ host) port colon) (ground arith)

bracketed_host :
    (host port : Text)
    → has b'[' host ≡ false
    → has b']' host ≡ false
    → has b'[' port ≡ false
    → has b']' port ≡ false
    → has b':' port ≡ false
    → split_host_port (b'[' ∷ (host ++ b']' ∷ b':' ∷ port)) ≡ some host
unfolding split_host_port
bracketed_host host port hl hr pl pr colon =
    rw (split_once-append b']' host (b':' ∷ port) hr) (ground arith)

-- Without that header the key is the host of the connection, with or without the brackets of IPv6 and
-- whatever the port: the host has no bracket, and no colon unless it is in brackets, and the port has
-- none of them.
pub extract_ip-direct :
    (v4 v6 port : Text)
    → has b':' v4 ≡ false
    → has b'[' v4 ≡ false
    → has b']' v4 ≡ false
    → has b'[' v6 ≡ false
    → has b']' v6 ≡ false
    → has b'[' port ≡ false
    → has b']' port ≡ false
    → has b':' port ≡ false
    → (extract_ip (record { forwarded_for = []; remote_addr = v4 ++ b':' ∷ port }) ≡ v4)
      × (extract_ip (record { forwarded_for = []; remote_addr = b'[' ∷ (v6 ++ b']' ∷ b':' ∷ port) })
          ≡ v6)
unfolding extract_ip
extract_ip-direct v4 v6 port c4 l4 r4 l6 r6 lp rp cp =
    (rw (plain_host v4 port c4 l4 r4 lp rp cp), rw (bracketed_host v6 port l6 r6 lp rp cp))
