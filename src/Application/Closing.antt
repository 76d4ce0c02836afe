-- ===== src/Application/Closing.antt =====
-- Whether the programs close what they open.
use distributed_job_schedule.Prelude.{
  arith, ◌↔◌, ◌≡◌, ◌⊎◌, refl, inl, inr, Bool, true, false, ◌&&◌, List, [], ◌∷◌,
}
use distributed_job_schedule.Application.{
  Resource, Act, opens, closes, Dial, bad_dsn, not_created, no_ping, connected, error,
  consumer_failed, Ending, canceled, broken, returned, main_api, run_api, run_collector,
  same_resource,
}

-- Nothing is open at the end, and what is closed is always what was opened last of what is open.
abbrev pub nests : List Resource → List Act → Bool
nests [] [] = true
nests (r ∷ open_now) [] = false
nests open_now (opens r ∷ acts) = nests (r ∷ open_now) acts
nests [] (closes r ∷ acts) = false
nests (q ∷ open_now) (closes r ∷ acts) = same_resource q r && nests open_now acts

run_api-nests : (d : Dial) (e : Ending) → nests [] (run_api d e).0 ≡ true
unfolding run_api
run_api-nests bad_dsn e = refl
run_api-nests not_created e = refl
run_api-nests no_ping e = refl
run_api-nests connected e = refl

-- Whatever the database answers and whatever ends them, the API and the result collector close what they
-- have opened, in the reverse order: the API always; the result collector unless it is connected and
-- the first of its consumers to return has failed, and then it ends with that error.
pub programs-nest :
    (d d' : Dial) (e : Ending) (fails : Bool)
    → (nests [] (run_api d e).0 ≡ true)
      × ((nests [] (run_collector d' fails).0 ≡ true)
          ⊎ ((d' ≡ connected)
              × (fails ≡ true)
              × ((run_collector d' fails).1 ≡ error consumer_failed)))
unfolding run_collector
programs-nest d bad_dsn e fails = (run_api-nests d e, inl refl)
programs-nest d not_created e fails = (run_api-nests d e, inl refl)
programs-nest d no_ping e fails = (run_api-nests d e, inl refl)
programs-nest d connected e false = (run_api-nests d e, inl refl)
programs-nest d connected e true = (run_api-nests d e, inr (refl, refl, refl))

-- The API closes what it has opened whatever ends it, since `log.Fatal` comes behind the return of
-- `RunAPI`; and it exits without an error exactly if the configuration loads, the database answers, and
-- what ends it is its context, with the requests ending in time.
pub main_api-exits :
    (loads : Bool) (d : Dial) (e : Ending)
    → (nests [] (main_api loads d e).0 ≡ true)
      × (((main_api loads d e).1 ≡ returned)
          ↔ ((loads ≡ true) × (d ≡ connected) × (e ≡ canceled true)))
unfolding main_api
main_api-exits false d e = (refl, ((λ h. cc), λ h. cc (h.0)))
main_api-exits true bad_dsn e = (refl, ((λ h. cc), λ h. cc (h.1)))
main_api-exits true not_created e = (refl, ((λ h. cc), λ h. cc (h.1)))
main_api-exits true no_ping e = (refl, ((λ h. cc), λ h. cc (h.1)))
main_api-exits true connected (canceled true) = (refl, ((λ h. (refl, refl, refl)), λ h. refl))
main_api-exits true connected (canceled false) = (refl, ((λ h. cc), λ h. ground (arith, h.2)))
main_api-exits true connected broken = (refl, ((λ h. cc), λ h. cc (h.2)))
