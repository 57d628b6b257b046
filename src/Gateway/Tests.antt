-- ===== src/Gateway/Tests.antt =====
-- The routes under a router that takes the first that matches, at one id.
use nest_microservices_tempo.Prelude.{All, refl, find?}
use nest_microservices_tempo.Gateway.{routes, Router, matches}
use nest_microservices_tempo.Gateway.Reached.{IsReached, routes-IsReached}

abbrev express : Router
express = record {
  take = λ l m segments. find? (matches m segments) l;
  take_first = λ l m segments. refl;
}

routes-IsReached_example : All (IsReached express "7") routes
routes-IsReached_example = routes-IsReached express "7" refl
