-- ===== src/System/Cluster/Tests.antt =====
-- A run of the saga in which others place orders between all attempts, and every first answer is lost.
use nest_microservices_tempo.Prelude.{none, []}
use nest_microservices_tempo.Errors.{Result, ok, err}
use nest_microservices_tempo.Payment.Tests.{Account, gateway, ledger, stripe}
use nest_microservices_tempo.Workflow.{place_steps, place_order_workflow, nothing_done}
use nest_microservices_tempo.Workflow.Retry.{refund_policy}
use nest_microservices_tempo.Workflow.Rules.{Ensures}
use nest_microservices_tempo.Workflow.Repaid.{IsHonest}
use nest_microservices_tempo.System.{Services, create_attempt}
use nest_microservices_tempo.System.Tests.{always, dto, shop, start-Fresh}
use nest_microservices_tempo.System.Cluster.{
  Others, creates, Cluster, contended, IsSound, cluster_view,
}
use nest_microservices_tempo.System.Cluster.Repaid.{sparing, place-contended}

-- Someone else's order.
abbrev noise : Services Account → Services Account
noise s = (create_attempt dto [] none s).1

done_between :
    {A : Type 0} (Between : Services Account → Type 0) (Done : A → Services Account → Type 0)
    (x : Result A × Services Account)
    → Ensures Between Done x
    → ((a : A) (s : Services Account) → Done a s → Between s)
    → Between x.1
done_between Between Done (ok a, s) h f = f a s h
done_between Between Done (err e, s) h f = h

abbrev busy : Cluster (Services Account) (Others gateway always)
busy = record {
  execute = λ who p act s. act (noise (act (noise s)).1);
  attempts_law = λ who p act Between Done f back other s h. f _ (
      other _ _ (creates dto [] none)
        (done_between Between Done (act (noise s)) (f _ (other _ _ (creates dto [] none) h)) back));
}

shop-IsSound : IsSound ledger shop
shop-IsSound = (start-Fresh, (tt, tt))

place-contended_example :
    IsHonest
      (contended gateway always busy refund_policy)
      (cluster_view ledger)
      (sparing gateway ledger stripe always busy refund_policy)
      dto
      (place_steps (contended gateway always busy refund_policy) dto none (nothing_done, shop))
      (place_order_workflow (contended gateway always busy refund_policy) dto none shop)
place-contended_example =
    place-contended gateway ledger stripe always busy refund_policy dto none shop shop-IsSound
