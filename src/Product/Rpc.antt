-- ===== src/Product/Rpc.antt =====
-- apps/product-service/src/modules/product/product.service.ts: the handler that starts the workflow
-- which creates a product. Temporal's part is a function of the arguments and of a state that is
-- not read here.
use nest_microservices_tempo.Prelude.{String, none, some, if◌then◌else◌}
use nest_microservices_tempo.Errors.{
  Message, Result, ok, err, AppErrorCode, ProductErrorCode, internal_server_error_exception,
}
use nest_microservices_tempo.Order.Service.{WorkflowExecutionResult, WorkflowId}
use nest_microservices_tempo.Product.{CreateProductDto}

abbrev pub StartProduct : Type 0 → Type 0
StartProduct S = CreateProductDto → WorkflowId → S → WorkflowExecutionResult × S

-- The workflow's id is `create-product-${correlationId}`, and the answer is that id.
unfoldable pub create_product_rpc :
    {S : Type 0}
    → StartProduct S
    → (correlation_id : String) → CreateProductDto
    → S
    → Result WorkflowId × S
create_product_rpc start correlation_id dto s =
    let id : WorkflowId = record { prefix = "create-product-"; correlation_id = correlation_id } in
    let (r, s') = start dto id s in
    (
      if r.success
          then ok id
          else err (elim r.error [
            | some e ↦ e
            | none ↦
                internal_server_error_exception (Message.text "Failed to start workflow")
                  (AppErrorCode.product ProductErrorCode.not_found)
          ]),
      s',
    )
