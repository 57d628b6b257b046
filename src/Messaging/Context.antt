-- ===== src/Messaging/Context.antt =====
-- The context of a request (nestjs-cls): set by the gateway's middleware
-- (apps/api-gateway/src/api-gateway.module.ts), sent in a message's headers by the publisher
-- (publisher/rmq-publisher.service.ts), and set again in the service that gets the message
-- (libs/common/src/context/shared-cls.module.ts).
use nest_microservices_tempo.Prelude.{
  ℕ, zero, suc, String, Bool, true, false, Option, none, some, ◌≡◌, ◌≢◌, refl, ap,
}

pub record ClsStore : Type 0 where
  pub correlation_id : Option String
  pub user_id : Option ℕ

abbrev pub empty_store : ClsStore
empty_store = record { correlation_id = none; user_id = none }

-- `X-Correlation-Id` and `X-User-Id`.
pub record MessageHeaders : Type 0 where
  pub x_correlation_id : Option String
  pub x_user_id : Option ℕ

-- The middleware: `id` is the generated id, which is also set as the response's `X-Correlation-Id`.
unfoldable pub setup_gateway : (id : String) → ClsStore → Option String × ClsStore
setup_gateway id store = (some id, record store { correlation_id = some id })

unfoldable pub request_headers : ClsStore → MessageHeaders
request_headers store = record {
  x_correlation_id = store.correlation_id;
  x_user_id = store.user_id;
}

-- `if (userId)`: 0 and undefined are false.
abbrev set_user : Option ℕ → ClsStore → ClsStore
set_user none store = store
set_user (some zero) store = store
set_user (some (suc n)) store = record store { user_id = some (suc n) }

abbrev header_correlation : Option MessageHeaders → Option String
header_correlation none = none
header_correlation (some h) = h.x_correlation_id

abbrev header_user : Option MessageHeaders → Option ℕ
header_user none = none
header_user (some h) = h.x_user_id

unfoldable pub setup_service : (is_rabbit : Bool) → Option MessageHeaders → ClsStore → ClsStore
setup_service false headers store = store
setup_service true headers store =
    set_user (header_user headers) (record store { correlation_id = header_correlation headers })

same_user :
    (id : String) (u : Option ℕ)
    → u ≢ some 0
    → set_user u (record { correlation_id = some id; user_id = none })
      ≡ record { correlation_id = some id; user_id = u }
same_user id none h = refl
same_user id (some zero) h = absurd (h refl)
same_user id (some (suc n)) h = refl

-- The service that is called runs in the context of its caller, when the user's id, if there is one,
-- is not 0: with the correlation id that the client was sent, and under the same user.
pub setup_service-request_headers :
    (id : String) (store : ClsStore)
    → store.user_id ≢ some 0
    → let (sent, here) = setup_gateway id store in
      (setup_service true (some (request_headers here)) empty_store ≡ here)
      × ((setup_service true (some (request_headers here)) empty_store).correlation_id ≡ sent)
unfolding setup_service request_headers setup_gateway
setup_service-request_headers id store h =
    let same = same_user id store.user_id h in (same, ap (λ s. s.correlation_id) same)
