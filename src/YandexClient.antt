-- ===== src/YandexClient.antt =====
-- internal/pkg/client: the client of the cloud over the SDK. Sdk has what the SDK offers, the
-- operations are in Compute, Alb and Nlb, and `yandex_client` fills the interface of the services.
pub mod Sdk
pub mod Compute
pub mod Alb
pub mod Nlb
pub mod Client
pub mod Refinement
pub mod Deletion
pub mod Requests
pub mod Reconciliation
