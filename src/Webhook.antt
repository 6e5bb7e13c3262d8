-- ===== src/Webhook.antt =====
-- internal/webhook/webhook.go: ExtractAddedSQL, the checks of ServeHTTP and process. The HMAC, the
-- queue behind AsyncEnqueue, the pipeline and the case mapping of texts that are not ASCII are
-- parameters; the body of a request comes with the values that its bytes spell.
pub mod Added
pub mod Request
pub mod Serve
pub mod Enqueued
