-- ===== src/Market/Http.antt =====
-- The edge of the marketplace: the log of requests (дз_2/app/src/core/logging.py), and the answers to
-- errors and the bodies of responses (дз_2/app/src/main.py).
pub mod Json
pub mod Log
pub mod Responses
pub mod Validation
