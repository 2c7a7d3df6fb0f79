-- ===== src/Limits.antt =====
-- What bounds the traffic: the limiter of the routes (middleware/rateLimiter.middleware.ts), the
-- bucket and the pages of the calls to Applivery (utils/tokenBucket.ts,
-- services/appliveryPaginate.ts), and the cache of its answers (services/liveCache.ts).
pub mod Window
pub mod Bucket
pub mod Cache
pub mod Pages
mod Tests
