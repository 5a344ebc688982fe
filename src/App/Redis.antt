-- ===== src/App/Redis.antt =====
-- app/src/RedisManager.cpp: the calls of Redis, with their errors turned into SystemExceptions.
pub mod Reads
use oj_backend.Prelude.{ℕ, String, Bool, true, false, Option, none, some, ltb}
use oj_backend.Exceptions.Result.{Result, Error, ok, err}
use oj_backend.App.World.{Server}
use oj_backend.App.Monad.{Act}

module _ {F : Type 0} (S : Server F) where
  open S use {World}

  -- What each method makes of an answer of redis++; makeSystemException reads errno.
  abbrev pub answer : {A : Type 0} → String → Option A × World → Result A × World
  answer operation (some a, w) = (ok a, w)
  answer operation (none, w) = (err (Error.system (S.errno w) operation), w)

  -- RedisManager::set with a time to live
  unfoldable pub set : String → String → ℕ → Act World Bool
  set key value ttl w = answer "Redis set error" (S.redis_set key value ttl w)

  -- RedisManager::get
  unfoldable pub get : String → Act World (Option String)
  get key w = answer "Redis get error" (S.redis_get key w)

  abbrev positive : Result ℕ × World → Result Bool × World
  positive (ok n, w) = (ok (ltb 0 n), w)
  positive (err e, w) = (err e, w)

  -- RedisManager::del
  unfoldable pub del : String → Act World Bool
  del key w = positive (answer "Redis del error" (S.redis_del key w))

  -- RedisManager::exists
  unfoldable pub exists : String → Act World Bool
  exists key w = answer "Redis exists error" (S.redis_exists key w)

  -- RedisManager::expire, with m_KeyTTL
  unfoldable pub expire : ℕ → String → Act World Bool
  expire key_ttl key w = answer "Redis expire error" (S.redis_expire key key_ttl w)
