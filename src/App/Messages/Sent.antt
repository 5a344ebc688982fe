-- ===== src/App/Messages/Sent.antt =====
-- What RedisManager::publishDbOperate (app/src/RedisManager.cpp) has sent when it returns.
use oj_backend.Prelude.{
  String, ◌≡◌, refl, subst, Option, none, some, arith, inl, inr, Bool-cases, if◌then◌else◌,
}
use oj_backend.Exceptions.Result.{Result, Error, ok, err}
use oj_backend.Core.Json.{JsonLib}
use oj_backend.App.World.{Server}
use oj_backend.App.Services.{Config}
use oj_backend.App.Messages.{
  DbOperateMessage, is_valid, serialize, published, send, publish_db_operate,
}

pub ok-eq : {A : Type 0} {a b : A} → ◌≡◌ {A = Result A} (ok a) (ok b) → a ≡ b
ok-eq h = ground (arith, h)

module _ {F : Type 0} (J : JsonLib F) (S : Server F) (cfg : Config) where
  -- What was sent last: its text, and the state before and after.
  pub record Sent (m : DbOperateMessage J) (w' : S.World) : Type 0 where
    pub text : String
    pub before : S.World
    pub serialised : serialize J m ≡ ok text
    pub answered : (S.redis_publish cfg.operate_channel text before).0 ≡ some tt
    pub last : w' ≡ (S.redis_publish cfg.operate_channel text before).1

  -- How a message was sent in a state: its text was taken by Redis.
  abbrev pub Sends : DbOperateMessage J → S.World → S.World → Type 0
  Sends m w w' =
      (text : String) × (serialize J m ≡ ok text)
      × ((S.redis_publish cfg.operate_channel text w).0 ≡ some tt)
      × (w' ≡ (S.redis_publish cfg.operate_channel text w).1)

  published_ok :
      (r : Option (Unit {0}) × S.World) {u : Unit {0}}
      → (published J S r).0 ≡ ok u
      → (r.0 ≡ some tt) × ((published J S r).1 ≡ r.1)
  published_ok (some u, w) h = (refl, refl)
  published_ok (none, w) h = cc

  send-Sends :
      (m : DbOperateMessage J) (text : Result String) (w : S.World) {u : Unit {0}}
      → serialize J m ≡ text
      → (send J S cfg.operate_channel text w).0 ≡ ok u
      → Sends m w (send J S cfg.operate_channel text w).1
  send-Sends m (err e) w s h = cc
  send-Sends m (ok text) w s h =
      let (a, b) = published_ok (S.redis_publish cfg.operate_channel text w) h in (text, s, a, b)

  -- A message that was published was serialised, and its text was taken by Redis.
  pub publish_db_operate-Sends :
      (m : DbOperateMessage J) (w : S.World) {u : Unit {0}}
      → (publish_db_operate J S cfg.operate_channel m w).0 ≡ ok u
      → Sends m w (publish_db_operate J S cfg.operate_channel m w).1
  unfolding publish_db_operate
  publish_db_operate-Sends m w {u} h = elim (Bool-cases (is_valid J m)) [
    | inl e ↦ rw e (
        send-Sends m (serialize J m) w {u = u} refl (
          subst
            (λ b.
              (if b
                then send J S cfg.operate_channel (serialize J m) w
                else (err (Error.system (S.errno w) "Invalid message structure"), w)).0
              ≡ ok u)
            e h))
    | inr e ↦ absurd (ground (arith, e, h))
  ]

  pub publish_db_operate-Sent :
      (m : DbOperateMessage J) (w : S.World) {u : Unit {0}}
      → (publish_db_operate J S cfg.operate_channel m w).0 ≡ ok u
      → Sent m (publish_db_operate J S cfg.operate_channel m w).1
  publish_db_operate-Sent m w {u} h =
      let (text, s, a, b) = publish_db_operate-Sends m w {u = u} h in
      record { text = text; before = w; serialised = s; answered = a; last = b }
