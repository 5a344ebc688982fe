-- ===== src/App/Services/Collision.antt =====
-- Registration (app/src/services/AuthService.cpp) keeps a user in Redis under the bare name, beside
-- the keys of the token manager (app/src/services/TokenManager.cpp).
use oj_backend.Prelude.{
  ℕ, String, ◌≡◌, ◌≢◌, refl, ap, sym, ◌∙◌, Bool, true, false, Option, none, some, arith, inl, inr,
  Bool-cases, if◌then◌else◌, eq_refl,
}
use oj_backend.Exceptions.Result.{Result, ok, err}
use oj_backend.Core.Types.{UserInfo}
use oj_backend.Core.Json.{JsonLib, dump_text}
use oj_backend.Core.Serial.{user_to_json}
use oj_backend.App.World.{Server, RedisLaws}
use oj_backend.App.Monad.{Act, pure, lift, ◌>>=◌}
use oj_backend.App.Monad.Inversion.{>>=-ok, >>=-eq-ok, not_refused}
use oj_backend.App.Redis.{set}
use oj_backend.App.Redis.Reads.{value-set}
use oj_backend.App.Token.{blacklist_key, verify_token}
use oj_backend.App.Token.Session.{verify_token_sound}
use oj_backend.App.Messages.{
  DbOperateMessage, is_valid, serialize, published, send, publish_db_operate,
}
use oj_backend.App.Services.{Config, ServiceInfo, ResponseStatusCode, reply}
use oj_backend.App.Services.Auth.{
  query_user_name_exist, registry_service, hash_password, register_as, record_user,
  random_generator, insert_message,
}

module _ {F : Type 0} (J : JsonLib F) (S : Server F) (cfg : Config) (laws : RedisLaws S)
    (stores : (k v : String) (ttl : ℕ) (w : S.World) → (S.redis_set k v ttl w).0 ≡ some true)
    (publish_keeps : (channel text j : String) (w : S.World)
      → S.value (S.redis_publish channel text w).1 j ≡ S.value w j) where
  published-state : (r : Option (Unit {0}) × S.World) → (published J S r).1 ≡ r.1
  published-state (some u, w) = refl
  published-state (none, w) = refl

  send_keeps :
      (channel j : String) (text : Result String) (w : S.World)
      → S.value (send J S channel text w).1 j ≡ S.value w j
  send_keeps channel j (err e) w = refl
  send_keeps channel j (ok text) w =
      ap (λ v. S.value v j) (published-state (S.redis_publish channel text w))
      ∙ publish_keeps channel text j w

  publish_db_operate_keeps :
      (channel j : String) (m : DbOperateMessage J) (w : S.World)
      → S.value (publish_db_operate J S channel m w).1 j ≡ S.value w j
  unfolding publish_db_operate
  publish_db_operate_keeps channel j m w = elim (Bool-cases (is_valid J m)) [
    | inl e ↦ rw e (send_keeps channel j (serialize J m) w)
    | inr e ↦ rw e refl
  ]

  set-stored : (k v : String) (ttl : ℕ) (w : S.World) → (set S k v ttl w).0 ≡ ok true
  unfolding set
  set-stored k v ttl w = ground (arith, stores k v ttl w)

  record_user-value :
      (user : UserInfo) (w : S.World) {r : ServiceInfo J}
      → (record_user J S cfg user w).0 ≡ ok r
      → (text : String) × (S.value (record_user J S cfg user w).1 user.username ≡ some text)
  unfolding record_user
  record_user-value user w h =
      let sending = publish_db_operate J S cfg.operate_channel (insert_message J S cfg user) in
      let last = reply J ResponseStatusCode.created "registration success" in
      let rest_of =
        λ (text : String). set S user.username text 900 >>= λ _. sending >>= λ _. pure last in
      let (text, t, h2) = >>=-eq-ok (lift (dump_text J (user_to_json J user))) rest_of w h in
      let e1 = >>=-ok (lift (dump_text J (user_to_json J user))) rest_of w t in
      let (stored, s, h3) =
        >>=-eq-ok (set S user.username text 900) (λ _. sending >>= λ _. pure last) w h2 in
      let e2 = >>=-ok (set S user.username text 900) (λ _. sending >>= λ _. pure last) w s in
      let w1 = (set S user.username text 900 w).1 in
      let (sent, p, h4) = >>=-eq-ok sending (λ _. pure last) w1 h3 in
      let e3 = >>=-ok sending (λ _. pure last) w1 p in
      let here : S.value w1 user.username ≡ some text =
        value-set S laws user.username text user.username 900 w
          (set-stored user.username text 900 w)
        ∙ rw (eq_refl user.username) refl in
      (
        text,
        ap (λ r. S.value r.1 user.username) (e1 ∙ e2 ∙ e3)
            ∙ publish_db_operate_keeps cfg.operate_channel user.username
                (insert_message J S cfg user) w1
            ∙ here,
      )

  register_as-value :
      (info : UserInfo) (o : Option String) (w : S.World) {r : ServiceInfo J}
      → (register_as J S cfg info o w).0 ≡ ok r
      → (text : String) × (S.value (register_as J S cfg info o w).1 info.username ≡ some text)
  unfolding register_as
  register_as-value info none w h = absurd (ground arith)
  register_as-value info (some hash) w h =
      let user : String → UserInfo =
        λ uuid. record info { user_uuid = uuid; password_hash = hash } in
      let (uuid, u, h1) =
        >>=-eq-ok (random_generator J S) (λ uuid. record_user J S cfg (user uuid)) w h in
      let e = >>=-ok (random_generator J S) (λ uuid. record_user J S cfg (user uuid)) w u in
      let (text, stored) = record_user-value (user uuid) (random_generator J S w).1 h1 in
      (text, ap (λ r. S.value r.1 info.username) e ∙ stored)

  registered :
      (taken : Bool) (info : UserInfo) (w : S.World) {r : ServiceInfo J}
      → ((if taken
            then pure (reply J ResponseStatusCode.conflict "username exist, please try other name")
            else (hash_password J S info.password_hash >>= register_as J S cfg info))
          w).0
        ≡ ok r
      → r.status ≡ ResponseStatusCode.created
      → taken ≡ false
  registered true info w h c = absurd (ground arith)
  registered false info w h c = refl

  registry_service-value :
      (info : UserInfo) (w : S.World) {r : ServiceInfo J}
      → (registry_service J S cfg info w).0 ≡ ok r
      → r.status ≡ ResponseStatusCode.created
      → (text : String) × (S.value (registry_service J S cfg info w).1 info.username ≡ some text)
  unfolding registry_service
  registry_service-value info w h c =
      let conflict_reply =
        reply J ResponseStatusCode.conflict "username exist, please try other name" in
      let going_on = hash_password J S info.password_hash >>= register_as J S cfg info in
      let choose : Bool → Act S.World (ServiceInfo J) =
        λ taken. if taken then pure conflict_reply else going_on in
      let (taken, q, h1) = >>=-eq-ok (query_user_name_exist J S info.username) choose w h in
      let w1 = (query_user_name_exist J S info.username w).1 in
      let free = registered taken info w1 h1 c in
      let e1 = >>=-ok (query_user_name_exist J S info.username) choose w q in
      let e2 = not_refused taken (pure conflict_reply) going_on w1 free in
      let h2 = ap (λ r. r.0) (sym e2) ∙ h1 in
      let (o, p, h3) =
        >>=-eq-ok (hash_password J S info.password_hash) (register_as J S cfg info) w1 h2 in
      let e3 = >>=-ok (hash_password J S info.password_hash) (register_as J S cfg info) w1 p in
      let (text, stored) = register_as-value info o _ h3 in
      (text, ap (λ r. S.value r.1 info.username) (e1 ∙ e2 ∙ e3) ∙ stored)

  -- While Redis answers, and publishing changes no key: a registration under a name that is the
  -- blacklist key of a token puts this token on the blacklist, and its owner's session is over.
  pub registry_ends_session :
      (info : UserInfo) (w : S.World) (token : String) (u : UserInfo) {r : ServiceInfo J}
      → info.username ≡ blacklist_key S cfg.tokens token
      → (registry_service J S cfg info w).0 ≡ ok r
      → r.status ≡ ResponseStatusCode.created
      → (verify_token S cfg.tokens token (registry_service J S cfg info w).1).0 ≢ ok (some u)
  registry_ends_session info w token u named h c v =
      let w1 = (registry_service J S cfg info w).1 in
      let (text, stored) = registry_service-value info w h c in
      let a = verify_token_sound S cfg.tokens laws token w1 {u = u} v in
      let same = ap (λ k. S.value w1 k) named in cc (a.not_listed, same, stored)
