-- ===== src/App/Services/Registration.antt =====
-- From a registration (app/src/services/AuthService.cpp) to the row that the subscriber
-- (app/src/Application.cpp) inserts.
pub mod Login
use oj_backend.Prelude.{
  String, ◌≡◌, refl, ap, sym, ◌∙◌, subst, Bool, true, false, Option, none, some, List, [], ◌∷◌,
  arith, inl, inr, Bool-cases, if◌then◌else◌, all,
}
use oj_backend.Exceptions.Result.{Result, Error, ok, err}
use oj_backend.Core.Types.{UserInfo}
use oj_backend.Core.Json.{JsonLib, JsonLaws, dump_text}
use oj_backend.Core.Serial.{user_to_json}
use oj_backend.App.World.{Server, Binding}
use oj_backend.App.Monad.{Act, pure, lift, ◌>>=◌}
use oj_backend.App.Monad.Inversion.{>>=-ok, >>=-eq-ok, not_refused}
use oj_backend.App.Redis.{set}
use oj_backend.App.Operations.{set_sql_variables, bind_kind}
use oj_backend.App.Operations.Bindings.{is_scalar}
use oj_backend.App.Messages.{publish_db_operate}
use oj_backend.App.Messages.Sent.{Sent, publish_db_operate-Sent, ok-eq}
use oj_backend.App.Subscriber.{process_db_operate_event}
use oj_backend.App.Subscriber.Delivery.{insertion_delivered}
use oj_backend.App.Services.{Config, ServiceInfo, ResponseStatusCode, reply}
use oj_backend.App.Services.Auth.{
  query_user_name_exist, registry_service, hash_password, register_as, record_user,
  random_generator, insert_message, insert_user,
}

-- The values that are bound for a user.
abbrev pub user_values : {F : Type 0} → UserInfo → List (Binding F)
user_values user =
    Binding.set_string user.user_uuid
    ∷ Binding.set_string user.username
    ∷ Binding.set_string user.password_hash
    ∷ Binding.set_string user.email
    ∷ []

module _ {F : Type 0} (J : JsonLib F) (S : Server F) (cfg : Config) where
  -- The user that a registration makes: the hash is one that the library has made of the password.
  pub record Registered (info : UserInfo) (w' : S.World) : Type 0 where
    pub user : UserInfo
    pub username : user.username ≡ info.username
    pub email : user.email ≡ info.email
    pub hashing : S.World
    pub hashed : (S.pwhash info.password_hash hashing).0 ≡ some user.password_hash
    pub sent : Sent J S cfg (insert_message J S cfg user) w'

  record_user-Sent :
      (user : UserInfo) (w : S.World) {r : ServiceInfo J}
      → (record_user J S cfg user w).0 ≡ ok r
      → Sent J S cfg (insert_message J S cfg user) (record_user J S cfg user w).1
  unfolding record_user
  record_user-Sent user w h =
      let sending = publish_db_operate J S cfg.operate_channel (insert_message J S cfg user) in
      let last = reply J ResponseStatusCode.created "registration success" in
      let rest_of =
        λ (text : String). set S user.username text 900 >>= λ _. sending >>= λ _. pure last in
      let (text, t, h2) = >>=-eq-ok (lift (dump_text J (user_to_json J user))) rest_of w h in
      let e1 = >>=-ok (lift (dump_text J (user_to_json J user))) rest_of w t in
      let (stored, s, h3) =
        >>=-eq-ok (set S user.username text 900) (λ _. sending >>= λ _. pure last) w h2 in
      let e2 = >>=-ok (set S user.username text 900) (λ _. sending >>= λ _. pure last) w s in
      let w1 = (set S user.username text 900 w).1 in
      let (u, p, h4) = >>=-eq-ok sending (λ _. pure last) w1 h3 in
      let e3 = >>=-ok sending (λ _. pure last) w1 p in
      subst (Sent J S cfg (insert_message J S cfg user)) (sym (ap (λ q. q.1) (e1 ∙ e2 ∙ e3)))
        (publish_db_operate-Sent J S cfg (insert_message J S cfg user) w1 {u = u} p)

  register_as-Registered :
      (info : UserInfo) (o : Option String) (hashing w : S.World) {r : ServiceInfo J}
      → (S.pwhash info.password_hash hashing).0 ≡ o
      → (register_as J S cfg info o w).0 ≡ ok r
      → Registered info (register_as J S cfg info o w).1
  unfolding register_as
  register_as-Registered info none v w e h = absurd (ground (arith, h))
  register_as-Registered info (some hash) v w e h =
      let user : String → UserInfo =
        λ uuid. record info { user_uuid = uuid; password_hash = hash } in
      let (uuid, u, h1) =
        >>=-eq-ok (random_generator J S) (λ uuid. record_user J S cfg (user uuid)) w h in
      let e1 = >>=-ok (random_generator J S) (λ uuid. record_user J S cfg (user uuid)) w u in
      record {
        user = user uuid;
        username = refl;
        email = refl;
        hashing = v;
        hashed = e;
        sent =
            subst (Sent J S cfg (insert_message J S cfg (user uuid))) (sym (ap (λ q. q.1) e1))
              (record_user-Sent (user uuid) (random_generator J S w).1 h1);
      }

  registered :
      (taken : Bool) (info : UserInfo) (w : S.World) {r : ServiceInfo J}
      → ((if taken
            then pure (reply J ResponseStatusCode.conflict "username exist, please try other name")
            else (hash_password J S info.password_hash >>= register_as J S cfg info))
          w).0
        ≡ ok r
      → r.status ≡ ResponseStatusCode.created
      → taken ≡ false
  registered true info w h c = absurd (ground arith)
  registered false info w h c = refl

  hash_password-eq :
      (password : String) (w : S.World) {o : Option String}
      → (hash_password J S password w).0 ≡ ok o
      → (S.pwhash password w).0 ≡ o
  unfolding hash_password
  hash_password-eq password w h = ground (arith, h)

  registry_service-Registered :
      (info : UserInfo) (w : S.World) {r : ServiceInfo J}
      → (registry_service J S cfg info w).0 ≡ ok r
      → r.status ≡ ResponseStatusCode.created
      → Registered info (registry_service J S cfg info w).1
  unfolding registry_service
  registry_service-Registered info w h c =
      let conflict_reply =
        reply J ResponseStatusCode.conflict "username exist, please try other name" in
      let hashing = hash_password J S info.password_hash in
      let going_on = hashing >>= register_as J S cfg info in
      let choose : Bool → Act S.World (ServiceInfo J) =
        λ taken. if taken then pure conflict_reply else going_on in
      let (taken, q, h1) = >>=-eq-ok (query_user_name_exist J S info.username) choose w h in
      let w1 = (query_user_name_exist J S info.username w).1 in
      let free = registered taken info w1 h1 c in
      let e1 = >>=-ok (query_user_name_exist J S info.username) choose w q in
      let e2 = not_refused taken (pure conflict_reply) going_on w1 free in
      let (o, p, h3) =
        >>=-eq-ok hashing (register_as J S cfg info) w1 (ap (λ r. r.0) (sym e2) ∙ h1) in
      let e3 = >>=-ok hashing (register_as J S cfg info) w1 p in
      subst (Registered info) (sym (ap (λ q. q.1) (e1 ∙ e2 ∙ e3))) (
        register_as-Registered info o w1 (hashing w1).1 (hash_password-eq info.password_hash w1 p)
          h3)

  module _ (laws : JsonLaws J) where
    user_scalars :
        (user : UserInfo)
        → all
            (λ p. is_scalar (J.kind p))
            (J.str user.user_uuid
              ∷ J.str user.username
              ∷ J.str user.password_hash
              ∷ J.str user.email
              ∷ [])
          ≡ true
    user_scalars user = simp laws.kind-str

    user_plain :
        (user : UserInfo)
        → all J.is_plain (
            J.str user.user_uuid
            ∷ J.str user.username
            ∷ J.str user.password_hash
            ∷ J.str user.email
            ∷ [])
          ≡ true
    user_plain user = simp laws.is_plain-str

    user_bound :
        (user : UserInfo)
        → set_sql_variables J (
            J.str user.user_uuid
            ∷ J.str user.username
            ∷ J.str user.password_hash
            ∷ J.str user.email
            ∷ [])
          ≡ ok (user_values user)
    unfolding set_sql_variables bind_kind
    user_bound user = simp laws.kind-str

    -- With the JSON library as documented: a registration that replied Created has, as the last
    -- thing it did, published a text that was taken, and when the subscriber runs this text, at any
    -- time, it inserts one user: with the name and the email address of the request, a hash that
    -- was made of its password, and an identifier.
    pub registration_inserted :
        (info : UserInfo) (w v : S.World) {r : ServiceInfo J}
        → (registry_service J S cfg info w).0 ≡ ok r
        → r.status ≡ ResponseStatusCode.created
        → (g : Registered info (registry_service J S cfg info w).1) × (process_db_operate_event J S
              g.sent.text v
            ≡ (ok tt, (S.execute_statement insert_user (user_values g.user) v).1))
    unfolding insert_message
    registration_inserted info w v h c =
        let g = registry_service-Registered info w h c in
        let (bs, _, bound, run) =
          insertion_delivered J laws S (insert_message J S cfg g.user) _ v refl refl
            (user_scalars g.user) (user_plain g.user) g.sent.serialised in
        let same : bs ≡ user_values g.user = ok-eq (sym bound ∙ user_bound g.user) in
        (g, run ∙ ap (λ x. (ok tt, (S.execute_statement insert_user x v).1)) same)
