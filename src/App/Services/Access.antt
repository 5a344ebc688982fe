-- ===== src/App/Services/Access.antt =====
-- Which calls of the services (app/src/services) need a token, and what happens without one.
use oj_backend.Prelude.{String, ◌≡◌, ◌≢◌, refl, ap, sym, ◌∙◌, true, Option, none, some, arith}
use oj_backend.Exceptions.Result.{ok}
use oj_backend.Core.Types.{UserInfo, ProblemInfo, ProblemLimitsInfo, TestCaseInfo, SubmissionInfo}
use oj_backend.Core.Json.{JsonLib}
use oj_backend.App.World.{Server, RedisLaws, JwtLaws}
use oj_backend.App.Monad.{Act, ◌>>=◌}
use oj_backend.App.Monad.Inversion.{>>=-ok, >>=-eq-ok}
use oj_backend.App.Token.{verify_token, invalidate_token, get_token_expiry}
use oj_backend.App.Token.Session.{Accepted, verify_token_sound}
use oj_backend.App.Token.Revoke.{invalidate_ends}
use oj_backend.App.Services.{
  Config, ServiceInfo, status_code, is_success, create_auth_failed_resp, authenticate,
}
use oj_backend.App.Services.Problem.{
  authenticated, creating_problem, create_problem, adding_limit, add_problem_limit, uploading,
  upload_test_cases,
}
use oj_backend.App.Services.Submission.{submitting, submit, querying, query_submission}

-- The operations that authenticate with verifyToken; getProblemList is none of them.
pub data Operation (F : Type 0) : Type 0 where
  creates_problem : ProblemInfo → Operation F
  adds_limit : ProblemLimitsInfo F → Operation F
  uploads : TestCaseInfo → Operation F
  submits : SubmissionInfo → Operation F
  queries : String → Operation F

module _ {F : Type 0} (J : JsonLib F) (S : Server F) (cfg : Config)
    (enqueue : SubmissionInfo → Act S.World (Unit {0})) where
  unfoldable pub perform : Operation F → String → Act S.World (ServiceInfo J)
  perform (creates_problem info) token = create_problem J S cfg info token
  perform (adds_limit info) token = add_problem_limit J S cfg info token
  perform (uploads info) token = upload_test_cases J S cfg info token
  perform (submits info) token = submit J S cfg enqueue info token
  perform (queries id) token = query_submission J S cfg id token

  -- What an operation does for a user.
  abbrev allowed : Operation F → Act S.World (ServiceInfo J)
  allowed (creates_problem info) = creating_problem J S cfg info
  allowed (adds_limit info) = adding_limit J S cfg info
  allowed (uploads info) = uploading J S cfg info
  allowed (submits info) = submitting J S cfg enqueue info
  allowed (queries id) = querying J S cfg id

  perform_lem :
      (op : Operation F) (token : String) (w : S.World)
      → perform op token w ≡ (authenticate J S cfg token >>= authenticated J S cfg (allowed op)) w
  unfolding perform create_problem add_problem_limit upload_test_cases submit query_submission
  perform_lem (creates_problem info) token w = refl
  perform_lem (adds_limit info) token w = refl
  perform_lem (uploads info) token w = refl
  perform_lem (submits info) token w = refl
  perform_lem (queries id) token w = refl

  -- An operation whose token verifyToken does not accept replies that the authentication has
  -- failed, and leaves the world as that check left it: nothing is stored, published or queued.
  pub perform_refused :
      (op : Operation F) (token : String) (w : S.World)
      → (verify_token S cfg.tokens token w).0 ≡ ok none
      → perform op token w ≡ (ok (create_auth_failed_resp J), (verify_token S cfg.tokens token w).1)
  unfolding authenticate
  perform_refused op token w h =
      perform_lem op token w
      ∙ >>=-ok (authenticate J S cfg token) (authenticated J S cfg (allowed op)) w h

  granted :
      (op : Operation F) (o : Option UserInfo) (w : S.World) {r : ServiceInfo J}
      → (authenticated J S cfg (allowed op) o w).0 ≡ ok r
      → is_success r.status ≡ true
      → (u : UserInfo) × (o ≡ some u)
  unfolding create_auth_failed_resp is_success status_code
  granted op none w h s = absurd (ground (arith, h))
  granted op (some u) w h s = (u, refl)

  -- With Redis as documented, a request that creates a problem, adds limits, uploads test cases,
  -- submits or queries a submission, and that replies with success, has a token that is accepted:
  -- signed, unexpired, not blacklisted, and the active token of its user. The list of problems,
  -- which looks the token up as a key, is not among them.
  pub perform_authorised :
      RedisLaws S
      → (op : Operation F) (token : String) (w : S.World) {r : ServiceInfo J}
      → (perform op token w).0 ≡ ok r
      → is_success r.status ≡ true
      → (u : UserInfo) × Accepted S cfg.tokens token w u
  unfolding authenticate
  perform_authorised laws op token w h s =
      let (o, a, g) =
        >>=-eq-ok (authenticate J S cfg token) (authenticated J S cfg (allowed op)) w
          (ap (λ r. r.0) (sym (perform_lem op token w)) ∙ h) in
      let (u, e) = granted op o _ g s in
      (u, verify_token_sound S cfg.tokens laws token w {u = u} (a ∙ ap ok e))

  -- With Redis and the token library as documented, after invalidateToken has returned true for a
  -- token, at another time than exactly that of its expiry, no operation with it replies with success.
  pub perform_revoked :
      JwtLaws S
      → RedisLaws S
      → (op : Operation F) (token : String) (w : S.World) (r : ServiceInfo J)
      → get_token_expiry S cfg.tokens token ≢ some (S.clock w)
      → (invalidate_token S cfg.tokens token w).0 ≡ ok true
      → is_success r.status ≡ true
      → (perform op token (invalidate_token S cfg.tokens token w).1).0 ≢ ok r
  unfolding authenticate
  perform_revoked jwt laws op token w r n i s h =
      let w1 = (invalidate_token S cfg.tokens token w).1 in
      let (o, a, g) =
        >>=-eq-ok (authenticate J S cfg token) (authenticated J S cfg (allowed op)) w1
          (ap (λ r. r.0) (sym (perform_lem op token w1)) ∙ h) in
      let (u, e) = granted op o _ g s in
      invalidate_ends S cfg.tokens jwt laws token w u n i (a ∙ ap ok e)
