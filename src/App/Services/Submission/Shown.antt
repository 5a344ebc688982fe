-- ===== src/App/Services/Submission/Shown.antt =====
-- What a query of a submission shows (app/src/services/SubmissionService.cpp) while Redis has the
-- entry that submit made.
use Prim.Native.String.{◌++◌}
use oj_backend.Prelude.{String, ◌≡◌, refl, ap, sym, ◌∙◌, Bool, true, Option, some, eq_refl}
use oj_backend.Exceptions.Result.{ok}
use oj_backend.Core.Types.{SubmissionInfo}
use oj_backend.Core.Json.{JsonLib, JsonLaws, dump_text, find_key}
use oj_backend.Core.Serial.{submission_to_json}
use oj_backend.App.World.{Server, RedisLaws, is_some}
use oj_backend.App.Monad.{Act, lift}
use oj_backend.App.Monad.Inversion.{>>=-ok, >>=-eq-ok, allowed}
use oj_backend.App.Redis.{set, get, exists}
use oj_backend.App.Redis.Reads.{get-value, exists-value, value-exists, value-set}
use oj_backend.Core.Serializable.RoundTrip.{dump_text-eq}
use oj_backend.App.Messages.Sent.{ok-eq}
use oj_backend.App.Services.{Config, ServiceInfo}
use oj_backend.App.Services.Auth.{random_generator}
use oj_backend.App.Services.Submission.{
  process_judge_task, submitting, querying, status_reply, optional_text,
}

module _ {F : Type 0} (J : JsonLib F) (S : Server F) (cfg : Config) where
  -- The submission that is made of a request, and its key in Redis.
  abbrev pub identified : SubmissionInfo → S.World → SubmissionInfo
  identified info w = record info { submission_id = (S.random_uuid w).0 }

  abbrev pub submission_key : S.World → String
  submission_key w = cfg.submission_prefix ++ (S.random_uuid w).0

  -- The state after the entry was written.
  abbrev pub after_set : String → S.World → S.World
  after_set text w = (set S (submission_key w) text cfg.key_ttl (S.random_uuid w).1).1

  submission_plain :
      JsonLaws J → (info : SubmissionInfo) → J.is_plain (submission_to_json J info) ≡ true
  unfolding submission_to_json
  submission_plain json info =
      json.is_plain-object _ (simp (json.is_plain-str, json.is_plain-integer))

  queried :
      (laws : RedisLaws S) (id text : String) (v : S.World) {b : Bool} {o : Option String}
      → S.value v (cfg.submission_prefix ++ id) ≡ some text
      → (exists S (cfg.submission_prefix ++ id) v).0 ≡ ok b
      → (get S (cfg.submission_prefix ++ id) (exists S (cfg.submission_prefix ++ id) v).1).0 ≡ ok o
      → (querying J S cfg id v).0 ≡ ok (status_reply J S cfg (J.str text))
  unfolding querying
  queried laws id text v {b} {o} kept e g =
      let key = cfg.submission_prefix ++ id in
      let v1 = (exists S key v).1 in
      let there : b ≡ true = exists-value S laws key v e ∙ ap is_some kept in
      let read : o ≡ some text = get-value S laws key v1 g ∙ value-exists S laws key key v ∙ kept in
      let shown =
        ap (λ r. r.0)
          (>>=-ok (exists S key) _ v e ∙ allowed b _ _ v1 there ∙ >>=-ok (get S key) _ v1 g) in
      shown ∙ ap (λ x. ok (status_reply J S cfg (optional_text J S cfg x))) read

  replied :
      (enqueue : SubmissionInfo → Act S.World (Unit {0})) (info : SubmissionInfo) (w : S.World)
      {r : ServiceInfo J}
      → (submitting J S cfg enqueue info w).0 ≡ ok r
      → find_key "submission_id" r.message ≡ some (J.str (S.random_uuid w).0)
  unfolding submitting random_generator
  replied enqueue info w h =
      let sub = identified info w in
      let (text, _, h1) = >>=-eq-ok (lift (dump_text J (submission_to_json J sub))) _ _ h in
      let (_, _, h2) = >>=-eq-ok (set S (submission_key w) text cfg.key_ttl) _ _ h1 in
      let (_, _, h3) = >>=-eq-ok (process_judge_task J S cfg enqueue sub) _ _ h2 in
      ap (λ r. find_key "submission_id" r.message) (sym (ok-eq h3))

  -- With the libraries as documented: a submission that submit accepted is, as long as Redis has its
  -- entry and answers, shown by a query with the JSON text of the submission in the place of the
  -- status, whatever was judged in between. The text reads back as the submission with the
  -- identifier of the reply, its source code included; submit has stored it where Redis took it.
  pub submission_shown :
      JsonLaws J
      → (laws : RedisLaws S) (enqueue : SubmissionInfo → Act S.World (Unit {0}))
      → (info : SubmissionInfo) (w v : S.World) {r : ServiceInfo J} {text : String}
      → (submitting J S cfg enqueue info w).0 ≡ ok r
      → (set S (submission_key w) text cfg.key_ttl (S.random_uuid w).1).0 ≡ ok true
      → dump_text J (submission_to_json J (identified info w)) ≡ ok text
      → S.value v (submission_key w) ≡ S.value (after_set text w) (submission_key w)
      → {b : Bool} {o : Option String} → (exists S (submission_key w) v).0 ≡ ok b
      → (get S (submission_key w) (exists S (submission_key w) v).1).0 ≡ ok o
      → (J.parse text ≡ some (submission_to_json J (identified info w)))
        × (find_key "submission_id" r.message ≡ some (J.str (S.random_uuid w).0))
        × ((querying J S cfg (S.random_uuid w).0 v).0 ≡ ok (status_reply J S cfg (J.str text)))
  submission_shown json laws enqueue info w v {r} {text} h s d k e g =
      let kept : S.value v (submission_key w) ≡ some text =
        k
        ∙ value-set S laws (submission_key w) text (submission_key w) cfg.key_ttl
            (S.random_uuid w).1 s
        ∙ rw (eq_refl (submission_key w)) refl in
      (
        json.parse-dump (submission_to_json J (identified info w)) text
            (submission_plain json (identified info w))
            (dump_text-eq J json (J.dump (submission_to_json J (identified info w))) d),
        replied enqueue info w h,
        queried laws (S.random_uuid w).0 text v kept e g,
      )
