-- ===== src/App/JudgeTask/Ordered.antt =====
-- The order in which the judge task publishes its messages (app/src/Application.cpp).
use Prim.Native.String.{◌++◌ as ◌+++◌}
use mathlib.Core.List.{append-nil, append_assoc}
use oj_backend.Prelude.{String, ◌≡◌, sym, ◌∙◌, ap, some, List, [], ◌∷◌, ◌++◌}
use oj_backend.Prelude.{refl, ℕ, ◌+◌, ◌/◌, ◌%◌, u32_mod, map}
use oj_backend.App.JudgeTask.{result_message, insert_result, update_status}
use oj_backend.Exceptions.Result.{ok}
use oj_backend.Core.Types.{SubmissionInfo}
use oj_backend.Core.Json.{JsonLib}
use oj_backend.Judge.Status.{TestResult, test_status_to_string, submission_status_to_string}
use oj_backend.Judge.Verdict.{worst, set_status-worst}
use oj_backend.App.Operations.{insert, update}
use oj_backend.App.World.{Server}
use oj_backend.App.Monad.Inversion.{>>=-ok, >>=-eq-ok}
use oj_backend.App.Redis.{set}
use oj_backend.App.Messages.{DbOperateMessage, serialize, publish_db_operate}
use oj_backend.App.Messages.Sent.{publish_db_operate-Sends}
use oj_backend.App.Services.{Config}
use oj_backend.App.JudgeTask.{Workshop, publish_all, report, status_message, result_messages}

-- The texts of messages, in their order.
abbrev pub AreTexts :
    {F : Type 0} (J : JsonLib F) → List (DbOperateMessage J) → List String → Type 0
AreTexts J [] [] = Unit {0}
AreTexts J (m ∷ ms) (t ∷ ts) = (serialize J m ≡ ok t) × AreTexts J ms ts
AreTexts J _ _ = ⊥

-- The message about the result of test `idx`, and the one about the verdict.
abbrev pub IsResult :
    {F : Type 0} (J : JsonLib F) → SubmissionInfo → ℕ → TestResult → DbOperateMessage J → Type 0
IsResult J sub idx r m =
    (m.op_type ≡ insert)
    × (m.sql ≡ insert_result)
    × (m.param_array
        ≡ J.array (
            J.str sub.submission_id
            ∷ J.str sub.problem_title
            ∷ J.unsigned idx
            ∷ J.str (test_status_to_string r.status)
            ∷ J.unsigned (r.duration_us / 1000 % u32_mod)
            ∷ J.integer r.memory_kb
            ∷ J.integer r.exit_code
            ∷ J.integer r.signal
            ∷ []))

abbrev pub IsVerdict :
    {F : Type 0} (J : JsonLib F) → SubmissionInfo → List TestResult → DbOperateMessage J → Type 0
IsVerdict J sub results m =
    (m.op_type ≡ update)
    × (m.sql ≡ update_status)
    × (m.param_array
        ≡ J.array (
            J.str (submission_status_to_string (worst (map (λ r. r.status) results)))
            ∷ J.str sub.submission_id
            ∷ []))

-- Messages about the results, in their order and numbered from `idx` on.
abbrev pub AreResults :
    {F : Type 0} (J : JsonLib F)
    → SubmissionInfo
    → ℕ
    → List TestResult
    → List (DbOperateMessage J)
    → Type 0
AreResults J sub idx [] [] = Unit {0}
AreResults J sub idx (r ∷ results) (m ∷ ms) =
    IsResult J sub idx r m × AreResults J sub (idx + 1) results ms
AreResults J sub idx _ _ = ⊥

-- `log` is what has been published, and the other calls of `report` publish nothing.
module _ {F : Type 0} (J : JsonLib F) (S : Server F) (cfg : Config) (W : Workshop F S.World)
    (log : S.World → List String)
    (log-publish : (channel text : String) (w : S.World)
      → (S.redis_publish channel text w).0 ≡ some tt
      → log (S.redis_publish channel text w).1 ≡ log w ++ text ∷ [])
    (log-set : (k v : String) (ttl : ℕ) (w : S.World) → log (set S k v ttl w).1 ≡ log w)
    (log-remove_all : (dir : String) (w : S.World) → log (W.remove_all dir w).1 ≡ log w) where
  publish_logged :
      (m : DbOperateMessage J) (w : S.World) {u : Unit {0}}
      → (publish_db_operate J S cfg.operate_channel m w).0 ≡ ok u
      → (text : String) × (serialize J m ≡ ok text)
        × (log (publish_db_operate J S cfg.operate_channel m w).1 ≡ log w ++ text ∷ [])
  publish_logged m w {u} h =
      let (text, s, a, b) = publish_db_operate-Sends J S cfg m w {u = u} h in
      (text, s, ap log b ∙ log-publish cfg.operate_channel text w a)

  publish_all_logged :
      (ms : List (DbOperateMessage J)) (w : S.World) {u : Unit {0}}
      → (publish_all J S cfg W ms w).0 ≡ ok u
      → (texts : List String) × AreTexts J ms texts
        × (log (publish_all J S cfg W ms w).1 ≡ log w ++ texts)
  unfolding publish_all
  publish_all_logged [] w h = ([], tt, sym (append-nil (log w)))
  publish_all_logged (m ∷ ms) w h =
      let act = publish_db_operate J S cfg.operate_channel m in
      let (u, a, h1) = >>=-eq-ok act (λ _. publish_all J S cfg W ms) w h in
      let (text, s, l) = publish_logged m w {u = u} a in
      let (texts, t, k) = publish_all_logged ms (act w).1 h1 in
      (
        text ∷ texts,
        (s, t),
        ap (λ r. log r.1) (>>=-ok act (λ _. publish_all J S cfg W ms) w a)
            ∙ k
            ∙ ap (λ l. l ++ texts) l
            ∙ append_assoc (log w) (text ∷ []) texts,
      )

  result_messages-AreResults :
      (sub : SubmissionInfo) (idx : ℕ) (results : List TestResult)
      → AreResults J sub idx results (result_messages J S cfg W sub idx results)
  unfolding result_messages result_message
  result_messages-AreResults sub idx [] = tt
  result_messages-AreResults sub idx (r ∷ results) =
      ((refl, refl, refl), result_messages-AreResults sub (idx + 1) results)

  status_message-IsVerdict :
      (sub : SubmissionInfo) (results : List TestResult)
      → IsVerdict J sub results (status_message J S cfg W sub results)
  unfolding status_message
  status_message-IsVerdict sub results = (
    refl,
    refl,
    ap (λ s. J.array (J.str (submission_status_to_string s) ∷ J.str sub.submission_id ∷ []))
        (set_status-worst (map (λ r. r.status) results)),
  )

  -- When the task reports its results without an exception, it publishes the verdict and then one
  -- message for each test that was judged, in their order: the result of the first with the number
  -- 1, the next with 2, and so on. It publishes nothing else, where `log` holds the texts that Redis
  -- has taken, publishing adds to it, and storing a key and removing the directory leave it alone.
  pub report_published :
      (sub : SubmissionInfo) (dir : String) (results : List TestResult) (w : S.World)
      → (report J S cfg W sub dir results w).0 ≡ ok tt
      → (verdict : DbOperateMessage J) × (ms : List (DbOperateMessage J)) × (texts : List String)
        × IsVerdict J sub results verdict
        × AreResults J sub 1 results ms
        × AreTexts J (verdict ∷ ms) texts
        × (log (report J S cfg W sub dir results w).1 ≡ log w ++ texts)
  unfolding report
  report_published sub dir results w h =
      let ms = status_message J S cfg W sub results ∷ result_messages J S cfg W sub 1 results in
      let removing = W.remove_all dir in
      let completing = set S ("submission_tmp_" +++ sub.submission_id) "COMPLETE" cfg.key_ttl in
      let status =
        publish_db_operate J S cfg.operate_channel (status_message J S cfg W sub results) in
      let rows = publish_all J S cfg W (result_messages J S cfg W sub 1 results) in
      let (_, a, h1) = >>=-eq-ok status _ w h in
      let (_, b, h2) = >>=-eq-ok rows _ (status w).1 h1 in
      let w2 = (rows (status w).1).1 in
      let (_, c, h3) = >>=-eq-ok removing _ w2 h2 in
      let (_, d, h4) = >>=-eq-ok completing _ (removing w2).1 h3 in
      let (text, s, l) = publish_logged (status_message J S cfg W sub results) w {u = tt} a in
      let (texts, t, k) =
        publish_all_logged (result_messages J S cfg W sub 1 results) (status w).1 {u = tt} b in
      let whole =
        >>=-ok status _ w a
        ∙ >>=-ok rows _ (status w).1 b
        ∙ >>=-ok removing _ w2 c
        ∙ >>=-ok completing _ (removing w2).1 d in
      (
        status_message J S cfg W sub results,
        result_messages J S cfg W sub 1 results,
        text ∷ texts,
        status_message-IsVerdict sub results,
        result_messages-AreResults sub 1 results,
        (s, t),
        ap (λ r. log r.1) whole
            ∙ log-set ("submission_tmp_" +++ sub.submission_id) "COMPLETE" cfg.key_ttl
                (removing w2).1
            ∙ log-remove_all dir w2
            ∙ k
            ∙ ap (λ l. l ++ texts) l
            ∙ append_assoc (log w) (text ∷ []) texts,
      )
