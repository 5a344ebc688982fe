-- ===== src/App/Startup/Routes.antt =====
-- What holds of the server when main.cpp gets to Application::run (app/src/Application.cpp).
use text.Mathlib.Text.{◌==◌ as str_eq}
use oj_backend.Prelude.{
  ◌≡◌, ◌≢◌, refl, sym, ◌∙◌, ap, subst, ◌⊎◌, inl, inr, String, Bool, true, false, none, some, List,
  Option, ◌∷◌, ◌&&◌, if◌then◌else◌, [], arith,
}
use oj_backend.Exceptions.Result.{Result, Error, ok, err}
use oj_backend.Core.Logger.{
  init, ask_pool, finish_init, set_level, get_logger, register, is_level, level_value,
}
use oj_backend.Judge.System.{SystemAnswers, system_checks, init_system}
use oj_backend.App.Startup.{
  HttpMethod, get_method, post_method, Handler, registry, login, create_problem, add_problem_limit,
  upload_test_cases, submit, query_submissions, get_problem_list, Route, Impl, ImplAnswers,
  make_impl, Process, no_process, Started, get_instance, init_application, registry_router,
  register_all, main_routes, start, then_do, same_method,
}

result_cases {ℓ} :
    {A : Type ℓ} (r : Result A) → ((e : Error) × (r ≡ err e)) ⊎ ((a : A) × (r ≡ ok a))
result_cases (err e) = inl (e, refl)
result_cases (ok a) = inr (a, refl)

-- The handler of a request: the first one that is registered for its method and path.
unfoldable pub find_handler : HttpMethod → String → List Route → Option Handler
find_handler method path [] = none
find_handler method path (r ∷ rest) =
    let later = find_handler method path rest in
    if same_method method r.method && str_eq path r.path then some r.handler else later

-- The paths that a client uses.
abbrev pub path_of : Handler → String
path_of registry = "/api/auth/registry"
path_of login = "/api/auth/login"
path_of create_problem = "/api/problems/create_problem"
path_of add_problem_limit = "/api/problems/add_problem_limit"
path_of upload_test_cases = "/api/problems/upload_testcases"
path_of submit = "/api/submissions/submit"
path_of query_submissions = "/api/submissions/query_submissions"
path_of get_problem_list = "/api/problems/get_problem_list"

abbrev pub method_of : Handler → HttpMethod
method_of get_problem_list = get_method
method_of _ = post_method

module _ {F : Type 0} where
  abbrev initialised : Process F → Impl F → Process F
  initialised p impl = record p { impl = some impl; routes = some []; system_ready = true }

  init_sound :
      (a : ImplAnswers F) (system : SystemAnswers) (p q : Process F)
      → p.system_ready ≡ false
      → init_application a system "config.ini" p ≡ (ok tt, q)
      → (impl : Impl F) × (make_impl a "config.ini" ≡ ok impl)
        × (system_checks system ≡ ok tt)
        × (q ≡ initialised p impl)
  unfolding init_application init_system
  init_sound a system p q f h = elim (result_cases (make_impl a "config.ini")) [
    | inl (e, m) ↦ absurd (ground (arith, m))
    | inr (impl, m) ↦ elim (result_cases (system_checks system)) [
      | inl (e, c) ↦ absurd (ground (arith, m, c))
      | inr (u, c) ↦ (impl, m, c, ground (arith, m, c))
    ]
  ]

  -- The routes are there, each with its handler.
  abbrev pub Serves : Process F → Type 0
  Serves q =
      (h : Handler)
      → (routes : List Route) × (q.routes ≡ some routes)
        × (find_handler (method_of h) (path_of h) routes ≡ some h)

  register-Serves :
      (p : Process F) (impl : Impl F) → Serves (register_all main_routes (initialised p impl)).1
  unfolding register_all main_routes registry_router find_handler
  register-Serves p impl registry = (_, refl, refl)
  register-Serves p impl login = (_, refl, refl)
  register-Serves p impl create_problem = (_, refl, refl)
  register-Serves p impl add_problem_limit = (_, refl, refl)
  register-Serves p impl upload_test_cases = (_, refl, refl)
  register-Serves p impl submit = (_, refl, refl)
  register-Serves p impl query_submissions = (_, refl, refl)
  register-Serves p impl get_problem_list = (_, refl, refl)

  register-keeps :
      (p : Process F) (impl : Impl F)
      → ((register_all main_routes (initialised p impl)).1.logger ≡ p.logger)
        × ((register_all main_routes (initialised p impl)).1.impl ≡ some impl)
  unfolding register_all main_routes registry_router
  register-keeps p impl = (refl, refl)

  then_do-ok :
      (x : Started F) (f : Process F → Started F) (q : Process F)
      → then_do x f ≡ (ok tt, q)
      → (p : Process F) × (x ≡ (ok tt, p)) × (f p ≡ (ok tt, q))
  then_do-ok (err e, p) f q h = absurd (ground arith)
  then_do-ok (ok u, p) f q h = (p, refl, h)

  instance-ready :
      (log_opens : Bool) (p : Process F)
      → get_instance log_opens (no_process F) ≡ (ok tt, p)
      → (p.system_ready ≡ false) × (p.logger.logger ≢ none)
  unfolding get_instance init ask_pool finish_init set_level get_logger register is_level
      level_value
  instance-ready log_opens p h = ground arith

  -- When main gets to Application::run, there is a logger, the constructor has succeeded with
  -- config.ini, the checks of initSystem have passed, and each of the eight handlers is the one that
  -- the HTTP library calls for its method and path.
  pub start_ready :
      (log_opens : Bool) (a : ImplAnswers F) (system : SystemAnswers) (q : Process F)
      → start log_opens a system (no_process F) ≡ (ok tt, q)
      → (q.logger.logger ≢ none)
        × (impl : Impl F) × (make_impl a "config.ini" ≡ ok impl)
        × (q.impl ≡ some impl)
        × (system_checks system ≡ ok tt)
        × Serves q
  unfolding start
  start_ready log_opens a system q h =
      let (p1, e1, k1) = then_do-ok (get_instance log_opens (no_process F)) _ q h in
      let (p2, e2, k2) = then_do-ok (init_application a system "config.ini" p1) _ q k1 in
      let (fresh, logger) = instance-ready log_opens p1 e1 in
      let (impl, made, checked, same) = init_sound a system p1 p2 fresh e2 in
      let final = (register_all main_routes (initialised p1 impl)).1 in
      let end : final ≡ q =
        ap (λ x. (register_all main_routes x).1) (sym same) ∙ ap (λ x. x.1) k2 in
      let (kept, set) = register-keeps p1 impl in
      (
        subst (λ z. z.logger.logger ≢ none) end (subst (λ l. l.logger ≢ none) (sym kept) logger),
        impl,
        made,
        subst (λ z. z.impl ≡ some impl) end set,
        checked,
        subst Serves end (register-Serves p1 impl),
      )
