-- ===== src/Admin/Answers.antt =====
-- How the HTTP server of antsd/internal/admin/server.go answers a request, on every path, clean or not.
use zero_config_ha_cluster.Common.{
  ℕ, ◌≡◌, ◌≢◌, refl, sym, subst, ◌⊎◌, inl, inr, Bool, true, false, none, some, String, str_eq,
  if◌then◌else◌, arith, eq_iff, Bool-cases, if-elim,
}
use zero_config_ha_cluster.Cluster.Manager.{Manager, Env}
use zero_config_ha_cluster.Serfnode.Library.{Snapshot}
use zero_config_ha_cluster.Admin.{
  Action, request_bootstrap, confirm_bootstrap, cancel_bootstrap, Shutdown, handle_action,
}
use zero_config_ha_cluster.Admin.Routes.{
  answer_with, Method, get, head, post, connect, other, Handler, dashboard, health, status_page,
  action, serves, find_pattern, route, Response, Views, handle_health, write_json, handle_dashboard,
  run_handler, is_redirected, redirect, serve_clean, serve_http,
}

-- Where a button's form is sent.
abbrev pub path_of : Action → String
path_of request_bootstrap = "/bootstrap"
path_of confirm_bootstrap = "/bootstrap/confirm"
path_of cancel_bootstrap = "/bootstrap/cancel"

-- GET and HEAD.
abbrev pub is_reading : Method → Bool
is_reading get = true
is_reading head = true
is_reading _ = false

-- What answers a request: on reading, the page of the path or else the dashboard; on POST, the action
-- of the path.
abbrev pub page : String → Handler
page path =
    if str_eq path "/health"
    then health
    else if str_eq path "/status"
    then status_page
    else dashboard

route-get : (path : String) → route get path ≡ some (page path)
unfolding route find_pattern serves
route-get path = elim (Bool-cases (str_eq path "/health")) [
  | inl e ↦ subst (λ x. route get x ≡ some (page x)) (sym ((eq_iff path "/health").0 e)) refl
  | inr n ↦ elim (Bool-cases (str_eq path "/status")) [
    | inl e ↦ subst (λ x. route get x ≡ some (page x)) (sym ((eq_iff path "/status").0 e)) refl
    | inr k ↦ ground (arith, n, k)
  ]
]

route_reading :
    (method : Method) (path : String)
    → is_reading method ≡ true
    → route method path ≡ some (page path)
unfolding route find_pattern serves
route_reading get path h = route-get path
route_reading head path h = route-get path
route_reading post path h = absurd (ground arith)
route_reading connect path h = absurd (ground arith)
route_reading other path h = absurd (ground arith)

route-post :
    (path : String)
    → (route post path ≡ none)
      ⊎ ((a : Action) × (path ≡ path_of a) × (route post path ≡ some (action a)))
unfolding route find_pattern serves
route-post path = elim (Bool-cases (str_eq path "/bootstrap")) [
  | inl e ↦ inr (request_bootstrap, (eq_iff path "/bootstrap").0 e, ground arith)
  | inr n ↦ elim (Bool-cases (str_eq path "/bootstrap/confirm")) [
    | inl e ↦ inr (confirm_bootstrap, (eq_iff path "/bootstrap/confirm").0 e, ground arith)
    | inr k ↦ elim (Bool-cases (str_eq path "/bootstrap/cancel")) [
      | inl e ↦ inr (cancel_bootstrap, (eq_iff path "/bootstrap/cancel").0 e, ground arith)
      | inr l ↦ inl (ground arith)
    ]
  ]
]

route-connect : (path : String) → route connect path ≡ none
unfolding route find_pattern serves
route-connect path = ground arith

route-other : (path : String) → route other path ≡ none
unfolding route find_pattern serves
route-other path = ground arith

-- How a request that is not redirected is answered: GET and HEAD, on any path, with 200 or 500; a POST on the path of a
-- button by its action; anything else with 405.
abbrev pub IsServed : Env → Shutdown → String → Manager → Method → Manager × Response → Type 0
IsServed env s path m method r =
    ((is_reading method ≡ true) × (r.0 ≡ m) × ((r.1.code ≡ 200) ⊎ (r.1.code ≡ 500)))
    ⊎ (((a : Action) × (method ≡ post)
          × (path ≡ path_of a)
          × (r.0 ≡ (handle_action env s a m).0)
          × (r.1.code ≡ (handle_action env s a m).1))
        ⊎ ((is_reading method ≡ false) × (r.0 ≡ m) × (r.1.code ≡ 405)))

module _ (v : Views) (env : Env) (s : Shutdown) (snap : Snapshot) (started_at : ℕ) where
  serve_clean-found :
      (method : Method) (path : String) (m : Manager) (h : Handler)
      → route method path ≡ some h
      → serve_clean v env s snap started_at method path m ≡ run_handler v env s snap started_at h m
  unfolding serve_clean
  serve_clean-found method path m h e = rw (e, serve_clean) refl

  serve_clean-none :
      (method : Method) (path : String) (m : Manager)
      → route method path ≡ none
      → ((serve_clean v env s snap started_at method path m).0 ≡ m)
        × ((serve_clean v env s snap started_at method path m).1.code ≡ 405)
  unfolding serve_clean
  serve_clean-none method path m e = rw (e, serve_clean) (refl, refl)

  page_keeps :
      (path : String) (m : Manager)
      → ((run_handler v env s snap started_at (page path) m).0 ≡ m)
        × (((run_handler v env s snap started_at (page path) m).1.code ≡ 200)
            ⊎ ((run_handler v env s snap started_at (page path) m).1.code ≡ 500))
  unfolding run_handler handle_health write_json handle_dashboard
  page_keeps path m = ground arith

  reads :
      (q : Method) (path : String) (m : Manager)
      → is_reading q ≡ true
      → IsServed env s path m q (serve_clean v env s snap started_at q path m)
  reads q path m h =
      subst (IsServed env s path m q)
        (sym (serve_clean-found q path m (page path) (route_reading q path h)))
        (inl (h, (page_keeps path m).0, (page_keeps path m).1))

  rejects :
      (q : Method) (path : String) (m : Manager)
      → is_reading q ≡ false
      → route q path ≡ none
      → IsServed env s path m q (serve_clean v env s snap started_at q path m)
  rejects q path m h e =
      inr (inr (h, (serve_clean-none q path m e).0, (serve_clean-none q path m e).1))

answer_with-code : (code : ℕ) → (answer_with code).code ≡ code
unfolding answer_with
answer_with-code code = ground arith

serve_clean-IsServed :
    (v : Views) (env : Env) (s : Shutdown) (snap : Snapshot) (started_at : ℕ) (method : Method)
    (path : String) (m : Manager)
    → IsServed env s path m method (serve_clean v env s snap started_at method path m)
unfolding run_handler
serve_clean-IsServed v env s snap started_at get path m =
    reads v env s snap started_at get path m refl
serve_clean-IsServed v env s snap started_at head path m =
    reads v env s snap started_at head path m refl
serve_clean-IsServed v env s snap started_at connect path m =
    rejects v env s snap started_at connect path m refl (route-connect path)
serve_clean-IsServed v env s snap started_at other path m =
    rejects v env s snap started_at other path m refl (route-other path)
serve_clean-IsServed v env s snap started_at post path m = elim (route-post path) [
  | inl e ↦ rejects v env s snap started_at post path m refl e
  | inr (a, p, e) ↦
      subst (IsServed env s path m post)
        (sym (serve_clean-found v env s snap started_at post path m (action a) e))
        (inr (inl (a, refl, p, refl, answer_with-code (handle_action env s a m).1)))
]

-- A path that is not clean is answered with the library's redirection to the clean one, but for
-- CONNECT; any other request as above.
abbrev pub IsAnswered :
    Views → Env → Shutdown → String → Manager → Method → Manager × Response → Type 0
IsAnswered v env s path m method r =
    ((method ≢ connect)
      × (v.clean_path path ≢ path)
      × (r.0 ≡ m)
      × (r.1.code ≡ v.redirect_code)
      × (r.1.location ≡ v.clean_path path))
    ⊎ (((method ≡ connect) ⊎ (v.clean_path path ≡ path)) × IsServed env s path m method r)

redirected :
    (v : Views) (method : Method) (path : String)
    → is_redirected v method path ≡ true
    → (method ≢ connect) × (v.clean_path path ≢ path)
unfolding is_redirected
redirected v get path h =
    ((λ e. cc e), (λ e. absurd (ground (arith, (eq_iff (v.clean_path path) path).1 e))))
redirected v head path h =
    ((λ e. cc e), (λ e. absurd (ground (arith, (eq_iff (v.clean_path path) path).1 e))))
redirected v post path h =
    ((λ e. cc e), (λ e. absurd (ground (arith, (eq_iff (v.clean_path path) path).1 e))))
redirected v other path h =
    ((λ e. cc e), (λ e. absurd (ground (arith, (eq_iff (v.clean_path path) path).1 e))))
redirected v connect path h = absurd (ground arith)

not_redirected :
    (v : Views) (method : Method) (path : String)
    → is_redirected v method path ≡ false
    → (method ≡ connect) ⊎ (v.clean_path path ≡ path)
unfolding is_redirected
not_redirected v connect path h = inl refl
not_redirected v get path h = inr ((eq_iff (v.clean_path path) path).0 (ground arith))
not_redirected v head path h = inr ((eq_iff (v.clean_path path) path).0 (ground arith))
not_redirected v post path h = inr ((eq_iff (v.clean_path path) path).0 (ground arith))
not_redirected v other path h = inr ((eq_iff (v.clean_path path) path).0 (ground arith))

-- A request for a path that is not clean is answered with a redirection to the clean path, unless it
-- is a CONNECT, and nothing else happens. Any other request is answered in one of three ways: GET and
-- HEAD, on every path, with 200 or 500, and the orchestrator stays as it is; a POST on the path of a
-- button with the code of its action, and the orchestrator does what the action does; every other
-- request with 405, and nothing else happens.
pub serve_http-answers :
    (v : Views) (env : Env) (s : Shutdown) (snap : Snapshot) (started_at : ℕ) (method : Method)
    (path : String) (m : Manager)
    → IsAnswered v env s path m method (serve_http v env s snap started_at method path m)
unfolding serve_http redirect
serve_http-answers v env s snap started_at method path m =
    if-elim (IsAnswered v env s path m method) (is_redirected v method path) _ _
      (λ h. let (a, b) = redirected v method path h in inl (a, b, refl, refl, refl))
      (λ h. inr (
        not_redirected v method path h,
        serve_clean-IsServed v env s snap started_at method path m,
      ))
