-- ===== src/Admin/Routes.antt =====
-- antsd/internal/admin/server.go: the routes of the HTTP server and its handlers. Of `http.ServeMux`
-- it has what the patterns use: a pattern with GET also serves HEAD, the pattern `/` stands for every
-- path and the other ones for their own, and the more specific pattern wins; a path that only other
-- methods are served on is answered with 405; and a path that is not clean is redirected, but for
-- CONNECT. A path is an absolute one without percent escapes and without its query.
use zero_config_ha_cluster.Common.{
  ℕ, Bool, true, false, not, ◌&&◌, List, [], ◌∷◌, Option, none, some, String, ◌+++◌, ◌==◌, str_eq,
  if◌then◌else◌,
}
use zero_config_ha_cluster.Cluster.Manager.{Manager, Env}
use zero_config_ha_cluster.Serfnode.Library.{Snapshot}
use zero_config_ha_cluster.Admin.{
  Status, status, Action, request_bootstrap, confirm_bootstrap, cancel_bootstrap, Shutdown,
  handle_action,
}

pub data Method : Type 0 where
  get head post connect other : Method

-- The handlers that `NewServer` registers.
pub data Handler : Type 0 where
  dashboard health status_page : Handler
  action : Action → Handler

-- A pattern, its method being GET or POST.
pub record Pattern : Type 0 where
  pub is_post : Bool
  pub path : String
  pub handler : Handler

-- The calls of `HandleFunc` in `NewServer`.
abbrev pub patterns : List Pattern
patterns =
    record { is_post = false; path = "/"; handler = dashboard }
    ∷ record { is_post = false; path = "/health"; handler = health }
    ∷ record { is_post = false; path = "/status"; handler = status_page }
    ∷ record { is_post = true; path = "/bootstrap"; handler = action request_bootstrap }
    ∷ record { is_post = true; path = "/bootstrap/confirm"; handler = action confirm_bootstrap }
    ∷ record { is_post = true; path = "/bootstrap/cancel"; handler = action cancel_bootstrap }
    ∷ []

-- The pattern serves the method.
unfoldable pub serves : Pattern → Method → Bool
serves p get = not p.is_post
serves p head = not p.is_post
serves p post = p.is_post
serves p connect = false
serves p other = false

-- The first pattern for a method and exactly this path.
unfoldable pub find_pattern : Method → String → List Pattern → Option Handler
unfolding serves
find_pattern m path [] = none
find_pattern m path (p ∷ ps) =
    let rest = find_pattern m path ps in
    if serves p m && str_eq path p.path then some p.handler else rest

-- `ServeMux`: the pattern of the path, or else the one of `/`.
unfoldable pub route : Method → String → Option Handler
unfolding find_pattern
route m path = elim (find_pattern m path patterns) [
  | some h ↦ some h
  | none ↦ find_pattern m "/" patterns
]

-- A response, with the header `Location` of a redirection. The library leaves out the body for HEAD,
-- and finds the content type of a body that comes without one.
pub record Response : Type 0 where
  pub code : ℕ
  pub content_type : String
  pub location : String
  pub body : String

-- What the libraries make of a status: the JSON text if there is one; and the text that the template
-- has written, with whether it came to its end. What they make of a path: the clean one, and the code
-- with which they redirect to it, which depends on their version.
pub record Views : Type 0 where
  pub encode : Status → Option String
  pub render : Status → String × Bool
  pub clean_path : String → String
  pub redirect_code : ℕ

-- `handleHealth`.
unfoldable pub handle_health : Response
handle_health = record {
  code = 200;
  content_type = "text/plain; charset=utf-8";
  location = "";
  body = "ok\n";
}

-- `writeJSON` with the code 200; a status that has no JSON text is only logged.
unfoldable pub write_json : Option String → Response
write_json text = record {
  code = 200;
  content_type = "application/json; charset=utf-8";
  location = "";
  body = elim text [ none ↦ "" | some t ↦ t ];
}

-- `handleDashboard`: the first text that is written sends the code 200, and `http.Error` behind it
-- only adds to the body.
unfoldable pub handle_dashboard : String × Bool → Response
handle_dashboard (written, ok) =
    if ok
    then record {
      code = 200;
      content_type = "text/html; charset=utf-8";
      location = "";
      body = written;
    }
    else if str_eq written ""
    then record {
      code = 500;
      content_type = "text/plain; charset=utf-8";
      location = "";
      body = "Internal Server Error\n";
    }
    else record {
      code = 200;
      content_type = "text/html; charset=utf-8";
      location = "";
      body = written +++ "Internal Server Error\n";
    }

-- The end of `handleAction`: `http.Redirect` to the dashboard, which has no body for a POST, or
-- `http.Error`, whose text is left out.
unfoldable pub answer_with : ℕ → Response
answer_with code =
    if code == 303
    then record { code = code; content_type = ""; location = "/"; body = "" }
    else record {
      code = code;
      content_type = "text/plain; charset=utf-8";
      location = "";
      body = "";
    }

-- A handler on a request, when the snapshot is this one and the program was started at that time.
unfoldable pub run_handler :
    Views → Env → Shutdown → Snapshot → ℕ → Handler → Manager → Manager × Response
unfolding handle_health write_json handle_dashboard status handle_action answer_with
run_handler v env s snap started_at dashboard m =
    (m, handle_dashboard (v.render (status snap m started_at)))
run_handler v env s snap started_at health m = (m, handle_health)
run_handler v env s snap started_at status_page m =
    (m, write_json (v.encode (status snap m started_at)))
run_handler v env s snap started_at (action a) m =
    let (m', code) = handle_action env s a m in (m', answer_with code)

-- The path is redirected to the clean one, whatever is registered.
unfoldable pub is_redirected : Views → Method → String → Bool
is_redirected v connect path = false
is_redirected v _ path = not (str_eq (v.clean_path path) path)

-- The redirection to a clean path; its text is left out.
unfoldable pub redirect : Views → Method → String → Response
redirect v method path = record {
  code = v.redirect_code;
  content_type = elim method [
    | get ↦ "text/html; charset=utf-8"
    | head ↦ "text/html; charset=utf-8"
    | _ ↦ ""
  ];
  location = v.clean_path path;
  body = "";
}

-- The server on a request for a path that is not redirected.
unfoldable pub serve_clean :
    Views → Env → Shutdown → Snapshot → ℕ → Method → String → Manager → Manager × Response
unfolding route run_handler
serve_clean v env s snap started_at method path m = elim (route method path) [
  | none ↦ (
    m,
    record {
      code = 405;
      content_type = "text/plain; charset=utf-8";
      location = "";
      body = "Method Not Allowed\n";
    },
  )
  | some h ↦ run_handler v env s snap started_at h m
]

-- The server on a request.
unfoldable pub serve_http :
    Views → Env → Shutdown → Snapshot → ℕ → Method → String → Manager → Manager × Response
unfolding is_redirected redirect serve_clean
serve_http v env s snap started_at method path m =
    if is_redirected v method path
    then (m, redirect v method path)
    else serve_clean v env s snap started_at method path m
