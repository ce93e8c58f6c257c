-- ===== src/Tests/Machine.antt =====
-- A small HAProxy with one server: the weight it shows is the one that was set last.
use load_balancer_controller.Base.{
  ℕ, Bool, false, ◌==◌, some, none, List, [], ◌∷◌, ◌++◌, if◌then◌else◌,
}
use load_balancer_controller.Base.Text.{Text, codes, text_eq, ℤ, pos, itoa_int}
use load_balancer_controller.Base.Outcome.{Outcome, ok, err}
use load_balancer_controller.Config.{Endpoint, BackendService, FrontendService, LoadBalancerConfig}
use load_balancer_controller.Drain.State.{DrainWeight, DesiredEndpoint, ServerState, DrainMgr}
use load_balancer_controller.Drain.Runtime.{set_weight, Log, Env, Fault, io}

abbrev pub current_weight : Log → ℤ
current_weight [] = pos 100
current_weight (set_weight key w ∷ log) = w
current_weight (_ ∷ log) = current_weight log

abbrev pub state_lines : Log → List Text
unfolding itoa_int
state_lines log =
    codes "1"
    ∷ codes "# be_name srv_name srv_uweight srv_iweight srv_admin_state srv_op_state"
    ∷ (codes "be s1 " ++ (itoa_int (current_weight log) ++ codes " 100 0 2"))
    ∷ []

abbrev pub stat_rows : List Text
stat_rows = codes "# pxname,svname,scur" ∷ codes "be,s1,0" ∷ [] ∷ []

abbrev pub answer : Log → Text → Outcome Fault (List Text)
unfolding text_eq
answer log cmd =
    if text_eq cmd (codes "show stat")
    then ok stat_rows
    else if text_eq cmd (codes "show servers state")
    then ok (state_lines log)
    else ok ([] ∷ [])

abbrev pub haproxy : Env
haproxy = record {
  reply = answer;
  pid_file = λ log. ok (codes "7\n");
  pidof = λ log. ok (codes "7");
  proc_exists = λ log n. ok (n == 7);
}

-- One whose socket is closed.
abbrev pub deaf : Env
deaf = record {
  reply = λ log cmd. err io;
  pid_file = λ log. ok (codes "7\n");
  pidof = λ log. ok (codes "7");
  proc_exists = λ log n. ok (n == 7);
}

abbrev pub endpoint : Endpoint
endpoint = record {
  name = codes "s1";
  ip = codes "10.0.0.1";
  port = pos 80;
  config = codes "weight 100";
  is_cname = false;
  drain_timeout = codes "15000";
  weight = pos 0;
  stopping = false;
}

abbrev pub backend : BackendService
backend = record {
  uuid = codes "be";
  endpoints = endpoint ∷ [];
  path = [];
  host = [];
  rule_comparator = codes "eq";
  algorithm = [];
  port = pos 80;
  protocol = codes "http";
  config = [];
  health_check = none;
  priority = pos 1;
  send_proxy = false;
}

abbrev pub frontend : FrontendService
frontend = record {
  name = codes "80";
  port = pos 80;
  backend_services = backend ∷ backend ∷ [];
  protocol = codes "http";
  config = [];
  accept_proxy = false;
}

abbrev pub config : LoadBalancerConfig
config = record {
  default_cert = none;
  certs = [];
  name = codes "lb";
  frontend_services = frontend ∷ [];
  config = [];
  stickiness_policy = none;
}

abbrev pub key : Text
key = codes "be/s1"

-- A server as HAProxy shows it, with the two weights.
abbrev pub server : ℕ → ℕ → ServerState
server w i = record {
  backend = key;
  name = codes "s1";
  weight = w;
  initial_weight = i;
  admin = 0;
  operational = 2;
}

abbrev pub wish : ℤ → Bool → DesiredEndpoint
wish w stops = record { weight = w; disabled = false; temporary_zero = stops }

-- The weight 100, taken in the process.
abbrev pub owned : Text → DrainWeight
owned pid = record {
  weight = 100;
  initial_weight = 100;
  pid = pid;
  stopping_reload = false;
  retry = false;
}

-- The server is owned, and its endpoint is in the drain list.
abbrev pub draining : DrainMgr
draining = record {
  drain_list = (codes "s1", codes "7") ∷ [];
  weights = (codes "s1", (key, owned (codes "7")) ∷ []) ∷ [];
  desired = some ((key, wish (pos 100) false) ∷ []);
}

abbrev pub idle : DrainMgr
idle = record { drain_list = []; weights = []; desired = none }
