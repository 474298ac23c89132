-- ===== src/Tests/FcmClient.antt =====
-- The client of the test clusters at concrete inputs.
use Prim.Native.String.{◌++◌ as ◌<>◌}
use fuddle.Fcm.Routes.{
  Template, clusters_route, cluster_route, health_route, add_route, remove_route, prom_route,
  template, Mux, Calls,
}
use fuddle.Fcm.Routing.{path, variable, rank, Routed}
use fuddle.Fcm.Transparent.{IsTransparent, client-IsTransparent}
use fuddle.Fcm.Wire.{Codec, Fields}
use native.Mathlib.Decide.{ℕ_discrete}
use fuddle.Tests.Fcm.{net, server, calls}
use fuddle.Prelude.{String, true, ◌≡◌, refl, Option, none, some, ite, string_dec}

-- A body is the fields that were written, or none for a text.
abbrev codec : Codec (Option Fields)
codec = record {
  marshal = some;
  unmarshal = λ body. body;
  marshal_targets = λ targets. none;
  plain = λ s. none;
}

-- The variable of a template that is written as the text `t`, in the path of another one.
abbrev bound : String → Template → Option String
bound t u = ite (string_dec t (template u)) (some (variable u "c1")) none

-- A router that knows one cluster's paths at one address.
abbrev vars : String → String → Option String
vars t url = ite (string_dec url "http://fcm/cluster") (bound t clusters_route) (
    ite (string_dec url "http://fcm/cluster/c1") (bound t cluster_route) (
      ite (string_dec url "http://fcm/cluster/c1/health") (bound t health_route) (
        ite (string_dec url "http://fcm/cluster/c1/nodes/add") (bound t add_route) (
          ite (string_dec url "http://fcm/cluster/c1/nodes/remove") (bound t remove_route) (
            ite (string_dec url "http://fcm/cluster/c1/prometheus/targets") (bound t prom_route)
              none)))))

abbrev mux : Mux (Option Fields)
mux = record { vars = vars; unrouted = λ r. record { status = 404; body = none } }

mux-Routed : Routed mux "fcm" "c1"
unfolding string_dec ℕ_discrete template
mux-Routed t u = go t u
  where
    go :
        (t u : Template)
        → vars (template t) ("http://" <> ("fcm" <> path u "c1"))
          ≡ ite (ℕ_discrete (rank t) (rank u)) (some (variable t "c1")) none
    go clusters_route clusters_route = refl
    go clusters_route cluster_route = refl
    go clusters_route health_route = refl
    go clusters_route add_route = refl
    go clusters_route remove_route = refl
    go clusters_route prom_route = refl
    go cluster_route clusters_route = refl
    go cluster_route cluster_route = refl
    go cluster_route health_route = refl
    go cluster_route add_route = refl
    go cluster_route remove_route = refl
    go cluster_route prom_route = refl
    go health_route clusters_route = refl
    go health_route cluster_route = refl
    go health_route health_route = refl
    go health_route add_route = refl
    go health_route remove_route = refl
    go health_route prom_route = refl
    go add_route clusters_route = refl
    go add_route cluster_route = refl
    go add_route health_route = refl
    go add_route add_route = refl
    go add_route remove_route = refl
    go add_route prom_route = refl
    go remove_route clusters_route = refl
    go remove_route cluster_route = refl
    go remove_route health_route = refl
    go remove_route add_route = refl
    go remove_route remove_route = refl
    go remove_route prom_route = refl
    go prom_route clusters_route = refl
    go prom_route cluster_route = refl
    go prom_route health_route = refl
    go prom_route add_route = refl
    go prom_route remove_route = refl
    go prom_route prom_route = refl

abbrev answers : Calls
answers = record {
  id = "c2";
  log_dir = "/tmp";
  attempts = calls;
  fuddle = λ i. 0;
  member = λ i. 0;
  healthy = true;
}

client-IsTransparent_example : IsTransparent net mux codec "fcm" "c1" answers server
client-IsTransparent_example =
    client-IsTransparent net mux codec "fcm" "c1" answers server (λ o. refl) mux-Routed
