-- ===== src/Sessions/Tests.antt =====
-- Runs of the sandbox server's admission, and its properties on a server for two sessions with one
-- for each address.
use chronus_gateway.Prelude.{◌≡◌, refl, false, none, some, [], ◌∷◌, err}
use chronus_gateway.Sessions.{
  ServerConfig, per_ip, lookup, insert, new, admit, origin_allowed, client_ip, sandbox_ws,
  service_unavailable,
}
use chronus_gateway.Sessions.Server.{Server, Reachable, starts, next, visits, IsAdmitting}
use chronus_gateway.Sessions.Admission.{Answer, Reachable-IsAdmitting, Reachable-Answer}

abbrev two : ServerConfig
two = record {
  allowed_origins = 443 ∷ [];
  max_sessions = 2;
  max_per_ip = 1;
  trust_fly_header = false;
}

abbrev one_in : Server
unfolding admit lookup insert
one_in = record { app = (admit 7 (new two)).0; guards = 7 ∷ [] }

second_refused : (admit 7 one_in.app).1 ≡ err per_ip
unfolding admit lookup insert
second_refused = refl

third_refused :
    (sandbox_ws (λ o. o) (some 443) none 9 (admit 8 one_in.app).0).1 ≡ service_unavailable
unfolding admit lookup insert sandbox_ws origin_allowed client_ip
third_refused = refl

one_in-Reachable : Reachable two one_in
unfolding admit lookup insert one_in
one_in-Reachable = next starts (visits (record { app = new two; guards = [] }) 7)

Reachable-IsAdmitting_example : IsAdmitting two one_in
Reachable-IsAdmitting_example = Reachable-IsAdmitting two one_in-Reachable

Reachable-Answer_example : Answer two one_in 8
Reachable-Answer_example = Reachable-Answer two 8 one_in-Reachable
