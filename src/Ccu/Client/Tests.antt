-- ===== src/Ccu/Client/Tests.antt =====
-- src/ccu/client.ts against a CCU that answers one method, and a proxy in front of it.
use ccu_mcp.Prelude.{
  ℕ, String, true, ◌≡◌, ◌≢◌, ◌↔◌, ◌==◌, refl, ap, Option, none, some, ◌===◌, arith, eq_iff,
  if◌then◌else◌,
}
use ccu_mcp.Errors.{other}
use ccu_mcp.Action.{ok, thrown}
use ccu_mcp.Config.{CcuConfig}
use ccu_mcp.Ccu.Client.{
  null, envelope, RpcRequest, HttpReply, Fetched, reply, failed, Network, CcuClient, Trust, pinned,
  ca, system, Handshake, connected, no_socket, normalize_fingerprint, build_connect, pin, connect,
  dispatcher, send, read_reply, call, type_error,
}
use ccu_mcp.Ccu.Client.Outcomes.{answer, Delivers, call_ok_iff, call_crashes_iff}
use ccu_mcp.Ccu.Client.Pinning.{fetch_failed, Presents, pin_iff, send_pinned}

abbrev body_of : String → String
body_of method = if method === "Session.login" then "{\"result\":\"s1\"}" else "null"

abbrev network : Network ℕ String String
network = record {
  fetch = λ url d r w. (reply (record { http_status = 200; body = body_of r.method }), w);
  parse_json = λ text. if text === "null" then some null else some (envelope none "s1");
  shown = λ n. "5";
  lower = λ s. s;
}

abbrev config : CcuConfig
config = record {
  host = "ccu";
  port = 443;
  https = true;
  tls_verify = true;
  tls_fingerprint = some "ab:cd";
  ca_cert = some "PEM";
  user = "Admin";
  password = "";
  timeout = 10000;
  script_timeout = 30000;
}

abbrev client : CcuClient ℕ
client = record { request_counter = 4; world = 0 }

calls :
    (call network config "Session.login" "" none client
      ≡ (ok "s1", record { request_counter = 5; world = 0 }))
    × ((call network config "Room.getAll" "" none client).0 ≡ thrown (other (type_error network)))
    × (pin network "abcd" (some "a:bcd") ≡ none)
    × (pin network "abcd" (some "ab:ce")
        ≡ some "CCU TLS certificate fingerprint mismatch (expected abcd, got abce)")
unfolding call send read_reply pin normalize_fingerprint
calls = (refl, refl, refl, refl)

call_ok_iff_example : ((call network config "Session.login" "" none client).0 ≡ ok "s1") ↔ (
    (r : HttpReply) × ((answer network config "Session.login" "" none client).0 ≡ reply r)
    × Delivers network config "Session.login" "" none client "s1" r)
call_ok_iff_example = call_ok_iff network config "Session.login" "" none client "s1"

call_crashes_iff_example :
    ((call network config "Room.getAll" "" none client).0 ≡ thrown (other (type_error network))) ↔ (
      (r : HttpReply) × ((answer network config "Room.getAll" "" none client).0 ≡ reply r)
      × ((network.parse_json r.body ≡ some null) × (type_error network ≡ type_error network)))
call_crashes_iff_example =
    call_crashes_iff network config "Room.getAll" "" none client (type_error network)

abbrev fingerprint : String
fingerprint = "ab:cd"

given : fingerprint ≢ ""
given q = ground (arith, eq_iff "ab:cd" "", q)

pin_iff_example :
    (dispatcher network config ≡ some (pinned (normalize_fingerprint network "ab:cd")))
    × ((connect network (normalize_fingerprint network "ab:cd") (connected (some "a:bcd")) ≡ none)
        ↔ Presents network "ab:cd" (connected (some "a:bcd")))
pin_iff_example = pin_iff network config "ab:cd" (connected (some "a:bcd")) refl refl given

-- A network behind a peer that shows the number of the world, and refuses as the connector does.
abbrev peer : ℕ → Handshake
peer w = if w == 0 then connected (some "a:bcd") else no_socket

abbrev through : Option String → RpcRequest String → Fetched
through none r = reply (record { http_status = 200; body = body_of r.method })
through (some message) r = failed (fetch_failed network message)

abbrev fetch_over : Option Trust → RpcRequest String → ℕ → Fetched
fetch_over none r w = through none r
fetch_over (some (ca pem)) r w = through none r
fetch_over (some (system verified)) r w = through none r
fetch_over (some (pinned expected)) r w = through (connect network expected (peer w)) r

abbrev checked : Network ℕ String String
checked = record network { fetch = λ url d r w. (fetch_over d r w, w) }

honoured :
    (url expected message : String) (r : RpcRequest String) (w : ℕ)
    → connect checked expected (peer w) ≡ some message
    → (checked.fetch url (some (pinned expected)) r w).0 ≡ failed (fetch_failed checked message)
unfolding connect pin normalize_fingerprint
honoured url expected message r w h = ap (λ o. through o r) h

abbrev login : RpcRequest String
login = record { id = "5"; method = "Session.login"; params = ""; timeout = 10000 }

replies :
    (send checked config login client).0
    ≡ ok (record { http_status = 200; body = "{\"result\":\"s1\"}" })
unfolding send dispatcher build_connect normalize_fingerprint connect pin
replies = refl

send_pinned_example : Presents checked "ab:cd" (peer 0)
send_pinned_example =
    send_pinned checked peer honoured config "ab:cd" login client
      (record { http_status = 200; body = "{\"result\":\"s1\"}" }) refl refl given replies
