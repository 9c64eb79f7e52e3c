-- ===== src/Ccu/Client/Outcomes.antt =====
-- src/ccu/client.ts, `call`: when it succeeds, and what it throws.
use mathlib.Core.Path.{subst}
use ccu_mcp.Prelude.{ℕ, suc, ◌≤◌, ◌<◌, String, ◌≡◌, ◌↔◌, refl, ◌≢◌, Option, none, some, arith, sym}
use ccu_mcp.Errors.{map_network_error, ccu, other, JsError}
use ccu_mcp.Action.{Outcome, ok, thrown}
use ccu_mcp.Config.{CcuConfig}
use ccu_mcp.Ccu.Client.{
  Json, null, envelope, HttpReply, Fetched, reply, failed, Network, CcuClient, send, read_reply,
  call, base_url, dispatcher, or_timeout, type_error,
}

module _ {W P D : Type 0} (v : Network W P D) (c : CcuConfig) (method : String) (params : P)
    (timeout : Option ℕ) (s : CcuClient W) where
  -- What the network makes of the one request of a call.
  abbrev pub answer : Fetched × W
  answer =
      v.fetch (base_url v c) (dispatcher v c)
        (record {
          id = v.shown (suc s.request_counter);
          method = method;
          params = params;
          timeout = or_timeout timeout c.timeout;
        })
        s.world

  abbrev judged : Fetched → Outcome D
  judged (failed e) = thrown (ccu (map_network_error e method))
  judged (reply r) = read_reply v method r (v.parse_json r.body)

  call-judged :
      (f : Fetched)
      → answer.0 ≡ f
      → call v c method params timeout s
        ≡ (judged f, record { request_counter = suc s.request_counter; world = answer.1 })
  unfolding call send
  call-judged (reply r) e = rw e refl
  call-judged (failed x) e = rw e refl

  read_reply_ok :
      (r : HttpReply) (o : Option (Json D)) (x : D)
      → (read_reply v method r o ≡ ok x)
        ↔ ((o ≡ some (envelope none x)) × (200 ≤ r.http_status) × (r.http_status < 300))
  unfolding read_reply
  read_reply_ok r none x = ground arith
  read_reply_ok r (some null) x = ground arith
  read_reply_ok r (some (envelope none y)) x = ground arith
  read_reply_ok r (some (envelope (some e) y)) x = ground arith

  read_reply_other :
      (r : HttpReply) (o : Option (Json D)) (e : JsError)
      → (read_reply v method r o ≡ thrown (other e)) ↔ ((o ≡ some null) × (e ≡ type_error v))
  unfolding read_reply
  read_reply_other r none e = ground arith
  read_reply_other r (some null) e = ground arith
  read_reply_other r (some (envelope none y)) e = ground arith
  read_reply_other r (some (envelope (some x) y)) e = ground arith

  -- What holds of the reply holds of the call, for an outcome that no network error has.
  of_reply :
      (f : Fetched) (o : Outcome D) (Q : HttpReply → Type 0)
      → ((e : JsError) → thrown (ccu (map_network_error e method)) ≢ o)
      → ((r : HttpReply) → (read_reply v method r (v.parse_json r.body) ≡ o) ↔ Q r)
      → (judged f ≡ o) ↔ ((r : HttpReply) × (f ≡ reply r) × Q r)
  of_reply (failed e) o Q n h = (λ p. absurd (n e p), λ p. absurd (ground (arith, p.1)))
  of_reply (reply r) o Q n h =
      (λ p. (r, refl, (h r).0 p), λ p. subst (λ g. judged g ≡ o) (sym p.1) ((h p.0).1 p.2))

  of_call :
      (o : Outcome D) (Q : HttpReply → Type 0)
      → ((e : JsError) → thrown (ccu (map_network_error e method)) ≢ o)
      → ((r : HttpReply) → (read_reply v method r (v.parse_json r.body) ≡ o) ↔ Q r)
      → ((call v c method params timeout s).0 ≡ o) ↔ ((r : HttpReply) × (answer.0 ≡ reply r) × Q r)
  of_call o Q n h = rw (call-judged answer.0 refl) (of_reply answer.0 o Q n h)

  -- A 2xx reply whose JSON has this result and no error.
  abbrev pub Delivers : D → HttpReply → Type 0
  Delivers x r =
      (v.parse_json r.body ≡ some (envelope none x)) × (200 ≤ r.http_status) × (r.http_status < 300)

  -- A call succeeds exactly if its one request is answered with a 2xx status and JSON that has no error, and
  -- then it gives the result in that JSON.
  pub call_ok_iff :
      (x : D)
      → ((call v c method params timeout s).0 ≡ ok x)
        ↔ ((r : HttpReply) × (answer.0 ≡ reply r) × Delivers x r)
  call_ok_iff x =
      of_call (ok x) (Delivers x) (λ e h. ground (arith, h))
        λ r. read_reply_ok r (v.parse_json r.body) x

  -- Every failure of a call is one of the structured errors that tools report, but for one: the TypeError of
  -- a reply that is the JSON text `null`.
  pub call_crashes_iff :
      (e : JsError)
      → ((call v c method params timeout s).0 ≡ thrown (other e)) ↔ (
          (r : HttpReply) × (answer.0 ≡ reply r)
          × ((v.parse_json r.body ≡ some null) × (e ≡ type_error v)))
  call_crashes_iff e =
      of_call (thrown (other e)) (λ r. (v.parse_json r.body ≡ some null) × (e ≡ type_error v))
        (λ x h. ground (arith, h)) λ r. read_reply_other r (v.parse_json r.body) e
