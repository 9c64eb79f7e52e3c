-- ===== src/Ccu/Client/Pinning.antt =====
-- src/ccu/client.ts with src/middleware/error-mapper.ts: which CCU a pinned fingerprint lets in, and how
-- another one is reported.
use ccu_mcp.Prelude.{
  codes-append, String, true, ◌≡◌, ◌≢◌, ◌↔◌, refl, Option, none, some, arith, eq_iff, inl, inr,
  Option-cases,
}
use ccu_mcp.Errors.{JsError, tls_error, map_network_error, mentions_mismatch}
use ccu_mcp.Action.{ok}
use ccu_mcp.Config.{CcuConfig}
use ccu_mcp.Ccu.Client.{
  Network, RpcRequest, HttpReply, CcuClient, failed, Handshake, broken, no_socket, connected,
  pinned, normalize_fingerprint, build_connect, pin, connect, dispatcher, base_url, send, mismatch,
  mismatch_rest, actual_fingerprint,
}

module _ {W P D : Type 0} (v : Network W P D) where
  mismatch_named :
      (expected actual : String) → mentions_mismatch (mismatch v expected actual) ≡ true
  unfolding mentions_mismatch
  mismatch_named expected actual =
      rw
        (codes-append "CCU TLS certificate fingerprint mismatch (expected "
          (mismatch_rest v expected actual))
        refl

  -- The error around a refused connection, as `fetch` throws it.
  abbrev pub fetch_failed : String → JsError
  fetch_failed message = record {
    name = "TypeError";
    message = "fetch failed";
    cause = some message;
  }

  -- A peer that the pin refuses is reported as TLS_ERROR, whatever it presents.
  pub refused_tls :
      (expected : String) (fp : Option String) (message method : String)
      → pin v expected fp ≡ some message
      → (map_network_error (fetch_failed message) method).error ≡ tls_error
  unfolding pin map_network_error
  refused_tls expected fp message method h =
      ground (arith, mismatch_named expected (actual_fingerprint v fp), h)

  -- The certificate is the one that was configured, but for colons and case, and something is left of its
  -- fingerprint.
  abbrev pub Matches : String → Option String → Type 0
  Matches configured none = ⊥
  Matches configured (some shown) =
      (shown ≢ "")
      × (normalize_fingerprint v shown ≡ normalize_fingerprint v configured)
      × (normalize_fingerprint v shown ≢ "")

  abbrev pub Presents : String → Handshake → Type 0
  Presents configured (broken message) = ⊥
  Presents configured no_socket = ⊥
  Presents configured (connected fp) = Matches configured fp

  pin-Matches :
      (configured : String) (fp : Option String)
      → (pin v (normalize_fingerprint v configured) fp ≡ none) ↔ Matches configured fp
  unfolding pin
  pin-Matches configured none = (λ p. ground (arith, p), λ p. absurd p)
  pin-Matches configured (some shown) =
      let a = normalize_fingerprint v shown in
      let b = normalize_fingerprint v configured in
      (
        λ p. ground (arith, p, eq_iff shown "", eq_iff a "", eq_iff a b),
        λ p. ground (arith, p, eq_iff shown "", eq_iff a "", eq_iff a b),
      )

  connect-Presents :
      (configured : String) (h : Handshake)
      → (connect v (normalize_fingerprint v configured) h ≡ none) ↔ Presents configured h
  unfolding connect
  connect-Presents configured (broken message) = (λ p. ground (arith, p), λ p. absurd p)
  connect-Presents configured no_socket = (λ p. ground (arith, p), λ p. absurd p)
  connect-Presents configured (connected fp) = pin-Matches configured fp

  pinned_dispatcher :
      (c : CcuConfig) (configured : String)
      → c.https ≡ true
      → c.tls_fingerprint ≡ some configured
      → configured ≢ ""
      → dispatcher v c ≡ some (pinned (normalize_fingerprint v configured))
  unfolding dispatcher build_connect
  pinned_dispatcher c configured s h n = ground (arith, s, h, eq_iff configured "")

  -- With HTTPS and a fingerprint configured, whatever the other settings, requests go through a connector that
  -- passes on a connection exactly if the TLS handshake gave a socket and the peer presented a certificate
  -- with that fingerprint, but for colons and case, where something is left of it.
  pub pin_iff :
      (c : CcuConfig) (configured : String) (h : Handshake)
      → c.https ≡ true
      → c.tls_fingerprint ≡ some configured
      → configured ≢ ""
      → (dispatcher v c ≡ some (pinned (normalize_fingerprint v configured)))
        × ((connect v (normalize_fingerprint v configured) h ≡ none) ↔ Presents configured h)
  pin_iff c configured h s f n =
      (pinned_dispatcher c configured s f n, connect-Presents configured h)

  -- With HTTPS and a fingerprint configured, a request gets a reply only from a peer that presented that
  -- certificate. It is supposed that `fetch` fails where the connector of its dispatcher does.
  pub send_pinned :
      (peer : W → Handshake)
      → ((url expected message : String) (r : RpcRequest P) (w : W)
          → connect v expected (peer w) ≡ some message
          → (v.fetch url (some (pinned expected)) r w).0 ≡ failed (fetch_failed message))
      → (c : CcuConfig) (configured : String) (r : RpcRequest P) (s : CcuClient W) (a : HttpReply)
      → c.https ≡ true
      → c.tls_fingerprint ≡ some configured
      → configured ≢ ""
      → (send v c r s).0 ≡ ok a
      → Presents configured (peer s.world)
  unfolding send
  send_pinned peer honoured c configured r s a h f n e =
      let expected = normalize_fingerprint v configured in
      elim (Option-cases (connect v expected (peer s.world))) [
        | inl accepted ↦ (connect-Presents configured (peer s.world)).0 accepted
        | inr (message, refused) ↦
            let failure = honoured (base_url v c) expected message r s.world refused in
            absurd (ground (arith, rw (pinned_dispatcher c configured h f n, failure) at e))
      ]
