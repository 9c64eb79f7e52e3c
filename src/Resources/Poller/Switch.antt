-- ===== src/Resources/Poller/Switch.antt =====
-- src/resources/poller.ts: a poll of another session than the one before notifies of nothing.
use mathlib.Core.Path.{subst}
use ccu_mcp.Prelude.{
  ℕ, String, Bool, true, false, not, ◌&&◌, ◌≡◌, refl, sym, ap, ◌∙◌, none, some, List, [], ◌∷◌,
  ◌===◌, any, arith,
}
use ccu_mcp.Prelude.Dict.{Dict, get, set, get-set}
use ccu_mcp.Action.{Outcome, ok}
use ccu_mcp.Action.Respects.{Respects, bind-Respects}
use ccu_mcp.Action.Ends.{settle-Ends}
use ccu_mcp.Middleware.Retry.Steps.{with_retry-Respects}
use ccu_mcp.Resources.Poller.{
  PollableResource, pollable, ResourcePoller, PollServices, fetch, poll_from, rebased, is_hashed,
  noted, remember, count_failures, poll,
}

-- No digest is known of the URIs that are still to be polled, and they are distinct.
unfoldable pub unknown : Dict String → List PollableResource → Bool
unknown h [] = true
unknown h (r ∷ rs) = elim (get h r.uri) [
  | some x ↦ false
  | none ↦ not (any (λ q. r.uri === q.uri) rs) && unknown h rs
]

module _ {W D : Type 0} (v : PollServices W D) where
  abbrev Kept : ResourcePoller W → ResourcePoller W → Type 0
  Kept p p' = p'.hashes ≡ p.hashes

  abbrev kept_stay : (p : ResourcePoller W) → Kept p p
  kept_stay p = refl

  abbrev kept_chain : (a b c : ResourcePoller W) → Kept a b → Kept b c → Kept a c
  kept_chain a b c h g = g ∙ h

  fetch-Kept :
      (session : ℕ) (r : PollableResource) → Respects Kept kept_stay kept_chain (fetch v session r)
  unfolding fetch
  fetch-Kept session r =
      bind-Respects Kept kept_stay kept_chain _ _ (λ p. refl)
        λ u.
          with_retry-Respects Kept kept_stay kept_chain _ _ _ (λ n p. refl) (λ p. refl) (λ p. refl)
            r.method

  -- Another digest leaves the other URIs unknown.
  unknown-set :
      (h : Dict String) (uri x : String) (rs : List PollableResource)
      → any (λ q. uri === q.uri) rs ≡ false
      → unknown h rs ≡ true
      → unknown (set h uri x) rs ≡ true
  unfolding unknown
  unknown-set h uri x [] d k = refl
  unknown-set h uri x (r ∷ rs) d k = ground (arith, get-set h uri r.uri x, unknown-set h uri x rs)

  unknown-head :
      (h : Dict String) (r : PollableResource) (rs : List PollableResource)
      → unknown h (r ∷ rs) ≡ true
      → (get h r.uri ≡ none) × (any (λ q. r.uri === q.uri) rs ≡ false) × (unknown h rs ≡ true)
  unfolding unknown
  unknown-head h r rs k = ground (arith, k)

  -- The loop ends, and no URI has changed.
  abbrev Quiet : Outcome (List String × Bool) → ResourcePoller W → Type 0
  Quiet o p = (failed : Bool) × (o ≡ ok ([], failed))

  abbrev loop :
      ℕ
      → List PollableResource
      → List String
      → Bool
      → ResourcePoller W
      → Outcome (List String × Bool)
  loop session rs changed failed p = (poll_from v session rs changed failed p).0

  poll_from-Quiet :
      (session : ℕ) (rs : List PollableResource) (failed : Bool) (p : ResourcePoller W)
      → unknown p.hashes rs ≡ true
      → (f : Bool) × (loop session rs [] failed p ≡ ok ([], f))
  unfolding poll_from
  poll_from-Quiet session [] failed p k = (failed, refl)
  poll_from-Quiet session (r ∷ rs) failed p k =
      let fetched = (fetch v session r p).1 in
      let kept : fetched.hashes ≡ p.hashes = fetch-Kept session r p in
      let facts = unknown-head p.hashes r rs k in
      let rest : unknown fetched.hashes rs ≡ true = ap (λ h. unknown h rs) kept ∙ facts.2 in
      settle-Ends Quiet (fetch v session r p).0 _ _ fetched
        (λ reply e.
          let hash = v.digest reply in
          let same : noted v r.uri (get fetched.hashes r.uri) hash [] ≡ [] =
            ap (λ o. noted v r.uri o hash []) (ap (λ h. get h r.uri) kept ∙ facts.0) in
          subst
            (λ c.
              (f : Bool) × (loop session rs c failed (remember v r.uri hash fetched) ≡ ok ([], f)))
            (sym same)
            (poll_from-Quiet session rs failed (remember v r.uri hash fetched)
              (unknown-set fetched.hashes r.uri hash rs facts.1 rest)))
        λ e h. poll_from-Quiet session rs true fetched rest

  rebased-Unknown :
      (p : ResourcePoller W)
      → is_hashed v p.hashed_session (v.get_session p.world) ≡ false
      → unknown (rebased v p).hashes pollable ≡ true
  unfolding rebased unknown get
  rebased-Unknown p h = rw h refl

  -- A poll after the session was switched sends the requests and counts their failures, and notifies nobody:
  -- the digests of the new session are the base for later polls.
  pub poll_switch :
      (p : ResourcePoller W)
      → is_hashed v p.hashed_session (v.get_session p.world) ≡ false
      → (failed : Bool) × (poll v p ≡ (
        ok tt,
        count_failures v failed
            (poll_from v (v.get_session p.world) pollable [] false (rebased v p)).1,
      ))
  unfolding poll
  poll_switch p h =
      let (failed, e) =
        poll_from-Quiet (v.get_session p.world) pollable false (rebased v p)
          (rebased-Unknown p h) in
      (failed, rw e refl)
