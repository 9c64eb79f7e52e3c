-- ===== src/Cache/DeviceTypes/Fetched.antt =====
-- src/cache/device-type-cache.ts, `fetchChannels`: what it asks and what it answers.
use mathlib.Core.Path.{subst}
use ccu_mcp.Prelude.{
  String, ◌||◌, ◌≡◌, refl, ap, ◌∙◌, Option, none, some, List, [], ◌∷◌, ◌===◌, any, is_some, arith,
}
use ccu_mcp.Prelude.Dict.{Dict, get, set, get-set}
use ccu_mcp.Action.{Outcome, ok, thrown, continue, ◌>>=◌, pure}
use ccu_mcp.Action.Respects.{Respects, bind-Respects}
use ccu_mcp.Action.Ends.{settle-Ends}
use ccu_mcp.Cache.DeviceTypes.{
  ParamQuery, ParamDescription, ChannelSchema, DeviceTypeCache, CacheServices, Job, outside, expect,
  acquire, query, with_params, fetch_paramsets, paramset_keys, index_of, fetch_from, fetch_channels,
  parse_param_descriptions,
}

module _ {W N : Type 0} (v : CacheServices W N) where
  abbrev SameAsked : DeviceTypeCache W N → DeviceTypeCache W N → Type 0
  SameAsked s t = t.asked ≡ s.asked

  abbrev Silent : {A : Type 0} → Job v A → Type 0
  Silent m = Respects SameAsked (λ s. refl) (λ a b c p q. q ∙ p) m

  expect-Silent : {A : Type 0} (o : Option (List A)) → Silent (expect v o)
  expect-Silent none s = refl
  expect-Silent (some l) s = refl

  query-asked : (q : ParamQuery) (s : DeviceTypeCache W N) → (query v q s).1.asked ≡ q ∷ s.asked
  unfolding query
  query-asked q s =
      bind-Respects SameAsked (λ s. refl) (λ a b c p q. q ∙ p)
        (outside v (v.describe q) >>= expect v) (λ ps. pure (parse_param_descriptions v ps))
        (bind-Respects SameAsked (λ s. refl) (λ a b c p q. q ∙ p) (outside v (v.describe q))
          (expect v) (λ t. refl) expect-Silent)
        (λ ps t. refl) (record s { asked = q ∷ s.asked })

  -- Every attempt to get a token succeeds.
  abbrev pub Unlimited : Type 0
  Unlimited = (w : W) → (v.take_token w).0 ≡ ok tt

  acquired :
      (s : DeviceTypeCache W N)
      → Unlimited
      → acquire v s ≡ (ok tt, record s { world = (v.take_token s.world).1 })
  unfolding acquire
  acquired s u = ap (λ o. (o, record s { world = (v.take_token s.world).1 })) (u s.world)

  -- The run succeeds, its result is as `P` says, and these are the queries that were sent.
  abbrev Good :
      {A : Type 0} → (A → Type 0) → List ParamQuery → Outcome A → DeviceTypeCache W N → Type 0
  Good P l (ok a) s = P a × (s.asked ≡ l)
  Good P l (thrown e) s = ⊥

  bind-Good :
      {A B : Type 0} (P : A → Type 0) (Q : B → Type 0) (l k : List ParamQuery) (o : Outcome A)
      (f : A → Job v B) (s : DeviceTypeCache W N)
      → Good P l o s
      → ((a : A) (t : DeviceTypeCache W N) → P a → t.asked ≡ l → Good Q k (f a t).0 (f a t).1)
      → Good Q k (continue o f s).0 (continue o f s).1
  bind-Good P Q l k (ok a) f s h g = g a s h.0 h.1
  bind-Good P Q l k (thrown e) f s h g = absurd h

  weaker_Good :
      {A : Type 0} (P Q : A → Type 0) (l k : List ParamQuery) (o : Outcome A)
      (s : DeviceTypeCache W N)
      → ((a : A) → P a → Q a)
      → l ≡ k
      → Good P l o s
      → Good Q k o s
  weaker_Good P Q l k (ok a) s f e h = (f a h.0, h.1 ∙ e)
  weaker_Good P Q l k (thrown x) s f e h = absurd h

  abbrev pub asked_keys : String → String → List String → List ParamQuery → List ParamQuery
  asked_keys iface address [] l = l
  asked_keys iface address (k ∷ ks) l =
      asked_keys iface address ks
        (record { query_interface = iface; query_address = address; paramset_key = k } ∷ l)

  -- The queries for channels, newest first, on top of others.
  abbrev pub asked_channels : String → List String → List ParamQuery → List ParamQuery
  asked_channels iface [] l = l
  asked_channels iface (a ∷ rest) l = asked_channels iface rest (asked_keys iface a paramset_keys l)

  fetch_paramsets-Good :
      (iface address : String) (keys : List String) (sets : Dict (Dict (ParamDescription N)))
      (s : DeviceTypeCache W N)
      → Unlimited
      → Good
          (λ a. Unit)
          (asked_keys iface address keys s.asked)
          (fetch_paramsets v iface address keys sets s).0
          (fetch_paramsets v iface address keys sets s).1
  unfolding fetch_paramsets
  fetch_paramsets-Good iface address [] sets s u = (tt, refl)
  fetch_paramsets-Good iface address (key ∷ keys) sets s u =
      let q : ParamQuery = record {
        query_interface = iface;
        query_address = address;
        paramset_key = key;
      } in
      let s1 : DeviceTypeCache W N = record s { world = (v.take_token s.world).1 } in
      let t = (query v q s1).1 in
      let next = λ (l : Dict (Dict (ParamDescription N))).
        subst
          (λ (qs : List ParamQuery).
            Good (λ a. Unit) (asked_keys iface address keys qs)
              (fetch_paramsets v iface address keys l t).0
              (fetch_paramsets v iface address keys l t).1)
          (query-asked q s1) (fetch_paramsets-Good iface address keys l t u) in
      rw (acquired s u) (
        settle-Ends (Good (λ a. Unit) (asked_keys iface address keys (q ∷ s.asked)))
          (query v q s1).0 _ _ t (λ x e. next (with_params v key x sets)) (λ e h. next sets))

  abbrev Holds : String → List String → Dict (ChannelSchema N) → Dict (ChannelSchema N) → Type 0
  Holds i channels before out =
      is_some (get out i) ≡ (any (λ a. index_of a === i) channels || is_some (get before i))

  Holds-next :
      (i a : String) (rest : List String) (before out : Dict (ChannelSchema N))
      (c : ChannelSchema N)
      → Holds i rest (set before (index_of a) c) out
      → Holds i (a ∷ rest) before out
  Holds-next i a rest before out c h = ground (arith, h, get-set before (index_of a) i c)

  fetch_from-Good :
      (i iface : String) (channels : List String) (before : Dict (ChannelSchema N))
      (s : DeviceTypeCache W N)
      → Unlimited
      → Good
          (Holds i channels before)
          (asked_channels iface channels s.asked)
          (fetch_from v iface channels before s).0
          (fetch_from v iface channels before s).1
  unfolding fetch_from
  fetch_from-Good i iface [] before s u = (refl, refl)
  fetch_from-Good i iface (a ∷ rest) before s u =
      bind-Good (λ x. Unit) (Holds i (a ∷ rest) before) (asked_keys iface a paramset_keys s.asked)
        (asked_channels iface (a ∷ rest) s.asked) (fetch_paramsets v iface a paramset_keys [] s).0 _
        (fetch_paramsets v iface a paramset_keys [] s).1
        (fetch_paramsets-Good iface a paramset_keys [] s u)
        λ sets t p e.
          let c : ChannelSchema N = record { channel_type = a; paramsets = sets } in
          weaker_Good (Holds i rest (set before (index_of a) c)) (Holds i (a ∷ rest) before)
            (asked_channels iface rest t.asked)
            (asked_channels iface rest (asked_keys iface a paramset_keys s.asked))
            (fetch_from v iface rest (set before (index_of a) c) t).0
            (fetch_from v iface rest (set before (index_of a) c) t).1
            (λ out h. Holds-next i a rest before out c h) (ap (asked_channels iface rest) e)
            (fetch_from-Good i iface rest (set before (index_of a) c) t u)

  ended :
      {A : Type 0} (P : A → Type 0) (l : List ParamQuery) (r : Outcome A × DeviceTypeCache W N)
      → Good P l r.0 r.1
      → (a : A) × (t : DeviceTypeCache W N) × (r ≡ (ok a, t)) × (t.asked ≡ l) × P a
  ended P l (ok a, t) h = (a, t, refl, h.1, h.0)
  ended P l (thrown e, t) h = absurd h

  -- Where the rate limiter gives its tokens, fetching channels ends and succeeds, whatever the CCU answers. It
  -- asks for VALUES and MASTER of each channel once, in order, and the result has exactly the indices of the
  -- channels.
  pub fetch_channels_total :
      (iface : String) (channels : List String) (s : DeviceTypeCache W N) (i : String)
      → Unlimited
      → (out : Dict (ChannelSchema N)) × (t : DeviceTypeCache W N) × (fetch_channels v iface
            channels s
          ≡ (ok out, t))
        × (t.asked ≡ asked_channels iface channels s.asked)
        × (is_some (get out i) ≡ any (λ a. index_of a === i) channels)
  unfolding fetch_channels get
  fetch_channels_total iface channels s i u =
      let (out, t, e, a, h) =
        ended (Holds i channels []) (asked_channels iface channels s.asked)
          (fetch_from v iface channels [] s) (fetch_from-Good i iface channels [] s u) in
      (out, t, e, a, ground (arith, h))
