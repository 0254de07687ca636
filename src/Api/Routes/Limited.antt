-- ===== src/Api/Routes/Limited.antt =====
-- How many requests of one address the router of engine/api/routes.go answers.
use hermi_nas.Prelude.{
  ◌<◌, Bool, Bool-cases, List, String, [], arith, false, if◌then◌else◌, inl, inr, keep_if, length,
  map, not, refl, str_eq, subst, sym, true, ℕ, ◌&&◌, ◌==◌, ◌∙◌, ◌∷◌, ◌≡◌, ◌≤◌,
}
use hermi_nas.Api.Ingest.Kept.{ingest-view}
use hermi_nas.Api.RateLimit.{allow, allowed-le-limit, by_remote_ip, new_sliding_window}
use hermi_nas.Api.Routes.{Database, Endpoint, Payload, Request, is_pos, World}
use hermi_nas.Api.Routes.Kept.{route-kept}
use hermi_nas.Api.Routes.Router.{Clock, Deps, route, serve}
use hermi_nas.Api.Routes.Views.{datasets-view}
use hermi_nas.Api.Server.{start}
use hermi_nas.Auth.Database.{Backend}
use hermi_nas.Window.Bound.{InOrder, in_minute, accepted}
use hermi_nas.Prelude.Int.{pos_part, ℤ}
use hermi_nas.Auth.Middleware.{Response, refused, failed, served, aborted}

-- Whether an answer has the status 429 of the limit.
unfoldable pub is_limited : Response Payload → Bool
is_limited (refused status text) = status == 429
is_limited (failed status text e) = false
is_limited (served status body) = false
is_limited aborted = false

is_pos_lem : (n : ℤ) → is_pos n ≡ true → 0 < pos_part n
is_pos_lem (ℤ.pos n) h = ground arith
is_pos_lem (ℤ.negsuc n) h = cc

module _ {F C Secret : Type 0} (D : Database) (B : Backend) (deps : Deps F C Secret D B) where
  abbrev pub address_of : Request → String
  address_of r = by_remote_ip deps.split_host_port r.remote_addr

  -- The times of the requests of one address that are answered with another status.
  unfoldable pub answered : String → List (Clock F × Request) → World D B C → List ℕ
  unfolding is_limited
  answered address [] w = []
  answered address ((at, r) ∷ requests) w =
      let (answer, w') = serve D B deps at r w in
      let rest = answered address requests w' in
      if not (is_limited answer) && str_eq (address_of r) address then at.window_at ∷ rest else rest

  abbrev pub arrivals : List (Clock F × Request) → List (ℕ × String)
  arrivals = map (λ (at, r). (at.window_at, address_of r))

  route-windows :
      (at : Clock F) (e : Endpoint) (r : Request) (w : World D B C)
      → (route D B deps at e r w).1.windows ≡ w.windows
  route-windows at e r w =
      route-kept D B deps (λ x. x.windows ≡ w.windows) (λ at user_id sql x h. h)
        (λ now method path x h.
          datasets-view D B deps.ddl now (λ x. x.windows) (λ x db c. refl) method path x ∙ h)
        (λ at name body x h.
          ingest-view D B deps.numbers deps.ddl deps.inserter deps.encode (λ x. x.windows)
            (λ x db c ensured. refl) deps.unmarshal at.received_at name body at.now x
          ∙ h)
        at e r w refl

  serve-windows :
      (at : Clock F) (r : Request) (w : World D B C)
      → is_pos deps.rate_limit_per_minute ≡ true
      → (serve D B deps at r w).1.windows ≡ (allow at.window_at (address_of r) w.windows).1
  unfolding serve
  serve-windows at r w h =
      let (allowed, windows) = allow at.window_at (address_of r) w.windows in
      elim (Bool-cases (not allowed)) [
        | inl k ↦ rw (serve, h, k) refl
        | inr k ↦ rw (serve, h, k) (route-windows at r.endpoint r (record w { windows = windows }))
      ]

  -- A request that the limit refuses is answered with 429.
  refused-is_limited :
      (at : Clock F) (r : Request) (w : World D B C)
      → is_pos deps.rate_limit_per_minute ≡ true
      → (allow at.window_at (address_of r) w.windows).0 ≡ false
      → is_limited (serve D B deps at r w).0 ≡ true
  unfolding serve is_limited
  refused-is_limited at r w h k = rw (serve, h, k) refl

  answered-le-accepted :
      (requests : List (Clock F × Request)) (w : World D B C) (address : String) (start : ℕ)
      → is_pos deps.rate_limit_per_minute ≡ true
      → length (keep_if (in_minute start) (answered address requests w))
        ≤ length (keep_if (in_minute start) (accepted allow address (arrivals requests) w.windows))
  unfolding answered accepted
  answered-le-accepted [] w address start h = omega arith
  answered-le-accepted ((at, r) ∷ requests) w address start h =
      let (allowed, windows) = allow at.window_at (address_of r) w.windows in
      let (answer, w') = serve D B deps at r w in
      let later : length (keep_if (in_minute start) (answered address requests w'))
          ≤ length
              (keep_if (in_minute start) (accepted allow address (arrivals requests) windows)) =
        subst
          (λ s.
            length (keep_if (in_minute start) (answered address requests w'))
            ≤ length (keep_if (in_minute start) (accepted allow address (arrivals requests) s)))
          (serve-windows at r w h) (answered-le-accepted requests w' address start h) in
      elim (Bool-cases allowed) [
        | inl k ↦ ground (arith, later, k)
        | inr k ↦ ground (arith, later, k, refused-is_limited at r w h k)
      ]

  -- With a positive limit and the requests in the order of the clock, from a start on, whatever the
  -- requests are and however those of all addresses mix: in any minute no more requests of one
  -- address than the limit are answered with another status than 429.
  pub answered-le-limit :
      (requests : List (Clock F × Request)) (w : World D B C) (address : String)
      → is_pos deps.rate_limit_per_minute ≡ true
      → w.windows ≡ new_sliding_window deps.rate_limit_per_minute
      → InOrder 0 (arrivals requests)
      → (start : ℕ)
      → length (keep_if (in_minute start) (answered address requests w))
        ≤ pos_part deps.rate_limit_per_minute
  answered-le-limit requests w address h fresh o start =
      let few = answered-le-accepted requests w address start h in
      let bound =
        allowed-le-limit deps.rate_limit_per_minute address (arrivals requests)
          (is_pos_lem deps.rate_limit_per_minute h) o start in
      omega (
        arith,
        few,
        subst
            (λ s.
              length (keep_if (in_minute start) (accepted allow address (arrivals requests) s))
              ≤ pos_part deps.rate_limit_per_minute)
            (sym fresh) bound,
      )
