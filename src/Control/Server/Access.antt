-- ===== src/Control/Server/Access.antt =====
-- Without the token a remote caller changes nothing.
use mathlib.Core.Path.{subst}
use Prim.Native.String.{◌++◌ as ◌+++◌}
use ganglion_oob.Prelude.{
  ℕ, String, Option, none, true, false, ◌||◌, List, ◌≡◌, refl, sym, ◌⊎◌, inl, inr, Bool-cases,
  str_eq, eq_iff, arith,
}
use ganglion_oob.Prelude.Text.{starts_with, starts_with-append}
use ganglion_oob.Control.Engine.{Engine, get_all_vm_states}
use ganglion_oob.Control.Server.{
  Route, dashboard, status, stix, attack_layer, audit, healthz, alert_action, isolate, restore,
  Request, Answer, passed, forbidden, unauthorized, Served, is_protected, is_local, path_of,
  supplied, guard, unchanged, handle, serve,
}

-- The routes whose functions change the engine's state or isolate a machine.
pub data Mutates : Route → Type 0 where
  triages : (n : ℕ) (action : String) → Mutates (alert_action n action)
  isolates : (vm_id : String) → Mutates (isolate vm_id)
  restores : (vm_id : String) → Mutates (restore vm_id)

-- The engine is as before, or with its scores brought up to date, and nothing is isolated.
abbrev pub IsHarmless : ℕ → Engine → Served → Type 0
IsHarmless now e s = (s.isolation ≡ none) × ((s.engine ≡ e) ⊎ (s.engine ≡ get_all_vm_states now e))

module _ (show : ℕ → String) (bearer : String → String) where
  -- Each of these routes is behind the token.
  Mutates-protected :
      {route : Route} → Mutates route → is_protected (path_of show bearer route) "POST" ≡ true
  unfolding is_protected path_of starts_with
  Mutates-protected (triages n action) =
      rw (starts_with-append "/api/alerts/" "/api/alerts/" (show n +++ ("/" +++ action)) refl)
        (ground arith)
  Mutates-protected (isolates vm_id) =
      rw (starts_with-append "/api/isolate" "/api/isolate/" vm_id refl) refl
  Mutates-protected (restores vm_id) =
      rw (starts_with-append "/api/restore" "/api/restore/" vm_id refl) (ground arith)

  module _ (allowed_ips : Option (List String)) (api_token : String) (now : ℕ) (r : Request)
      (e : Engine) where
    abbrev pub served : Served
    served = serve show bearer allowed_ips api_token now r e

    abbrev answered : Answer
    answered = guard show bearer allowed_ips api_token r

    refused :
        is_protected (path_of show bearer r.route) r.method ≡ true
        → is_local r.remote_addr ≡ false
        → str_eq (supplied show bearer r) api_token ≡ false
        → answered ≡ passed
        → ⊥
    unfolding guard
    refused protected remote wrong open_ = ground arith

    closed :
        (a : Answer)
        → answered ≡ a
        → (a ≡ passed → IsHarmless now e (handle now r r.route e))
        → IsHarmless now e served
    unfolding serve
    closed passed same h = rw (same, serve) (h refl)
    closed forbidden same h = rw (same, serve) (refl, inl refl)
    closed unauthorized same h = rw (same, serve) (refl, inl refl)

    -- Under a method that is not POST these routes are errors.
    idle :
        {route : Route}
        → Mutates route
        → str_eq r.method "POST" ≡ false
        → handle now r route e ≡ unchanged e
    unfolding handle
    idle (triages n action) other = rw (other, handle) refl
    idle (isolates vm_id) other = rw (other, handle) refl
    idle (restores vm_id) other = rw (other, handle) refl

    mutating :
        Mutates r.route
        → is_local r.remote_addr ≡ false
        → str_eq (supplied show bearer r) api_token ≡ false
        → IsHarmless now e served
    mutating m remote wrong = elim (Bool-cases (str_eq r.method "POST")) [
      | inl post ↦
          let same : r.method ≡ "POST" = (eq_iff r.method "POST").0 post in
          let protected =
            subst (λ x. is_protected (path_of show bearer r.route) x ≡ true) (sym same)
              (Mutates-protected m) in
          closed answered refl (λ open_. absurd (refused protected remote wrong open_))
      | inr other ↦
          closed answered refl (λ _. subst (IsHarmless now e) (sym (idle m other)) (refl, inl refl))
    ]

    reads :
        (route : Route)
        → r.route ≡ route
        → IsHarmless now e (handle now r route e)
        → IsHarmless now e served
    reads route at_route h =
        closed answered refl
          (λ _. subst (λ x. IsHarmless now e (handle now r x e)) (sym at_route) h)

    harmless :
        (route : Route)
        → r.route ≡ route
        → is_local r.remote_addr ≡ false
        → str_eq (supplied show bearer r) api_token ≡ false
        → IsHarmless now e served
    unfolding handle
    harmless dashboard at_route remote wrong = reads dashboard at_route (refl, inl refl)
    harmless status at_route remote wrong =
        elim (Bool-cases (str_eq r.method "GET" || str_eq r.method "HEAD")) [
          | inl read ↦ reads status at_route (rw (read, handle) (refl, inr refl))
          | inr other ↦ reads status at_route (rw (other, handle) (refl, inl refl))
        ]
    harmless stix at_route remote wrong = reads stix at_route (refl, inl refl)
    harmless attack_layer at_route remote wrong = reads attack_layer at_route (refl, inl refl)
    harmless audit at_route remote wrong = reads audit at_route (refl, inl refl)
    harmless healthz at_route remote wrong = reads healthz at_route (refl, inl refl)
    harmless (alert_action n action) at_route remote wrong =
        mutating (subst Mutates (sym at_route) (triages n action)) remote wrong
    harmless (isolate vm_id) at_route remote wrong =
        mutating (subst Mutates (sym at_route) (isolates vm_id)) remote wrong
    harmless (restore vm_id) at_route remote wrong =
        mutating (subst Mutates (sym at_route) (restores vm_id)) remote wrong

    -- A remote caller without the token changes nothing: whatever the route, the method and the body,
    -- no isolation is started, and the engine is as it was or has its scores brought up to date.
    pub stranger-IsHarmless :
        is_local r.remote_addr ≡ false
        → str_eq (supplied show bearer r) api_token ≡ false
        → IsHarmless now e served
    stranger-IsHarmless = harmless r.route refl
