-- ===== src/Router/Resolve.antt =====
-- `router::resolve` returns the handler of the first route that fits.
use lundicpp.Base.{
  ◌≡◌, ◌↔◌, refl, sym, ◌∙◌, Bytes, List, [], ◌∷◌, Bool, true, false, Option, none, some, arith,
  Bool-cases, inl, inr, bytes_eq, bytes_eq_iff,
}
use lundicpp.Base.Find.{All}
use lundicpp.Router.{RouteEntry, ParamEntry, match_route, resolve, split_path_sv}
use lundicpp.Router.Match.{Captures, match_route_sound, match_route_complete}

module _ {ℓ} {H : Type ℓ} (method path : Bytes) where
  -- The route has another method, or its pattern captures nothing of the path.
  abbrev pub Refuses : RouteEntry H → Type 0
  Refuses r =
      r.method ≡ method → (ps : List ParamEntry) → ¬ Captures r.pattern (split_path_sv path) ps

  -- The first route that fits has the handler `h`, and its pattern captures `ps`.
  pub data Selects : List (RouteEntry H) → H → List ParamEntry → Type ℓ where
    hit :
        {r : RouteEntry H} {rs : List (RouteEntry H)} {h : H} {ps : List ParamEntry}
        → r.method ≡ method
        → Captures r.pattern (split_path_sv path) ps
        → r.handler ≡ h
        → Selects (r ∷ rs) h ps
    pass :
        {r : RouteEntry H} {rs : List (RouteEntry H)} {h : H} {ps : List ParamEntry}
        → Refuses r
        → Selects rs h ps
        → Selects (r ∷ rs) h ps

  resolve_other :
      (r : RouteEntry H) (rs : List (RouteEntry H)) (params : List ParamEntry)
      → bytes_eq r.method method ≡ false
      → resolve (r ∷ rs) method path params ≡ resolve rs method path params
  unfolding resolve
  resolve_other r rs params e = rw e

  resolve_hit :
      (r : RouteEntry H) (rs : List (RouteEntry H)) (params found : List ParamEntry)
      → bytes_eq r.method method ≡ true
      → match_route r.pattern path [] ≡ (true, found)
      → resolve (r ∷ rs) method path params ≡ (some r.handler, found)
  unfolding resolve
  resolve_hit r rs params found e m = rw (e, m)

  resolve_miss :
      (r : RouteEntry H) (rs : List (RouteEntry H)) (params found : List ParamEntry)
      → bytes_eq r.method method ≡ true
      → match_route r.pattern path [] ≡ (false, found)
      → resolve (r ∷ rs) method path params ≡ resolve rs method path found
  unfolding resolve
  resolve_miss r rs params found e m = rw (e, m)

  -- The three cases of one round.
  data IsRound (r : RouteEntry H) : Type 0 where
    other : bytes_eq r.method method ≡ false → Refuses r → IsRound r
    matched :
        (found : List ParamEntry)
        → bytes_eq r.method method ≡ true
        → match_route r.pattern path [] ≡ (true, found)
        → Captures r.pattern (split_path_sv path) found
        → IsRound r
    missed :
        (found : List ParamEntry)
        → bytes_eq r.method method ≡ true
        → match_route r.pattern path [] ≡ (false, found)
        → Refuses r
        → IsRound r

  IsRound-result :
      (r : RouteEntry H) (o : Bool × List ParamEntry)
      → bytes_eq r.method method ≡ true
      → match_route r.pattern path [] ≡ o
      → IsRound r
  IsRound-result r (true, found) e m =
      let (ps, split, c) = match_route_sound r.pattern path [] found m in
      matched found e m (rw split c)
  IsRound-result r (false, found) e m =
      missed found e m (λ same ps c. absurd (cc (match_route_complete r.pattern path [] ps c)))

  round : (r : RouteEntry H) → IsRound r
  round r = elim (Bool-cases (bytes_eq r.method method)) [
    | inl e ↦ IsRound-result r (match_route r.pattern path []) e refl
    | inr e ↦ other e (λ same ps c. absurd (cc ((bytes_eq_iff r.method method).1 same)))
  ]

  resolve_sound :
      (rs : List (RouteEntry H)) (params ps : List ParamEntry) (h : H)
      → resolve rs method path params ≡ (some h, ps)
      → Selects rs h ps
  resolve_sound [] params ps h e = absurd (unfold resolve in cc)
  resolve_sound (r ∷ rs) params ps h e = elim (round r) [
    | other ne no_fit ↦
        pass no_fit (resolve_sound rs params ps h (sym (resolve_other r rs params ne) ∙ e))
    | matched found same m c ↦
        let chosen : ◌≡◌ {A = Option H × List ParamEntry} (some r.handler, found) (some h, ps) =
          sym (resolve_hit r rs params found same m) ∙ e in
        let fields : (◌≡◌ {A = Option H} (some r.handler) (some h)) × (found ≡ ps) =
          ground (arith, chosen) in
        hit ((bytes_eq_iff r.method method).0 same) (rw fields.1 at c) (cc fields.0)
    | missed found same m no_fit ↦
        pass no_fit (resolve_sound rs found ps h (sym (resolve_miss r rs params found same m) ∙ e))
  ]

  resolve_complete :
      {rs : List (RouteEntry H)} {h : H} {ps : List ParamEntry} (params : List ParamEntry)
      → Selects rs h ps
      → resolve rs method path params ≡ (some h, ps)
  resolve_complete params (hit {r} {rs} {h} {ps} same c is) =
      resolve_hit r rs params ps ((bytes_eq_iff r.method method).1 same)
        (match_route_complete r.pattern path [] ps c)
      ∙ rw is
  resolve_complete params (pass {r} {rs} {h} {ps} no_fit s) = elim (round r) [
    | other ne _ ↦ resolve_other r rs params ne ∙ resolve_complete params s
    | matched found same m c ↦ absurd (no_fit ((bytes_eq_iff r.method method).0 same) found c)
    | missed found same m _ ↦ resolve_miss r rs params found same m ∙ resolve_complete found s
  ]

  -- A handler and parameters are the result exactly when they are those of the first registered route
  -- with the request's method whose pattern captures them from the path; what `params` held before
  -- plays no part.
  pub resolve_iff :
      (rs : List (RouteEntry H)) (params ps : List ParamEntry) (h : H)
      → (resolve rs method path params ≡ (some h, ps)) ↔ Selects rs h ps
  resolve_iff rs params ps h = (resolve_sound rs params ps h, resolve_complete params)

  none_sound :
      (rs : List (RouteEntry H)) (params q : List ParamEntry)
      → resolve rs method path params ≡ (none, q)
      → All Refuses rs
  none_sound [] params q e = tt
  none_sound (r ∷ rs) params q e = elim (round r) [
    | other ne no_fit ↦ (no_fit, none_sound rs params q (sym (resolve_other r rs params ne) ∙ e))
    | matched found same m c ↦ absurd (ground (arith, e, resolve_hit r rs params found same m))
    | missed found same m no_fit ↦
        (no_fit, none_sound rs found q (sym (resolve_miss r rs params found same m) ∙ e))
  ]

  none_complete :
      (rs : List (RouteEntry H)) (params : List ParamEntry)
      → All Refuses rs
      → (resolve rs method path params).0 ≡ none
  none_complete [] params a = unfold resolve in refl
  none_complete (r ∷ rs) params (no_fit, a) = elim (round r) [
    | other ne _ ↦ rw (resolve_other r rs params ne) (none_complete rs params a)
    | matched found same m c ↦ absurd (no_fit ((bytes_eq_iff r.method method).0 same) found c)
    | missed found same m _ ↦ rw (resolve_miss r rs params found same m) (none_complete rs found a)
  ]

  -- Nothing is found exactly when every route has another method or a pattern that captures nothing.
  pub resolve-none_iff :
      (rs : List (RouteEntry H)) (params : List ParamEntry)
      → ((resolve rs method path params).0 ≡ none) ↔ All Refuses rs
  resolve-none_iff rs params = (
    λ e. none_sound rs params (resolve rs method path params).1 (ground (arith, e)),
    none_complete rs params,
  )
