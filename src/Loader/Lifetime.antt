-- ===== src/Loader/Lifetime.antt =====
-- When a BraveProxyingURLLoaderFactory ends, and what it holds until then
-- (chrome/browser/net/brave_proxying_url_loader_factory.cc).
use chromium_adblock.Base.{
  ℕ, suc, ◌-◌, Bool, true, false, not, ◌||◌, ◌==◌, ◌≡◌, refl, sym, ap, ◌∙◌, Option, none, some,
  List, [], ◌∷◌, All, is_nil, ==_iff, arith, if◌then◌else◌,
}
use chromium_adblock.Loader.Types.{InProgressRequest, Net}
use chromium_adblock.Loader.Events.{Event, new_request}
use chromium_adblock.Loader.Before.{restart}
use chromium_adblock.Loader.Factory.{
  Factory, maybe_remove_proxy, without, replaced, request_of, remove_from, settle_request, Call,
  create_loader_and_start, clone, target_factory_error, proxy_binding_error, request_event,
  on_target_factory_error, on_proxy_binding_error, start_loader, deliver_to, call, run_calls,
}

abbrev is_needed : Factory → Bool
is_needed f = f.target_factory_bound || not (is_nil f.requests)

abbrev IsAlive : InProgressRequest → Type 0
IsAlive ip = ip.removed ≡ false

abbrev IsGone : InProgressRequest → Type 0
IsGone ip = ip.removed ≡ true

-- The factory has ended, once, exactly when it has neither a target nor a request; the requests
-- that it holds are alive, and those that it has let go are not.
pub record IsLive (f : Factory) : Type 0 where
  pub ends : f.deleted ≡ (if is_needed f then 0 else 1)
  pub held : All IsAlive f.requests
  pub let_go : All IsGone f.gone

-- The same, before it is asked whether the factory is needed.
record IsOpen (f : Factory) : Type 0 where
  lasts : f.deleted ≡ 0
  held : All IsAlive f.requests
  let_go : All IsGone f.gone

maybe_remove_proxy-IsLive : (f : Factory) → IsOpen f → IsLive (maybe_remove_proxy f)
unfolding maybe_remove_proxy
maybe_remove_proxy-IsLive f o = by_need (is_needed f) refl
  where
    by_need :
        (needed : Bool)
        → needed ≡ is_needed f
        → IsLive (if needed then f else record f { deleted = suc f.deleted })
    by_need true e = record {
      ends = o.lasts ∙ ap (λ b. if b then 0 else 1) e;
      held = o.held;
      let_go = o.let_go;
    }
    by_need false e = record {
      ends = ap suc o.lasts ∙ ap (λ b. if b then 0 else 1) e;
      held = o.held;
      let_go = o.let_go;
    }

choose-IsAlive :
    (test : Bool) (a b : List InProgressRequest)
    → All IsAlive a
    → All IsAlive b
    → All IsAlive (if test then a else b)
choose-IsAlive true a b p q = p
choose-IsAlive false a b p q = q

without-IsAlive :
    (id : ℕ) (ips : List InProgressRequest) → All IsAlive ips → All IsAlive (without id ips)
without-IsAlive id [] h = tt
without-IsAlive id (ip ∷ ips) (a, h) =
    choose-IsAlive (ip.request_id == id) ips (ip ∷ without id ips) h (a, without-IsAlive id ips h)

replaced-IsAlive :
    (new : InProgressRequest) (ips : List InProgressRequest)
    → IsAlive new
    → All IsAlive ips
    → All IsAlive (replaced new ips)
replaced-IsAlive new [] n h = tt
replaced-IsAlive new (ip ∷ ips) n (a, h) =
    choose-IsAlive (ip.request_id == new.request_id) (new ∷ ips) (ip ∷ replaced new ips) (n, h)
      (a, replaced-IsAlive new ips n h)

is_nil-choose :
    (test : Bool) (a b : InProgressRequest) (rest more : List InProgressRequest)
    → is_nil (if test then a ∷ rest else b ∷ more) ≡ false
is_nil-choose true a b rest more = refl
is_nil-choose false a b rest more = refl

is_nil-replaced :
    (new : InProgressRequest) (ips : List InProgressRequest)
    → is_nil (replaced new ips) ≡ is_nil ips
is_nil-replaced new [] = refl
is_nil-replaced new (ip ∷ ips) =
    is_nil-choose (ip.request_id == new.request_id) new ip ips (replaced new ips)

settle_request-IsLive :
    (ip : InProgressRequest) (f : Factory)
    → f.deleted ≡ 0
    → is_needed f ≡ true
    → All IsAlive f.requests
    → All IsGone f.gone
    → IsLive (settle_request ip f)
unfolding settle_request remove_from
settle_request-IsLive ip f lasts needed held let_go = by_removed ip.removed refl
  where
    by_removed :
        (removed : Bool)
        → removed ≡ ip.removed
        → IsLive (
            if removed
            then remove_from ip (record f { handler = ip.handler })
            else record f { handler = ip.handler; requests = replaced ip f.requests })
    by_removed true e =
        maybe_remove_proxy-IsLive
          (record f {
            handler = ip.handler;
            requests = without ip.request_id f.requests;
            gone = ip ∷ f.gone;
          })
          (record {
            lasts = lasts;
            held = without-IsAlive ip.request_id f.requests held;
            let_go = (sym e, let_go);
          })
    by_removed false e = record {
      ends =
          lasts
          ∙ ap (λ b. if b then 0 else 1)
              (sym needed
                ∙ ap (λ nil. f.target_factory_bound || not nil)
                    (sym (is_nil-replaced ip f.requests)));
      held = replaced-IsAlive ip f.requests (sym e) held;
      let_go = let_go;
    }

needed_of_lasts : (f : Factory) → IsLive f → f.deleted ≡ 0 → is_needed f ≡ true
needed_of_lasts f live lasts = by_need (is_needed f) (sym lasts ∙ live.ends)
  where
    by_need : (needed : Bool) → ◌≡◌ {A = ℕ} 0 (if needed then 0 else 1) → needed ≡ true
    by_need true e = refl
    by_need false e = absurd (omega arith)

module _ (net : Net) where
  deliver_to-IsLive :
      (ip : Option InProgressRequest) (event : Event) (f : Factory)
      → IsLive f
      → f.deleted ≡ 0
      → IsLive (deliver_to net ip event f)
  deliver_to-IsLive none event f live lasts = live
  deliver_to-IsLive (some ip) event f live lasts =
      settle_request-IsLive _ f lasts (needed_of_lasts f live lasts) live.held live.let_go

  call-IsLive : (c : Call) (f : Factory) → IsLive f → f.deleted ≡ 0 → IsLive (call net c f)
  unfolding call start_loader new_request on_target_factory_error on_proxy_binding_error
  call-IsLive (create_loader_and_start request) f live lasts =
      let ip = new_request net f.handler f.target_factory_bound f.next_request_id request in
      settle_request-IsLive (restart net ip)
        (record f { requests = ip ∷ f.requests; next_request_id = suc f.next_request_id }) lasts
        (or_true f.target_factory_bound) (refl, live.held) live.let_go
    where
      or_true : (b : Bool) → (b || true) ≡ true
      or_true true = refl
      or_true false = refl
  call-IsLive clone f live lasts = record {
    ends = live.ends;
    held = live.held;
    let_go = live.let_go;
  }
  call-IsLive target_factory_error f live lasts =
      maybe_remove_proxy-IsLive (record f { target_factory_bound = false; proxy_receivers = 0 })
        (record { lasts = lasts; held = live.held; let_go = live.let_go })
  call-IsLive proxy_binding_error f live lasts =
      maybe_remove_proxy-IsLive
        (record f {
          proxy_receivers = f.proxy_receivers - 1;
          target_factory_bound =
              if f.proxy_receivers - 1 == 0 then false else f.target_factory_bound;
        })
        (record { lasts = lasts; held = live.held; let_go = live.let_go })
  call-IsLive (request_event id event) f live lasts =
      deliver_to-IsLive (request_of id f.requests) event f live lasts

  call_if_lasts-IsLive :
      (c : Call) (f : Factory) → IsLive f → IsLive (if f.deleted == 0 then call net c f else f)
  call_if_lasts-IsLive c f live = by_lasts (f.deleted == 0) refl
    where
      by_lasts :
          (lasts : Bool) → lasts ≡ (f.deleted == 0) → IsLive (if lasts then call net c f else f)
      by_lasts true e = call-IsLive c f live ((==_iff f.deleted 0).0 (sym e))
      by_lasts false e = live

  -- Whatever calls, errors and messages reach a factory, in whatever order: it ends exactly when it
  -- has neither a target factory nor a request under way, and it ends once; each request that it
  -- holds is alive, and each that it has let go has been deleted.
  pub run_calls-IsLive :
      (calls : List Call) (f : Factory) → IsLive f → IsLive (run_calls net calls f)
  unfolding run_calls
  run_calls-IsLive [] f live = live
  run_calls-IsLive (c ∷ calls) f live = run_calls-IsLive calls _ (call_if_lasts-IsLive c f live)
