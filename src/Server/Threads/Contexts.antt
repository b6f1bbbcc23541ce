-- ===== src/Server/Threads/Contexts.antt =====
-- The contexts of `listen`: all are at work until a signal comes, and then all are at rest.
use lundicpp.Base.{
  ℕ, zero, suc, ◌-◌, ◌≤◌, ◌<◌, ◌≡◌, ◌≢◌, refl, sym, ap, ◌∙◌, ◌⊎◌, inl, inr, List, [], ◌∷◌, map,
  Bool, true, false, Option, none, some, arith, length, get_elem?, replicate, length-append,
  length-set, length-map, get_elem?-snoc_cases,
}
use lundicpp.Server.Threads.{
  ThreadState, running, finished, Context, at_work, at_rest, starting, serving, leaving, ListenCall,
  start_call, emplace, on_signal, IsRun, may_run_return,
}
use lundicpp.Server.Threads.Changes.{
  has_ended, Change, emplacing, serving_now, signalling, logging, unwinding, leaving_now, joining,
  ending, run_returning, terminating,
}
use lundicpp.Server.Threads.Owners.{IsOwned}

-- There is a context for every thread, in the state of the main one; before a signal no thread has
-- finished.
pub record IsSteady (s : ListenCall) : Type 0 where
  pub enough : length s.threads ≤ length s.contexts
  pub alike : (i : ℕ) (ctx : Context) → get_elem? s.contexts i ≡ some ctx → ctx ≡ s.main_ctx
  pub known : (s.main_ctx ≡ at_work) ⊎ (s.main_ctx ≡ at_rest)
  pub fresh : s.phase ≡ starting → s.main_ctx ≡ at_work
  pub busy :
      s.main_ctx ≡ at_work
      → (i : ℕ) (state : ThreadState) → get_elem? s.threads i ≡ some state
      → state ≡ running

get_elem?-replicate : (n i : ℕ) (c d : Context) → get_elem? (replicate n c) i ≡ some d → d ≡ c
get_elem?-replicate zero i c d e = absurd (cc)
get_elem?-replicate (suc n) zero c d e = cc
get_elem?-replicate (suc n) (suc i) c d e = get_elem?-replicate n i c d e

get_elem?-map_const :
    (cs : List Context) (i : ℕ) (c d : Context) → get_elem? (map (λ _. c) cs) i ≡ some d → d ≡ c
get_elem?-map_const [] i c d e = absurd (cc)
get_elem?-map_const (x ∷ cs) zero c d e = cc
get_elem?-map_const (x ∷ cs) (suc i) c d e = get_elem?-map_const cs i c d e

pub rest_not_work : at_rest ≢ at_work
rest_not_work e = let no : true ≡ false = ap (λ (c : Context). c.stopped) e in cc

module _ (may_return : ℕ → Context → Bool) (law : IsRun may_return) where
  -- While the contexts are at work, no thread returns from one.
  pub stays :
      (pending : ℕ) (o : Option Context)
      → ((ctx : Context) → o ≡ some ctx → ctx ≡ at_work)
      → may_run_return may_return pending o ≢ true
  stays pending none work e = cc
  stays pending (some ctx) work e =
      let no : false ≡ true =
        sym (law.guarded_stays pending) ∙ (ap (may_return pending) (sym (work ctx refl)) ∙ e) in
      cc

  -- A context at rest lets its thread return.
  pub returns :
      (pending : ℕ) (o : Option Context) (ctx : Context)
      → o ≡ some ctx
      → ctx ≡ at_rest
      → may_run_return may_return pending o ≡ true
  returns pending none ctx e rest = absurd (cc)
  returns pending (some c) ctx e rest =
      let same : c ≡ at_rest = cc in ap (may_return pending) same ∙ law.stopped_returns pending

  -- A change of the phase alone.
  moved-IsSteady :
      (s t : ListenCall)
      → t.threads ≡ s.threads
      → t.contexts ≡ s.contexts
      → t.main_ctx ≡ s.main_ctx
      → t.phase ≢ starting
      → IsSteady s
      → IsSteady t
  moved-IsSteady s t same_threads same_contexts same_main later h = record {
    enough = rw (same_threads, same_contexts) h.enough;
    alike = λ i ctx e.
        h.alike i ctx (sym (ap (λ cs. get_elem? cs i) same_contexts) ∙ e) ∙ sym same_main;
    known = rw same_main h.known;
    fresh = λ e. absurd (later e);
    busy = λ work i state e.
        h.busy (sym same_main ∙ work) i state (sym (ap (λ ts. get_elem? ts i) same_threads) ∙ e);
  }

  emplace-IsSteady :
      (s : ListenCall)
      → IsSteady s
      → length s.threads ≤ length s.contexts - 1
      → 0 < length s.contexts
      → IsSteady (emplace s)
  unfolding emplace lundicpp.Server.Threads.start_thread
  emplace-IsSteady s h room some_context = record {
    enough = omega (arith, room, some_context, length-append s.threads (running ∷ []));
    alike = h.alike;
    known = h.known;
    fresh = h.fresh;
    busy = λ work i state e. elim (get_elem?-snoc_cases s.threads running i e) [
      | inl old ↦ h.busy work i state old
      | inr (at, same) ↦ sym same
    ];
  }

  pub Change-IsSteady :
      (s t : ListenCall) → Change may_return s t → IsOwned s → IsSteady s → IsSteady t
  unfolding on_signal
  Change-IsSteady s t (emplacing p lt) o h =
      emplace-IsSteady s h (omega (arith, lt, o.made p)) (omega (arith, lt))
  Change-IsSteady s t (serving_now p le) o h = moved-IsSteady s t refl refl refl (λ e. cc) h
  Change-IsSteady s t (signalling p not_yet) o h = record {
    enough = omega (arith, h.enough, length-map s.contexts (λ _. at_rest));
    alike = λ i ctx e. get_elem?-map_const s.contexts i at_rest ctx e;
    known = inr refl;
    fresh = λ e. absurd (cc);
    busy = λ work. absurd (rest_not_work work);
  }
  Change-IsSteady s t (logging cerr) o h = record {
    enough = h.enough;
    alike = h.alike;
    known = h.known;
    fresh = h.fresh;
    busy = h.busy;
  }
  Change-IsSteady s t (unwinding e cerr p) o h = moved-IsSteady s t refl refl refl (λ e. cc) h
  Change-IsSteady s t (leaving_now pending p may) o h =
      moved-IsSteady s t refl refl refl (λ e. cc) h
  Change-IsSteady s t (joining p at j) o h = record {
    enough = h.enough;
    alike = h.alike;
    known = h.known;
    fresh = h.fresh;
    busy = h.busy;
  }
  Change-IsSteady s t (ending p at end) o h =
      moved-IsSteady s t refl refl refl (λ e. let no = ap has_ended e in cc) h
  Change-IsSteady s t (run_returning pending i p may runs) o h = record {
    enough = omega (arith, h.enough, length-set s.threads i finished);
    alike = h.alike;
    known = h.known;
    fresh = h.fresh;
    busy = λ work.
        absurd (stays pending (get_elem? s.contexts i) (λ ctx e. h.alike i ctx e ∙ work) may);
  }
  Change-IsSteady s t (terminating p) o h = moved-IsSteady s t refl refl refl (λ e. cc) h

pub start_call-IsSteady : (workers : ℕ) → IsSteady (start_call workers)
unfolding start_call
start_call-IsSteady workers = record {
  enough = omega arith;
  alike = λ i ctx e. get_elem?-replicate workers i at_work ctx e;
  known = inl refl;
  fresh = λ e. refl;
  busy = λ work i state e. absurd (cc);
}
