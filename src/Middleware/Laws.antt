-- ===== src/Middleware/Laws.antt =====
-- The order in which a compiled chain runs its layers, and what its pointers refer to.
use lundicpp.Base.{
  ℕ, suc, Bytes, ◌≡◌, refl, sym, ap, ◌∙◌, List, [], ◌∷◌, ◌++◌, some, get_elem?, length, arith,
  append_assoc, length-append,
}
use lundicpp.Request.{Request}
use lundicpp.Response.{Response}
use lundicpp.Middleware.{
  MiddlewareFn, Next, rev, Compiled, inner, around, pointers, compile_loop, compile, through,
  call_compiled, compile_route_handler, Outcome, returned, thrown, thrown_other, logged, logger,
}

module _ {ℓ} {W : Type ℓ} where
  -- The first layer is called first, with the rest of the chain as its `next`.
  abbrev pub nested : List (MiddlewareFn W) → Next W → Next W
  nested [] handler = handler
  nested (m ∷ ms) handler = λ r w. m r (nested ms handler) w

  -- The chain with its outermost layer first.
  abbrev wrapped : List ℕ → Compiled W → Compiled W
  wrapped [] chain = chain
  wrapped (i ∷ is) chain = around i (wrapped is chain)

  loop-rev :
      (is acc : List ℕ) (chain : Compiled W)
      → compile_loop (rev is acc) chain ≡ compile_loop acc (wrapped is chain)
  unfolding compile_loop
  loop-rev [] acc chain = refl
  loop-rev (i ∷ is) acc chain = loop-rev is (i ∷ acc) chain

  compile-wrapped :
      (layers : List (MiddlewareFn W)) (handler : Next W)
      → compile layers handler ≡ wrapped (pointers 0 layers) (inner handler)
  unfolding compile compile_loop
  compile-wrapped layers handler = loop-rev (pointers 0 layers) [] (inner handler)

  get_elem?-here :
      (before ms : List (MiddlewareFn W)) (m : MiddlewareFn W)
      → get_elem? (before ++ m ∷ ms) (length before) ≡ some m
  get_elem?-here [] ms m = refl
  get_elem?-here (b ∷ before) ms m = get_elem?-here before ms m

  call-nested :
      (undefined handler : Next W) (before ms : List (MiddlewareFn W)) (i : ℕ)
      → i ≡ length before
      → call_compiled undefined (before ++ ms) (wrapped (pointers i ms) (inner handler))
        ≡ nested ms handler
  unfolding call_compiled
  call-nested undefined handler before [] i e = refl
  call-nested undefined handler before (m ∷ ms) i e =
      let later =
        call-nested undefined handler (before ++ m ∷ []) ms (suc i)
          (omega (arith, e, length-append before (m ∷ []))) in
      let there : get_elem? (before ++ m ∷ ms) i ≡ some m = rw e (get_elem?-here before ms m) in
      ap (through undefined _) there
      ∙ ap (λ (h : Next W). λ r w. m r h w)
          (ap (λ t. call_compiled undefined t (wrapped (pointers (suc i) ms) (inner handler)))
              (sym (append_assoc before (m ∷ []) ms))
            ∙ later)

  -- However many layers there are, a call of the compiled chain runs them in the order in which they were
  -- added, each around the rest, with the handler innermost, as long as the layers exist.
  pub compile-nested :
      (undefined handler : Next W) (layers : List (MiddlewareFn W))
      → call_compiled undefined layers (compile layers handler) ≡ nested layers handler
  compile-nested undefined handler layers =
      ap (call_compiled undefined layers) (compile-wrapped layers handler)
      ∙ call-nested undefined handler [] layers 0 refl

  -- A route's handler that was compiled with middleware calls a layer that was destroyed.
  pub compile_route_handler-destroyed :
      (undefined handler : Next W) (m : MiddlewareFn W) (ms : List (MiddlewareFn W))
      → compile_route_handler undefined (m ∷ ms) handler ≡ undefined
  unfolding compile_route_handler call_compiled
  compile_route_handler-destroyed undefined handler m ms =
      ap (call_compiled undefined []) (compile-wrapped (m ∷ ms) handler)

  -- The logger changes neither the result of the handlers nor the request that they leave.
  logger-next :
      (now : W → ℕ) (print : Bytes → W → W) (req : Request) (next : Next W) (w : W)
      → ((logger now print req next w).0 ≡ (next req w).0)
        × ((logger now print req next w).1 ≡ (next req w).1)
  unfolding logger
  logger-next now print req next w = go (next req w)
    where
      go :
          (o : Outcome Response × Request × W)
          → ((logged now print req.method req.raw_path (now w) o).0 ≡ o.0)
            × ((logged now print req.method req.raw_path (now w) o).1 ≡ o.1)
      go (returned res, _, _) = (refl, refl)
      go (thrown what, _, _) = (refl, refl)
      go (thrown_other, _, _) = (refl, refl)
