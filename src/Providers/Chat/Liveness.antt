-- ===== src/Providers/Chat/Liveness.antt =====
-- When `ModelRouter.chat` of src/providers/router.ts goes on to the next candidate.
use mathlib.Core.List.{Memᴰ, not-mem-nil}
use saivage.Base.{
  String, ◌≡◌, refl, ap, sym, subst, Bool, true, false, not, ◌&&◌, ◌||◌, Option, none, [], ◌∷◌,
  arith, ◌==◌, eq_iff, ltb, if◌then◌else◌, elem, All, Distinct,
}
use saivage.Providers.Errors.{ErrorKind}
use saivage.Providers.Candidates.{ChatCandidate, Chain}
use saivage.Providers.Candidates.Coverage.{keys}
use saivage.Providers.Health.{get_health}
use saivage.Providers.Chat.{
  RouterState, CallResult, ok, failed, Probe, ChatRequest, Outcome, answered, is_full, Round, stop,
  go_on, settle, round, after_round, chat_loop, chat,
}
use saivage.Providers.Chat.Failover.{
  health_of, SafeResult, IsHarmless, IsUsable, IsUsable-same, Fits, round-Fits, looked_up,
}

abbrev pub WasAnswered : {R : Type 0} → Outcome R → Type 0
WasAnswered (answered c r) = Unit
WasAnswered outcome = ⊥

elem_of_Memᴰ : (c : ChatCandidate) (cs : Chain) → Memᴰ c cs → elem c.health_key (keys cs) ≡ true
elem_of_Memᴰ c [] m = absurd (not-mem-nil ∣ m ∣₁)
elem_of_Memᴰ c (b ∷ bs) (Memᴰ.head e) =
    ground (arith, ap (λ (x : ChatCandidate). x.health_key) e, eq_iff b.health_key c.health_key)
elem_of_Memᴰ c (b ∷ bs) (Memᴰ.tail m) = ground (arith, elem_of_Memᴰ c bs m)

module _ {R : Type 0} (req : ChatRequest) (world : ChatCandidate → Probe R) where
  -- The loop goes on or is answered.
  abbrev Proceeds : Round R → Type 0
  Proceeds (stop outcome s) = WasAnswered outcome
  Proceeds (go_on attempted last s) = Unit

  abbrev Ends : Round R → Type 0
  Ends (stop outcome s) = WasAnswered outcome
  Ends (go_on attempted last s) = ⊥

  Proceeds-if :
      (b : Bool) (x y : Round R)
      → (b ≡ true → Proceeds x)
      → (b ≡ false → Proceeds y)
      → Proceeds (if b then x else y)
  Proceeds-if true x y hx hy = hx refl
  Proceeds-if false x y hx hy = hy refl

  settle-Proceeds :
      (c : ChatCandidate) (attempted : Bool) (s : RouterState) (result : CallResult R)
      → SafeResult req world result
      → Proceeds (
          settle req world c result attempted
            (get_health s.health c.health_key).0
            (looked_up req world s c))
  unfolding settle
  settle-Proceeds c attempted s (ok r) safe = tt
  settle-Proceeds c attempted s (failed kind) safe = rw safe tt

  round-Proceeds :
      (c : ChatCandidate) (attempted : Bool) (last : Option ErrorKind) (s : RouterState)
      → IsHarmless req world c
      → Proceeds (round req world c attempted last s)
  unfolding round
  round-Proceeds c attempted last s h =
      Proceeds-if (ltb (world c).now (get_health s.health c.health_key).0.disabled_until) _ _
        (λ e. tt)
        (λ e.
          Proceeds-if (not (is_full c.spec)) _ _ (λ bad. absurd (ground (arith, h.full)))
            (λ e.
              Proceeds-if (not (world c).registered) _ _ (λ e. tt)
                (λ e.
                  Proceeds-if (req.needs_images && not (world c).supports_images) _ _ (λ e. tt)
                    (λ e.
                      Proceeds-if (world c).key_fails _ _ (λ bad. absurd (ground (arith, h.key)))
                        (λ e.
                          Proceeds-if (world c).limited _ _ (λ e. tt)
                            (λ e.
                              settle-Proceeds c (attempted || c.spec == req.model_spec) s
                                (world c).result h.result))))))

  settle-Ends :
      (c : ChatCandidate) (attempted : Bool) (s : RouterState) (result : CallResult R) {r : R}
      → result ≡ ok r
      → Ends (
          settle req world c result attempted
            (get_health s.health c.health_key).0
            (looked_up req world s c))
  unfolding settle
  settle-Ends c attempted s result e = rw e tt

  round-Ends :
      (c : ChatCandidate) (attempted : Bool) (last : Option ErrorKind) (s : RouterState) (r : R)
      → IsUsable req world s c r
      → Ends (round req world c attempted last s)
  unfolding round get_health
  round-Ends c attempted last s r u =
      rw (u.rested, u.full, u.registered, u.images, u.key, u.limited)
        (unfold get_health in
          settle-Ends c (attempted || c.spec == req.model_spec) s (world c).result u.result)

  after_round-answered :
      (rest : Bool → Option ErrorKind → RouterState → Outcome R × RouterState) (r : Round R)
      → Proceeds r
      → ((attempted : Bool) (last : Option ErrorKind) (s : RouterState)
          → r ≡ go_on attempted last s
          → WasAnswered (rest attempted last s).0)
      → WasAnswered (after_round rest r).0
  after_round-answered rest (stop outcome s) p later = p
  after_round-answered rest (go_on attempted last s) p later = later attempted last s refl

  Ends-answered :
      (rest : Bool → Option ErrorKind → RouterState → Outcome R × RouterState) (r : Round R)
      → Ends r
      → WasAnswered (after_round rest r).0
  Ends-answered rest (stop outcome s) h = h
  Ends-answered rest (go_on attempted last s) h = absurd h

  go_on-health :
      (s : RouterState) (b : ChatCandidate) (r : Round R)
      → Fits req world s b r
      → {attempted : Bool} {last : Option ErrorKind} {s' : RouterState}
      → r ≡ go_on attempted last s'
      → (key : String) → (b.health_key == key) ≡ false
      → health_of s' key ≡ health_of s key
  go_on-health s b r f {attempted} {last} {s'} e = subst (λ (x : Round R). Fits req world s b x) e f

  chat_loop-answered :
      (chain : Chain) (attempted : Bool) (last : Option ErrorKind) (s : RouterState)
      (c : ChatCandidate) (r : R)
      → Distinct (keys chain)
      → All (IsHarmless req world) chain
      → Memᴰ c chain
      → IsUsable req world s c r
      → WasAnswered (chat_loop req world chain attempted last s).0
  unfolding chat_loop
  chat_loop-answered [] attempted last s c r d h m u = absurd (not-mem-nil ∣ m ∣₁)
  chat_loop-answered (b ∷ bs) attempted last s c r (new, d) (safe, h) (Memᴰ.head e) u =
      Ends-answered (chat_loop req world bs) (round req world b attempted last s) (
        round-Ends b attempted last s r
          (subst (λ (x : ChatCandidate). IsUsable req world s x r) e u))
  chat_loop-answered (b ∷ bs) attempted last s c r (new, d) (safe, h) (Memᴰ.tail m) u =
      after_round-answered (chat_loop req world bs) (round req world b attempted last s)
        (round-Proceeds b attempted last s safe)
        (λ attempted' last' s' e. chat_loop-answered bs attempted' last' s' c r d h m (
          IsUsable-same req world s' s c r
            (sym (
              go_on-health s b (round req world b attempted last s)
                (round-Fits req world b attempted last s) e c.health_key
                (other (elem_of_Memᴰ c bs m))))
            u))
    where
      other : elem c.health_key (keys bs) ≡ true → (b.health_key == c.health_key) ≡ false
      other m = ground (arith, eq_iff b.health_key c.health_key)

  -- If no candidate of the chain brings an exception or a final error, no two have one health key,
  -- and one of them is usable at the start, then the chat is answered.
  pub chat_fails_over :
      (chain : Chain) (s : RouterState) (c : ChatCandidate) (r : R)
      → Distinct (keys chain)
      → All (IsHarmless req world) chain
      → Memᴰ c chain
      → IsUsable req world s c r
      → WasAnswered (chat req world chain s).0
  unfolding chat
  chat_fails_over chain s c r d h m u = chat_loop-answered chain false none s c r d h m u
