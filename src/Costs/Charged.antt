-- ===== src/Costs/Charged.antt =====
-- What a call of the language model adds to the ledger, and how the check beforehand bounds it.
use mathlib.Core.Path.{subst}
use native.Mathlib.Nat.{mul-le-mul_right}
use adam_abundance.Base.{
  ℕ, ◌+◌, ◌/◌, ◌≤◌, ◌≡◌, refl, sym, ap, ◌∙◌, String, Bool, true, false, Option, none, some, List,
  length, leb, ◌==◌, arith, inl, inr, Bool-cases, Option-cases, Result, ok, err, ℤ,
}
use adam_abundance.Base.Text.{codes}
use adam_abundance.Memory.Store.{StoreError}
use adam_abundance.Governor.Caps.{SpendMetric, same_metric, per_day}
use adam_abundance.Governor.Budget.{SpendLedger, Governor, spent, effective, within_caps}
use adam_abundance.Governor.Charge.{spent-charge}
use adam_abundance.Costs.Pricing.{
  Tokens, exact_cost, rounded, compute_llm_micros, price_per_million, Price,
}
use adam_abundance.Costs.Llm.{
  Reply, Call, Anthropic, LlmResult, LlmError, result_of, model_of, tokens_of, rough_tokens,
  on_reply, with_key, send, checked, complete,
}

rounded-le : (x y : ℕ) → x ≤ y → rounded x ≤ rounded y
unfolding rounded
rounded-le x y h = ground arith

-- No amount of tokens costs less than a smaller one.
exact_cost-le :
    (p : Price) (t u : Tokens)
    → t.input ≤ u.input
    → t.output ≤ u.output
    → t.cache_creation ≤ u.cache_creation
    → t.cache_read ≤ u.cache_read
    → t.web_search_requests ≤ u.web_search_requests
    → exact_cost p t ≤ exact_cost p u
exact_cost-le (i, o) t u hi ho hc hr hw = omega (
  arith,
  mul-le-mul_right i hi,
  mul-le-mul_right o ho,
  mul-le-mul_right i hc,
  mul-le-mul_right i hr,
)

-- What a call of the client leaves behind, by its answer: an error leaves the ledger as it was, and
-- a result has been charged for, once, at the price of the reply's tokens.
pub record Accounted (c : Anthropic) (today : ℕ) (call : Call) (ledger : List SpendLedger)
    (r : Result LlmError LlmResult × Governor) : Type 0 where
  pub refused : (e : LlmError) → r.0 ≡ err e → r.1.ledger ≡ ledger
  pub answered :
      (res : LlmResult)
      → r.0 ≡ ok res
      → (reply : Reply) × (c.create (model_of c call) call ≡ some reply)
        × (res.micros ≡ compute_llm_micros (model_of c call) (tokens_of reply))
        × (spent today SpendMetric.llm_micros r.1.ledger
            ≡ spent today SpendMetric.llm_micros ledger + res.micros)
        × ((m : SpendMetric)
            → same_metric SpendMetric.llm_micros m ≡ false
            → spent today m r.1.ledger ≡ spent today m ledger)

same_result : (a b : LlmResult) → ◌≡◌ {A = Result LlmError LlmResult} (ok a) (ok b) → a ≡ b
same_result a b h = cc

self : (n : ℕ) → (n == n) ≡ true
self n = ground arith

module _ (c : Anthropic) (today : ℕ) (call : Call) (g : Governor) where
  refusal : (e : LlmError) → Accounted c today call g.ledger (err e, g)
  refusal e = record { refused = λ e' h. refl; answered = λ res h. absurd (cc) }

  result_micros :
      (r : Reply) (res : LlmResult)
      → ◌≡◌ {A = Result LlmError LlmResult} (ok (result_of (model_of c call) r)) (ok res)
      → res.micros ≡ compute_llm_micros (model_of c call) (tokens_of r)
  result_micros r res h =
      sym (ap (λ x. x.micros) (same_result (result_of (model_of c call) r) res h))

  on_reply-Accounted :
      (o : Option Reply)
      → c.create (model_of c call) call ≡ o
      → Accounted c today call g.ledger (on_reply c today call o g)
  on_reply-Accounted none e = refusal LlmError.api_error
  on_reply-Accounted (some r) e =
      let n = compute_llm_micros (model_of c call) (tokens_of r) in
      record {
        refused = λ e' h. absurd (cc);
        answered = λ res h. (
          r,
          e,
          result_micros r res h,
          rw (result_micros r res h) (
              spent-charge today today SpendMetric.llm_micros SpendMetric.llm_micros (ℤ.pos n)
                call.agent g
              ∙ rw (self today) refl),
          (λ m k.
              spent-charge today today m SpendMetric.llm_micros (ℤ.pos n) call.agent g
              ∙ rw (self today, k) omega arith),
        );
      }

  with_key-Accounted :
      (k : Option String) → Accounted c today call g.ledger (with_key c today call k g)
  with_key-Accounted none = refusal _
  with_key-Accounted (some k) = on_reply-Accounted (c.create (model_of c call) call) refl

  send-Accounted : Accounted c today call g.ledger (send c today call g)
  send-Accounted = elim (Bool-cases c.installed) [
    | inl e ↦ simp e (with_key-Accounted c.key)
    | inr e ↦ simp e (refusal _)
  ]

  checked-Accounted :
      (r : Result StoreError Bool) → Accounted c today call g.ledger (checked c today call r g)
  checked-Accounted (err e) = refusal _
  checked-Accounted (ok false) = refusal _
  checked-Accounted (ok true) = send-Accounted

-- The check beforehand writes nothing into the ledger, and where it holds the amount fits the cap.
within_caps-ledger :
    (today : ℕ) (m : SpendMetric) (a : ℕ) (g : Governor)
    → (within_caps today m a g).1.ledger ≡ g.ledger
unfolding within_caps
within_caps-ledger today m a g = elim (Option-cases (per_day (effective g) m)) [
  | inl e ↦ rw e refl
  | inr (cap, e) ↦ rw e refl
]

within_caps-fits :
    (today : ℕ) (m : SpendMetric) (a cap : ℕ) (g : Governor)
    → per_day (effective g) m ≡ some cap
    → (within_caps today m a g).0 ≡ ok true
    → spent today m g.ledger + a ≤ cap
unfolding within_caps
within_caps-fits today m a cap g e h = fits (rw e at h)
  where
    fits :
        ◌≡◌ {A = Result StoreError Bool} (ok (leb (spent today m g.ledger + a) cap)) (ok true)
        → spent today m g.ledger + a ≤ cap
    fits k = ground arith

-- A call that raises, before the request or in it, charges nothing; a call that returns has charged
-- the ledger once, with the cost of the tokens of the reply at the model's price, which is the cost
-- that the result names, and no other metric.
pub complete-Accounted :
    (c : Anthropic) (today : ℕ) (call : Call) (g : Governor)
    → Accounted c today call g.ledger (complete c today call g)
unfolding complete
complete-Accounted c today call g =
    let rough = compute_llm_micros (model_of c call) (rough_tokens call) in
    let asked = within_caps today SpendMetric.llm_micros rough g in
    subst (λ l. Accounted c today call l (complete c today call g))
      (within_caps-ledger today SpendMetric.llm_micros rough g)
      (checked-Accounted c today call asked.1 asked.0)

same_reply : (a b : Reply) → some a ≡ some b → a ≡ b
same_reply a b h = cc

checked-passed :
    (c : Anthropic) (today : ℕ) (call : Call) (g : Governor) (r : Result StoreError Bool)
    (res : LlmResult)
    → (checked c today call r g).0 ≡ ok res
    → r ≡ ok true
checked-passed c today call g (err e) res h = cc
checked-passed c today call g (ok false) res h = cc
checked-passed c today call g (ok true) res h = refl

-- Where a reply uses no more tokens than the check beforehand reckons with (a third of the prompt's
-- length, the requested maximum, and neither the cache nor a search), a call that returns leaves the
-- day's spend within the cap.
pub complete-within_cap :
    (c : Anthropic) (today : ℕ) (call : Call) (g : Governor) (cap : ℕ) (reply : Reply)
    (res : LlmResult)
    → per_day (effective g) SpendMetric.llm_micros ≡ some cap
    → c.create (model_of c call) call ≡ some reply
    → (tokens_of reply).input ≤ length (codes call.prompt) / 3
    → (tokens_of reply).output ≤ call.max_tokens
    → (tokens_of reply).cache_creation ≡ 0
    → (tokens_of reply).cache_read ≡ 0
    → (tokens_of reply).web_search_requests ≡ 0
    → (complete c today call g).0 ≡ ok res
    → spent today SpendMetric.llm_micros (complete c today call g).1.ledger ≤ cap
unfolding complete compute_llm_micros
complete-within_cap c today call g cap reply res e sent hi ho hc hr hw h =
    let model = model_of c call in
    let rough = compute_llm_micros model (rough_tokens call) in
    let asked = within_caps today SpendMetric.llm_micros rough g in
    let (r, e', micros, added, _) = (complete-Accounted c today call g).answered res h in
    let same : r ≡ reply = same_reply r reply (sym e' ∙ sent) in
    let cheap : res.micros ≤ rough =
      rw (micros, same)
        (rounded-le _ _ (
          exact_cost-le (price_per_million model) (tokens_of reply) (rough_tokens call) hi ho
            (omega arith) (omega arith) (omega arith))) in
    omega (
      arith,
      added,
      within_caps-fits today SpendMetric.llm_micros rough cap g e
          (checked-passed c today call asked.1 asked.0 res h),
    )
