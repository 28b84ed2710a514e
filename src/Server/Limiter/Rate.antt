-- ===== src/Server/Limiter/Rate.antt =====
-- How much the limiter lets through.
use mathlib.Core.Path.{subst₂}
use native.Mathlib.Nat.{add-mul}
use ccdash.Prelude.{
  if_intro, ap, ◌∙◌, ℕ, suc, ◌+◌, ◌-◌, ◌*◌, ◌≤◌, ◌≡◌, true, false, List, [], ◌∷◌, arith,
  if◌then◌else◌,
}
use ccdash.Server.Limiter.{TokenBucket, token, new_token_bucket, allow, serve}

-- The times do not go back, from the last one that the bucket has seen, and end by `until`.
abbrev pub Ordered : ℕ → List ℕ → ℕ → Type 0
Ordered from [] until = from ≤ until
Ordered from (t ∷ ts) until = (from ≤ t) × Ordered t ts until

pub allow-le-capacity : (b : TokenBucket) (now : ℕ) → (allow b now).0.tokens ≤ b.capacity
unfolding allow
allow-le-capacity b now = ground arith

-- One request uses up a token if it is let through, and time refills what is left.
allow_spends :
    (b : TokenBucket) (now : ℕ)
    → (allow b now).0.tokens + (if (allow b now).1 then token else 0)
      ≤ b.tokens + (now - b.last) * b.refill
unfolding allow
allow_spends b now = ground arith

allow_rest :
    (b : TokenBucket) (now : ℕ)
    → ((allow b now).0.last ≡ now)
      × ((allow b now).0.refill ≡ b.refill)
      × ((allow b now).0.capacity ≡ b.capacity)
unfolding allow
allow_rest b now = ground arith

le-Ordered : (from : ℕ) (ts : List ℕ) (until : ℕ) → Ordered from ts until → from ≤ until
le-Ordered from [] until h = h
le-Ordered from (t ∷ ts) until h = omega (arith, h.0, le-Ordered t ts until h.1)

serve_spends :
    (b : TokenBucket) (ts : List ℕ) (until : ℕ)
    → Ordered b.last ts until
    → (serve b ts).1 * token ≤ b.tokens + (until - b.last) * b.refill
unfolding serve
serve_spends b [] until h = omega arith
serve_spends b (t ∷ ts) until h =
    let (seen, rate, _) = allow_rest b t in
    let later : (serve (allow b t).0 ts).1 * token ≤ (allow b t).0.tokens + (until - t) * b.refill =
      subst₂
        (λ (l r : ℕ). (serve (allow b t).0 ts).1 * token ≤ (allow b t).0.tokens + (until - l) * r)
        seen rate (serve_spends (allow b t).0 ts until (rw seen h.1)) in
    let split : until - b.last ≡ (until - t) + (t - b.last) =
      omega (arith, h.0, le-Ordered t ts until h.1) in
    let room : (until - b.last) * b.refill ≡ (until - t) * b.refill + (t - b.last) * b.refill =
      ap (λ d. d * b.refill) split ∙ add-mul (until - t) (t - b.last) b.refill in
    if_intro (λ (n : ℕ). n * token ≤ b.tokens + (until - b.last) * b.refill) (allow b t).1
      (λ passed. rw room (spent (allow_spends b t) later passed))
      (λ refused. rw room (kept (allow_spends b t) later refused))
  where
    spent :
        (allow b t).0.tokens + (if (allow b t).1 then token else 0)
          ≤ b.tokens + (t - b.last) * b.refill
        → (serve (allow b t).0 ts).1 * token ≤ (allow b t).0.tokens + (until - t) * b.refill
        → (allow b t).1 ≡ true
        → suc (serve (allow b t).0 ts).1 * token
          ≤ b.tokens + ((until - t) * b.refill + (t - b.last) * b.refill)
    spent a c e = ground arith

    kept :
        (allow b t).0.tokens + (if (allow b t).1 then token else 0)
          ≤ b.tokens + (t - b.last) * b.refill
        → (serve (allow b t).0 ts).1 * token ≤ (allow b t).0.tokens + (until - t) * b.refill
        → (allow b t).1 ≡ false
        → (serve (allow b t).0 ts).1 * token
          ≤ b.tokens + ((until - t) * b.refill + (t - b.last) * b.refill)
    kept a c e = ground arith

-- Of requests at times that do not go back, the limiter lets through at most the burst and what the
-- rate refills from the start to any time that is not before the last request.
pub serve-rate :
    (qps burst start : ℕ) (ts : List ℕ) (until : ℕ)
    → Ordered start ts until
    → (serve (new_token_bucket qps burst start) ts).1 * token
      ≤ burst * token + (until - start) * qps
unfolding new_token_bucket
serve-rate qps burst start ts until h = serve_spends _ ts until h
