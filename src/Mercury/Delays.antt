-- ===== src/Mercury/Delays.antt =====
-- The delays between connection attempts.
use webex_kms_sdk.Base.{
  ℕ, zero, suc, ◌*◌, ◌≤◌, ◌≡◌, refl, ap, ◌∙◌, Bool, true, List, [], ◌∷◌, leb, ◌&&◌, length, arith,
}
use webex_kms_sdk.Mercury.Connection.{min}

-- The delays of the loop, and those of the documentation: the first, and then its doublings up to a
-- cap.
abbrev pub loop_delays : ℕ → ℕ → ℕ → List ℕ
loop_delays delay cap zero = []
loop_delays delay cap (suc n) = delay ∷ loop_delays (min (delay * 2) cap) cap n

abbrev pub doublings : ℕ → ℕ → ℕ → List ℕ
doublings x cap zero = []
doublings x cap (suc n) = min x cap ∷ doublings (x * 2) cap n

abbrev pub backoffs : ℕ → ℕ → ℕ → List ℕ
backoffs reset cap zero = []
backoffs reset cap (suc n) = reset ∷ doublings (reset * 2) cap n

min-min : (x cap : ℕ) → min (min x cap * 2) cap ≡ min (x * 2) cap
min-min x cap = ground arith

loop_delays-min : (n x cap : ℕ) → loop_delays (min x cap) cap n ≡ doublings x cap n
loop_delays-min zero x cap = refl
loop_delays-min (suc n) x cap =
    ap (◌∷◌ (min x cap))
      (ap (λ d. loop_delays d cap n) (min-min x cap) ∙ loop_delays-min n (x * 2) cap)

pub loop_delays-backoffs : (n reset cap : ℕ) → loop_delays reset cap n ≡ backoffs reset cap n
loop_delays-backoffs zero reset cap = refl
loop_delays-backoffs (suc n) reset cap = ap (◌∷◌ reset) (loop_delays-min n (reset * 2) cap)

abbrev pub all_at_most : ℕ → List ℕ → Bool
all_at_most b [] = true
all_at_most b (n ∷ ns) = leb n b && all_at_most b ns

doublings_bounded : (b n x cap : ℕ) → cap ≤ b → all_at_most b (doublings x cap n) ≡ true
doublings_bounded b zero x cap h = refl
doublings_bounded b (suc n) x cap h =
    let rest = doublings_bounded b n (x * 2) cap h in ground (arith, rest)

pub backoffs_bounded :
    (b n reset cap : ℕ) → reset ≤ b → cap ≤ b → all_at_most b (backoffs reset cap n) ≡ true
backoffs_bounded b zero reset cap h k = refl
backoffs_bounded b (suc n) reset cap h k =
    let rest = doublings_bounded b n (reset * 2) cap k in ground (arith, rest)

length-doublings : (n x cap : ℕ) → length (doublings x cap n) ≡ n
length-doublings zero x cap = refl
length-doublings (suc n) x cap = ap suc (length-doublings n (x * 2) cap)

pub length-backoffs : (n reset cap : ℕ) → length (backoffs reset cap n) ≡ n
length-backoffs zero reset cap = refl
length-backoffs (suc n) reset cap = ap suc (length-doublings n (reset * 2) cap)
