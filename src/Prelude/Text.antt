-- ===== src/Prelude/Text.antt =====
-- Text assembly: `format!`, `join`, and the decimal printing of a number.
use Prim.Native.Nat.{ℕ, zero, suc, ◌/◌, ◌%◌, ◌<◌}
use Prim.Native.String.{String, ◌++◌}
use mathlib.Core.Logic.{dite}
use mathlib.Core.List.{List, [], ◌∷◌}
use mathlib.Core.WellFounded.{Acc, WellFounded}
use native.Mathlib.Decide.{dec_lt}
use native.Mathlib.Omega.{arith}

-- The pieces of a `format!`, one after the other.
unfoldable pub concat : List String → String
concat [] = ""
concat (s ∷ ss) = s ++ concat ss

join_rest : String → List String → String
join_rest sep [] = ""
join_rest sep (s ∷ ss) = sep ++ (s ++ join_rest sep ss)

unfoldable pub join : String → List String → String
unfolding join_rest
join sep [] = ""
join sep (s ∷ ss) = s ++ join_rest sep ss

digit : ℕ → String
digit zero = "0"
digit (suc zero) = "1"
digit (suc (suc zero)) = "2"
digit (suc (suc (suc zero))) = "3"
digit (suc (suc (suc (suc zero)))) = "4"
digit (suc (suc (suc (suc (suc zero))))) = "5"
digit (suc (suc (suc (suc (suc (suc zero)))))) = "6"
digit (suc (suc (suc (suc (suc (suc (suc zero))))))) = "7"
digit (suc (suc (suc (suc (suc (suc (suc (suc zero)))))))) = "8"
digit _ = "9"

Acc-below : (k n : ℕ) → n < k → Acc ◌<◌ n
Acc-below zero n h = elim h [ ]
Acc-below (suc k) n h = Acc.intro n (λ m hm. Acc-below k m (omega arith))

lt_wf : WellFounded ◌<◌
unfolding Acc-below
lt_wf = record { apply = λ n. Acc-below (suc n) n (omega arith) }

tenth_lt : {n : ℕ} → 9 < n → n / 10 < n
tenth_lt h = omega arith

decimal : (n : ℕ) → Acc ◌<◌ n → String
decimal n (Acc.intro _ smaller) =
    dite (dec_lt 9 n) (λ h. decimal (n / 10) (smaller (n / 10) (tenth_lt h)) ++ digit (n % 10))
      (λ _. digit n)

-- The `Display` of `u64` and `usize`.
unfoldable pub show : ℕ → String
unfolding decimal digit lt_wf dec_lt tenth_lt
show n = decimal n (lt_wf.apply n)
