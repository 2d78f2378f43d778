-- ===== src/Tcp/Session/Effects.antt =====
-- The messages among the effects of a session.
use communicate_core.Common.{ℕ, ◌+◌, ◌≡◌, refl, List, [], ◌∷◌, ◌++◌, map, arith}
use communicate_core.Handler.{LogLine}
use communicate_core.Tcp.State.{Effect, disconnect, log, signal, send}

abbrev pub count_sends : List Effect → ℕ
count_sends [] = 0
count_sends (send sock bytes ∷ es) = 1 + count_sends es
count_sends (e ∷ es) = count_sends es

-- Each message of the effects has a property.
abbrev pub AllSent : (List ℕ → Type 0) → List Effect → Type 0
AllSent P [] = Unit {0}
AllSent P (send sock bytes ∷ es) = P bytes × AllSent P es
AllSent P (e ∷ es) = AllSent P es

pub count_sends-append :
    (xs ys : List Effect) → count_sends (xs ++ ys) ≡ count_sends xs + count_sends ys
count_sends-append [] ys = omega arith
count_sends-append (send sock bytes ∷ xs) ys = omega (arith, count_sends-append xs ys)
count_sends-append (disconnect s ∷ xs) ys = count_sends-append xs ys
count_sends-append (log l ∷ xs) ys = count_sends-append xs ys
count_sends-append (signal ∷ xs) ys = count_sends-append xs ys

pub count_sends-map_log : (ls : List LogLine) → count_sends (map Effect.log ls) ≡ 0
count_sends-map_log [] = refl
count_sends-map_log (l ∷ ls) = count_sends-map_log ls

pub AllSent-append :
    (P : List ℕ → Type 0) (xs ys : List Effect) → AllSent P xs → AllSent P ys → AllSent P (xs ++ ys)
AllSent-append P [] ys a b = b
AllSent-append P (send sock bytes ∷ xs) ys a b = (a.0, AllSent-append P xs ys a.1 b)
AllSent-append P (disconnect s ∷ xs) ys a b = AllSent-append P xs ys a b
AllSent-append P (log l ∷ xs) ys a b = AllSent-append P xs ys a b
AllSent-append P (signal ∷ xs) ys a b = AllSent-append P xs ys a b

pub AllSent-of_none : (P : List ℕ → Type 0) (xs : List Effect) → count_sends xs ≡ 0 → AllSent P xs
AllSent-of_none P [] h = tt
AllSent-of_none P (send sock bytes ∷ xs) h = absurd (omega arith)
AllSent-of_none P (disconnect s ∷ xs) h = AllSent-of_none P xs h
AllSent-of_none P (log l ∷ xs) h = AllSent-of_none P xs h
AllSent-of_none P (signal ∷ xs) h = AllSent-of_none P xs h
