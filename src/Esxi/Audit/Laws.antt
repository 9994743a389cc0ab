-- ===== src/Esxi/Audit/Laws.antt =====
-- The length of the log of the commands, and its count of them (internal/esxi/executor.go).
use esxi_mover.Prelude.{
  ℕ, zero, suc, ◌+◌, ◌≤◌, ◌≡◌, refl, Option, none, some, List, [], ◌∷◌, inl, inr, ◌&&◌, length,
  take, arith, Bool-cases,
}
use esxi_mover.Esxi.Audit.{Entry, poll_event, same_entry, behind, folded, added, add}

-- All the commands that a log stands for.
unfoldable pub total : List Entry → ℕ
total [] = 0
total (e ∷ es) = e.runs + total es

-- A folding takes one event away, and its runs with it.
IsFolding : Option (ℕ × List Entry) → List Entry → Type 0
IsFolding none es = Unit
IsFolding (some (n, rest)) es = (suc (length rest) ≡ length es) × (n + total rest ≡ total es)

behind-IsFolding :
    (l : Entry) (x : Option (ℕ × List Entry)) (es : List Entry)
    → IsFolding x es
    → IsFolding (behind l x) (l ∷ es)
unfolding behind IsFolding total
behind-IsFolding l none es h = tt
behind-IsFolding l (some (n, rest)) es (short, same) = (omega arith, omega arith)

folded-IsFolding : (e : Entry) (es : List Entry) → IsFolding (folded e es) es
unfolding folded IsFolding
folded-IsFolding e [] = tt
folded-IsFolding e (l ∷ es) = elim (Bool-cases (same_entry l e)) [
  | inl same ↦ rw same (refl, unfold total in refl)
  | inr other ↦ elim (Bool-cases (poll_event e && poll_event l)) [
    | inl polls ↦ rw (other, polls) (behind-IsFolding l (folded e es) es (folded-IsFolding e es))
    | inr stops ↦ rw (other, stops) tt
  ]
]

length-take : {A : Type 0} (n : ℕ) (xs : List A) → length (take n xs) ≤ n
length-take zero xs = omega arith
length-take (suc n) [] = omega arith
length-take (suc n) (x ∷ xs) = let rest = length-take n xs in omega arith

take-all : {A : Type 0} (n : ℕ) (xs : List A) → length xs ≤ n → take n xs ≡ xs
take-all zero [] h = refl
take-all zero (x ∷ xs) h = ground arith
take-all (suc n) [] h = refl
take-all (suc n) (x ∷ xs) h = rw (take-all n xs (omega arith)) refl

-- A log of at most 500 events has at most 500 events after the next command.
pub add-bound : (e : Entry) (es : List Entry) → length es ≤ 500 → length (add e es) ≤ 500
unfolding add added IsFolding
add-bound e es h = bound (folded e es) (folded-IsFolding e es)
  where
    bound : (x : Option (ℕ × List Entry)) → IsFolding x es → length (added e x es) ≤ 500
    bound none f = let short = length-take 499 es in omega arith
    bound (some (n, rest)) f = let (short, same) = f in omega arith

-- As long as a log is not full, one more command is counted in it, folded or not, and none is lost.
pub total-add : (e : Entry) (es : List Entry) → length es ≤ 499 → total (add e es) ≡ suc (total es)
unfolding add added IsFolding total
total-add e es h = count (folded e es) (folded-IsFolding e es)
  where
    count : (x : Option (ℕ × List Entry)) → IsFolding x es → total (added e x es) ≡ suc (total es)
    count none f = rw (take-all 499 es h) (omega arith)
    count (some (n, rest)) f = let (short, same) = f in omega arith
