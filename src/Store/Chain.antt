-- ===== src/Store/Chain.antt =====
-- What happens to a list of nodes when one is put behind its last.
use ini.Base.{
  All, All-append_left, All-append_right, All-both, All-mono, List, Option, [], none, some, sym, ℕ,
  ◌++◌, ◌∷◌, ◌≡◌, ◌≢◌,
}
use ini.Memory.{final}
use ini.Store.Find.{IsChain}

-- No node stands twice in a list.
abbrev pub Unique : List ℕ → Type 0
Unique [] = Unit
Unique (x ∷ xs) = All (λ y. x ≢ y) xs × Unique xs

pub All-final : (P : ℕ → Type 0) (y : ℕ) (zs : List ℕ) → All P (y ∷ zs) → P (final y zs)
All-final P y [] h = h.0
All-final P y (z ∷ zs) h = All-final P z zs h.1

-- Only the last node's link has changed, and leads to `i`, which leads nowhere.
pub record LinksBehind (f g : ℕ → Option ℕ) (end i : ℕ) : Type 0 where
  pub at_end : g end ≡ some i
  pub at_new : g i ≡ none
  pub elsewhere : (j : ℕ) → end ≢ j → i ≢ j → g j ≡ f j

pub IsChain-append :
    (f g : ℕ → Option ℕ) (p : Option ℕ) (x : ℕ) (ys : List ℕ) (i : ℕ)
    → IsChain f p (x ∷ ys)
    → Unique (x ∷ ys)
    → All (λ j. i ≢ j) (x ∷ ys)
    → LinksBehind f g (final x ys) i
    → IsChain g p ((x ∷ ys) ++ (i ∷ []))
IsChain-append f g p x [] i c u n l = (c.0, (l.at_end, l.at_new))
IsChain-append f g p x (y ∷ zs) i c u n l =
    let apart : final y zs ≢ x = λ e. All-final (λ j. x ≢ j) y zs u.0 (sym e) in
    let kept : g x ≡ f x = l.elsewhere x apart n.0 in
    (c.0, rw kept (IsChain-append f g (f x) y zs i c.1 u.1 n.1 l))

pub IsChain-same :
    (f g : ℕ → Option ℕ) (p : Option ℕ) (xs : List ℕ)
    → All (λ j. g j ≡ f j) xs
    → IsChain f p xs
    → IsChain g p xs
IsChain-same f g p [] h c = c
IsChain-same f g p (x ∷ xs) h c = (c.0, rw h.0 (IsChain-same f g (f x) xs h.1 c.1))

-- Behind `end` the list goes on where it went on behind `k`.
pub record SkipsOver (f g : ℕ → Option ℕ) (end k : ℕ) : Type 0 where
  pub past : g end ≡ f k
  pub elsewhere : (j : ℕ) → end ≢ j → k ≢ j → g j ≡ f j

pub IsChain-skip :
    (f g : ℕ → Option ℕ) (p : Option ℕ) (x : ℕ) (xs : List ℕ) (k : ℕ) (ys : List ℕ)
    → IsChain f p ((x ∷ xs) ++ (k ∷ ys))
    → Unique ((x ∷ xs) ++ (k ∷ ys))
    → SkipsOver f g (final x xs) k
    → IsChain g p ((x ∷ xs) ++ ys)
IsChain-skip f g p x [] k ys c u s =
    let behind : All (λ j. g j ≡ f j) ys =
      All-mono _ _ ys (λ j h. s.elsewhere j h.0 h.1)
        (All-both (λ j. x ≢ j) (λ j. k ≢ j) ys u.0.1 u.1.0) in
    (c.0, rw s.past (IsChain-same f g (f k) ys behind c.1.1))
IsChain-skip f g p x (y ∷ zs) k ys c u s =
    let apart : final y zs ≢ x =
      λ e. All-final (λ j. x ≢ j) y zs (All-append_left _ (y ∷ zs) (k ∷ ys) u.0) (sym e) in
    let other : k ≢ x = λ e. (All-append_right (λ j. x ≢ j) (y ∷ zs) (k ∷ ys) u.0).0 (sym e) in
    let kept : g x ≡ f x = s.elsewhere x apart other in
    (c.0, rw kept (IsChain-skip f g (f x) y zs k ys c.1 u.1 s))

-- `p` is the last node of what stands before, or NULL where nothing does.
abbrev pub StandsBehind : Option ℕ → List ℕ → Type 0
StandsBehind p [] = p ≡ none
StandsBehind p (x ∷ xs) = p ≡ some (final x xs)

-- The last node of what stands before is another.
pub Unique-final :
    (x : ℕ) (xs : List ℕ) (k : ℕ) (ys : List ℕ) → Unique ((x ∷ xs) ++ (k ∷ ys)) → final x xs ≢ k
Unique-final x [] k ys u = u.0.0
Unique-final x (y ∷ zs) k ys u = Unique-final y zs k ys u.1
